-- ===== src/Accounts/Roles.antt =====
-- Role assignment and what goes with it: `assign_role`, `unassign_role`, `anonymize_user`,
-- `set_user_status` (services/admin_users_service.py) and `delete_role`
-- (services/admin_roles_service.py), each with the lookups of its router.
use bodp_app.Prelude.{
  ℕ, Bool, false, not, ◌&&◌, Option, none, some, String, str_eq, List, [], ◌∷◌, ◌==◌, is_some,
  if◌then◌else◌,
}
use bodp_app.Table.{Table, find, insert, update, delete, delete_where, rows_where}
use bodp_app.Session.{
  Txn, http, pure, lift, gets, or_raise, modify, commit, raise_if, scalar_one_or_none, ◌>>=◌, ◌>>◌,
}
use bodp_app.Scope.{contains}
use bodp_app.Models.{User, UserRoleEnum, UserStatus, Role, UserRole, AuditActionType}
use bodp_app.Database.{Db, write_audit_log, raise_if_taken}
use bodp_app.Accounts.Sessions.{revoke_open}

-- `role.name != "User"`
abbrev pub is_panel_role : Role → Bool
is_panel_role r = not (str_eq r.name "User")

abbrev pub assigned : (user_id role_id : ℕ) → UserRole → Bool
assigned user_id role_id a = a.user_id == user_id && a.role_id == role_id

abbrev pub has_panel_role : Option Role → Bool
has_panel_role none = false
has_panel_role (some r) = is_panel_role r

-- The join of assignments with roles: an account's assignments of roles other than "User".
abbrev pub panel_assignment : Table Role → (user_id : ℕ) → UserRole → Bool
panel_assignment roles user_id a = a.user_id == user_id && has_panel_role (find a.role_id roles)

abbrev pub set_role : (user_id : ℕ) → UserRoleEnum → Db → Db
set_role user_id role db = record db {
  users = update user_id (λ u. record u { role = role }) db.users;
}

-- `get_user_for_admin`, and `_lock_user`
abbrev pub get_user : ℕ → Txn Db User
get_user id = do or_raise (← gets (λ db. find id db.users)) (http 404)

abbrev pub get_role : ℕ → Txn Db Role
get_role id = do or_raise (← gets (λ db. find id db.roles)) (http 404)

abbrev pub find_assignment : (user_id role_id : ℕ) → Txn Db (Option (ℕ × UserRole))
find_assignment user_id role_id = do
  lift (← gets (λ db. scalar_one_or_none (rows_where (assigned user_id role_id) db.user_roles)))

-- The writes of an assignment that is not there yet.
abbrev pub add_assignment : (admin new_id user_id role_id : ℕ) → Role → Txn Db (Unit {0})
add_assignment admin new_id user_id role_id role = do
  raise_if_taken new_id (λ db. db.user_roles)
  modify λ db. record db {
    user_roles = insert new_id (record { user_id = user_id; role_id = role_id }) db.user_roles;
  }
  modify λ db. if is_panel_role role then set_role user_id UserRoleEnum.admin db else db
  write_audit_log admin AuditActionType.user user_id
  commit

abbrev pub assign_if_new :
    (admin new_id user_id role_id : ℕ) → Role → Option (ℕ × UserRole) → Txn Db (Unit {0})
assign_if_new admin new_id user_id role_id role (some a) = pure tt
assign_if_new admin new_id user_id role_id role none =
    add_assignment admin new_id user_id role_id role

unfoldable pub assign_role : (admin new_id user_id role_id : ℕ) → Txn Db (Unit {0})
assign_role admin new_id user_id role_id = do
  user ← get_user user_id
  role ← get_role role_id
  existing ← find_assignment user_id role_id
  assign_if_new admin new_id user_id role_id role existing

-- The coarse role goes back to `user` if no assignment of a panel role remains; the query for the
-- remaining ones raises where there is more than one.
abbrev pub demote : (user_id : ℕ) → Role → Txn Db (Unit {0})
demote user_id role =
    if is_panel_role role
    then (do
      remaining ←
          lift
            (← gets (λ db.
              scalar_one_or_none (rows_where (panel_assignment db.roles user_id) db.user_roles)))
      modify λ db. if is_some remaining then db else set_role user_id UserRoleEnum.user db)
    else pure tt

abbrev pub remove_assignment :
    (admin user_id : ℕ) → Role → Option (ℕ × UserRole) → Txn Db (Unit {0})
remove_assignment admin user_id role none = pure tt
remove_assignment admin user_id role (some (id, a)) = do
  modify λ db. record db { user_roles = delete id db.user_roles }
  demote user_id role
  write_audit_log admin AuditActionType.user user_id
  commit

unfoldable pub unassign_role : (admin user_id role_id : ℕ) → Txn Db (Unit {0})
unassign_role admin user_id role_id = do
  user ← get_user user_id
  role ← get_role role_id
  existing ← find_assignment user_id role_id
  remove_assignment admin user_id role existing

unfoldable pub set_user_status : (admin user_id : ℕ) → UserStatus → Txn Db (Unit {0})
set_user_status admin user_id status = do
  user ← get_user user_id
  modify λ db. record db { users = update user_id (λ u. record u { status = status }) db.users }
  write_audit_log admin AuditActionType.user user_id
  commit

-- What an anonymised account keeps: `email` is the unique placeholder, `hash` a random one.
abbrev pub anonymized : (email hash : String) → User → User
anonymized email hash u = record u {
  email = email;
  full_name = "Deleted User";
  password_hash = hash;
  institution = none;
  phone = none;
  bio = none;
  research_area = none;
  avatar_key = none;
  status = UserStatus.deleted;
  role = UserRoleEnum.user;
  deletion_requested_at = none;
}

unfoldable pub anonymize_user : (admin now user_id : ℕ) → (email hash : String) → Txn Db (Unit {0})
anonymize_user admin now user_id email hash = do
  user ← get_user user_id
  modify (revoke_open user_id now)
  modify λ db. record db { user_roles = delete_where (λ a. a.user_id == user_id) db.user_roles }
  modify λ db. record db { users = update user_id (anonymized email hash) db.users }
  write_audit_log admin AuditActionType.user user_id
  commit

abbrev pub system_role_names : List String
system_role_names = "Administrator" ∷ "User" ∷ "Data Manager" ∷ "Reviewer" ∷ "Content Editor" ∷ []

-- The assignments of the role go with it, by the foreign key.
unfoldable pub delete_role : (admin role_id : ℕ) → Txn Db (Unit {0})
delete_role admin role_id = do
  role ← get_role role_id
  raise_if (contains system_role_names role.name) (http 409)
  write_audit_log admin AuditActionType.user role_id
  modify λ db. record db {
    roles = delete role_id db.roles;
    user_roles = delete_where (λ a. a.role_id == role_id) db.user_roles;
  }
  commit
