-- ===== src/Accounts/Access.antt =====
-- Who reaches the admin endpoints: what sequences of role changes guarantee, and where the coarse
-- role, the sessions and the tokens part.
use bodp_app.Prelude.{
  ℕ, ◌≤◌, ◌≡◌, refl, true, false, some, String, List, [], ◌∷◌, length, arith, is_some, ◌==◌,
}
use bodp_app.Table.{
  find, delete, rows_where, count_where, IsKeyed, find-update, length-rows_where, rows_where-find,
  count_where-delete, count_where-delete_where_all,
}
use bodp_app.Session.{ok, err, crash, run, exec, reply, scalar_one_or_none}
use bodp_app.Scope.{contains}
use bodp_app.Models.{User, UserStatus, Role, UserRole, is_admin}
use bodp_app.Database.{Db}
use bodp_app.Accounts.Tokens.{Libraries, Claims, TokenType, decode_token}
use bodp_app.Accounts.Sessions.{get_current_user, revoke_open}
use bodp_app.Accounts.Permissions.{require_admin}
use bodp_app.Accounts.Roles.{
  is_panel_role, assigned, panel_assignment, assign_role, unassign_role, set_user_status,
  anonymize_user, anonymized, delete_role, system_role_names,
}
use bodp_app.Accounts.RoleSync.{IsSynced}
use bodp_app.Accounts.RolePaths.{
  assign-IsSynced, unassign-IsSynced, status-IsSynced, anonymize-IsSynced,
}

-- The calls of an admin that change accounts and their roles.
pub data RoleOp : Type 0 where
  assign : (admin new_id user_id role_id : ℕ) → RoleOp
  unassign : (admin user_id role_id : ℕ) → RoleOp
  set_status : (admin user_id : ℕ) → UserStatus → RoleOp
  anonymize : (admin now user_id : ℕ) → (email hash : String) → RoleOp

unfoldable pub role_step : RoleOp → Db → Db
role_step (RoleOp.assign admin new_id user_id role_id) =
    exec (assign_role admin new_id user_id role_id)
role_step (RoleOp.unassign admin user_id role_id) = exec (unassign_role admin user_id role_id)
role_step (RoleOp.set_status admin user_id status) = exec (set_user_status admin user_id status)
role_step (RoleOp.anonymize admin now user_id email hash) =
    exec (anonymize_user admin now user_id email hash)

unfoldable pub role_steps : List RoleOp → Db → Db
unfolding role_step
role_steps [] db = db
role_steps (op ∷ ops) db = role_steps ops (role_step op db)

step-IsSynced : (op : RoleOp) (db : Db) → IsSynced db → IsSynced (role_step op db)
unfolding role_step
step-IsSynced (RoleOp.assign admin new_id user_id role_id) db =
    assign-IsSynced admin new_id user_id role_id db
step-IsSynced (RoleOp.unassign admin user_id role_id) db =
    unassign-IsSynced admin user_id role_id db
step-IsSynced (RoleOp.set_status admin user_id status) db = status-IsSynced admin user_id status db
step-IsSynced (RoleOp.anonymize admin now user_id email hash) db =
    anonymize-IsSynced admin now user_id email hash db

-- If an account is an admin exactly where it is assigned a role other than "User", for every
-- account, then so it is after any assignments, removals, changes of status and anonymisations.
pub role_steps-IsSynced : (ops : List RoleOp) (db : Db) → IsSynced db → IsSynced (role_steps ops db)
unfolding role_steps
role_steps-IsSynced [] db h = h
role_steps-IsSynced (op ∷ ops) db h =
    role_steps-IsSynced ops (role_step op db) (step-IsSynced op db h)

two_rows : {A : Type 0} (xs : List A) → 2 ≤ length xs → scalar_one_or_none xs ≡ err crash
unfolding scalar_one_or_none
two_rows [] h = absurd (omega arith)
two_rows (x ∷ []) h = absurd (omega arith)
two_rows (x ∷ y ∷ xs) h = refl

-- Removing a role other than "User" from an account that keeps two more such assignments or more
-- raises an exception that is no HTTP error, and changes nothing.
pub unassign_crashes :
    (admin user_id role_id k : ℕ) (user : User) (role : Role) (a : UserRole) (db : Db)
    → IsKeyed db.user_roles
    → find user_id db.users ≡ some user
    → find role_id db.roles ≡ some role
    → is_panel_role role ≡ true
    → rows_where (assigned user_id role_id) db.user_roles ≡ (k, a) ∷ []
    → 3 ≤ count_where (panel_assignment db.roles user_id) db.user_roles
    → run (unassign_role admin user_id role_id) db ≡ (err crash, db)
unfolding unassign_role scalar_one_or_none
unassign_crashes admin user_id role_id k user role a db keyed e there panel q many =
    let left = panel_assignment db.roles user_id in
    let rest = delete k db.user_roles in
    let (row, mine) = rows_where-find (assigned user_id role_id) db.user_roles k a [] keyed q in
    let counted = count_where-delete left k a db.user_roles row in
    let size = length-rows_where left rest in
    let many_left : 2 ≤ length (rows_where left rest) = ground arith in
    ground (arith, two_rows (rows_where left rest) many_left)

-- Deleting a role that is no system role deletes every assignment of it, and leaves every account
-- as it was: an admin whose only role it was stays an admin and passes the check for admins.
pub delete_role_keeps_admin :
    (admin role_id u : ℕ) (user : User) (role : Role) (db : Db)
    → find u db.users ≡ some user
    → is_admin user.role ≡ true
    → find role_id db.roles ≡ some role
    → contains system_role_names role.name ≡ false
    → (reply (delete_role admin role_id) db ≡ ok tt)
      × (find u (exec (delete_role admin role_id) db).users ≡ some user)
      × (count_where (λ a. a.role_id == role_id) (exec (delete_role admin role_id) db).user_roles
          ≡ 0)
      × (require_admin user ≡ ok tt)
unfolding delete_role require_admin
delete_role_keeps_admin admin role_id u user role db h a there other = (
  ground arith,
  ground arith,
  ground (
    arith,
    count_where-delete_where_all (λ x. x.role_id == role_id) (λ x. x.role_id == role_id)
        db.user_roles (λ r p. p),
  ),
  ground arith,
)

-- The bearer check lets an anonymised account through with an access token that has not expired,
-- where its email was verified.
pub anonymized_account_gets_through :
    (lib : Libraries) (admin now later id : ℕ) (email hash : String) (token : lib.Token)
    (c : Claims) (user : User) (db : Db)
    → find id db.users ≡ some user
    → is_some user.email_verified_at ≡ true
    → decode_token lib later token TokenType.access ≡ some c
    → c.sub ≡ some id
    → get_current_user lib later (some token) (exec (anonymize_user admin now id email hash) db)
      ≡ ok (id, anonymized email hash user)
unfolding anonymize_user revoke_open get_current_user
anonymized_account_gets_through lib admin now later id email hash token c user db h v d s =
    ground (arith, find-update id id (anonymized email hash) db.users)
