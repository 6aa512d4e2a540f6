-- ===== src/Accounts/RoleSync.antt =====
-- The coarse role of an account agrees with the roles that it is assigned.
use bodp_app.Prelude.{
  ℕ, ◌≡◌, ap, true, not, ◌&&◌, some, none, List, arith, inl, inr, Bool-cases, Option-cases, ltb,
  ◌==◌, ==_iff, if◌then◌else◌,
}
use bodp_app.Table.{
  Table, find, insert, update, delete, count_where, IsKeyed, IsKeyed-insert, IsKeyed-delete,
  find-update, count_where-insert, count_where-delete,
}
use bodp_app.Models.{User, UserRoleEnum, Role, UserRole, is_admin, AuditLogEntry}
use bodp_app.Database.{Db}
use bodp_app.Accounts.Roles.{is_panel_role, has_panel_role, assigned, panel_assignment}

-- An account is an admin exactly where it is assigned a role other than "User".
pub record IsSynced (db : Db) : Type 0 where
  pub keyed : IsKeyed db.user_roles
  pub at :
      (u : ℕ) (user : User)
      → find u db.users ≡ some user
      → is_admin user.role ≡ ltb 0 (count_where (panel_assignment db.roles u) db.user_roles)

-- The accounts after one of them got a coarse role.
abbrev pub with_role : (user_id : ℕ) → UserRoleEnum → Table User → Table User
with_role user_id role users = update user_id (λ u. record u { role = role }) users

pub added-IsSynced :
    (new_id user_id role_id : ℕ) (role : Role) (log : List AuditLogEntry) (db : Db)
    → find role_id db.roles ≡ some role
    → find new_id db.user_roles ≡ none
    → IsSynced db
    → IsSynced (record db {
      users =
          if is_panel_role role then with_role user_id UserRoleEnum.admin db.users else db.users;
      user_roles = insert new_id (record { user_id = user_id; role_id = role_id }) db.user_roles;
      audit_log = log;
    })
added-IsSynced new_id user_id role_id role log db there fresh h = record {
  keyed = IsKeyed-insert new_id _ _ fresh h.keyed;
  at = λ u x found.
      let counted =
        count_where-insert (panel_assignment db.roles u) new_id
          (record { user_id = user_id; role_id = role_id }) db.user_roles in
      let written = find-update u user_id (λ y. record y { role = UserRoleEnum.admin }) db.users in
      elim (Option-cases (find u db.users)) [
        | inl no_user ↦ absurd (ground arith)
        | inr (old, known) ↦ elim (Bool-cases (is_panel_role role)) [
          | inr plain ↦ ground (arith, h.at u old known)
          | inl panel ↦ elim (Bool-cases (user_id == u)) [
            | inl same ↦ ground arith
            | inr other ↦ ground (arith, h.at u old known)
          ]
        ]
      ];
}

pub removed-IsSynced :
    (k user_id role_id : ℕ) (role : Role) (a : UserRole) (log : List AuditLogEntry) (db : Db)
    → find role_id db.roles ≡ some role
    → find k db.user_roles ≡ some a
    → assigned user_id role_id a ≡ true
    → IsSynced db
    → IsSynced (record db {
      users =
          if is_panel_role role
            && not
                (ltb 0 (count_where (panel_assignment db.roles user_id) (delete k db.user_roles)))
          then with_role user_id UserRoleEnum.user db.users
          else db.users;
      user_roles = delete k db.user_roles;
      audit_log = log;
    })
removed-IsSynced k user_id role_id role a log db there row mine h = record {
  keyed = IsKeyed-delete k _ h.keyed;
  at = λ u x found.
      let counted = count_where-delete (panel_assignment db.roles u) k a db.user_roles row in
      let written = find-update u user_id (λ y. record y { role = UserRoleEnum.user }) db.users in
      let same_role : a.role_id ≡ role_id = (==_iff a.role_id role_id).0 (ground arith) in
      let named : has_panel_role (find a.role_id db.roles) ≡ is_panel_role role =
        ground (arith, ap (λ i. find i db.roles) same_role) in
      elim (Option-cases (find u db.users)) [
        | inl no_user ↦ absurd (ground arith)
        | inr (old, known) ↦ elim (Bool-cases (is_panel_role role)) [
          | inr plain ↦ ground (arith, h.at u old known)
          | inl panel ↦ elim (Bool-cases (user_id == u)) [
            | inl same ↦
                elim (Bool-cases (
                  ltb 0
                    (count_where (panel_assignment db.roles user_id) (delete k db.user_roles)))) [
                      | inl some_left ↦ ground (
                        arith,
                        h.at u old known,
                        ap (λ i. count_where (panel_assignment db.roles i) (delete k db.user_roles))
                            ((==_iff user_id u).0 same),
                      )
                      | inr none_left ↦ ground (
                        arith,
                        ap (λ i. count_where (panel_assignment db.roles i) (delete k db.user_roles))
                            ((==_iff user_id u).0 same),
                      )
                    ]
            | inr other ↦ ground (arith, h.at u old known)
          ]
        ]
      ];
}

-- A write to the other columns of an account keeps the accounts in step.
pub rewritten-IsSynced :
    (user_id : ℕ) (f : User → User) (log : List AuditLogEntry) (db : Db)
    → ((u : User) → (f u).role ≡ u.role)
    → IsSynced db
    → IsSynced (record db { users = update user_id f db.users; audit_log = log })
rewritten-IsSynced user_id f log db keeps h = record {
  keyed = h.keyed;
  at = λ u x found.
      let written = find-update u user_id f db.users in
      elim (Option-cases (find u db.users)) [
        | inl no_user ↦ absurd (ground arith)
        | inr (old, known) ↦ elim (Bool-cases (user_id == u)) [
          | inl same ↦
              let is : f old ≡ x = ground arith in
              ground (arith, h.at u old known, keeps old, ap (λ y. y.role) is)
          | inr other ↦ ground (arith, h.at u old known)
        ]
      ];
}
