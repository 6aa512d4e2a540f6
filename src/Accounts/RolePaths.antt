-- ===== src/Accounts/RolePaths.antt =====
-- Each call that assigns, removes, suspends or anonymises keeps the coarse role in step.
use bodp_app.Prelude.{
  ℕ, ◌≡◌, refl, sym, subst, some, none, String, List, [], arith, inl, inr, Bool-cases, Option-cases,
  ◌==◌,
}
use bodp_app.Table.{
  find, update, delete, delete_where, rows_where, count_where, IsKeyed-delete_where, find-update,
  count_where-delete_where, count_where-delete_where_all, length-rows_where, rows_where-find,
}
use bodp_app.Session.{exec, Result-cases, scalar-one-row, scalar-no-row, scalar_one_or_none}
use bodp_app.Models.{UserStatus, UserRole, AuditLogEntry}
use bodp_app.Database.{Db}
use bodp_app.Accounts.Roles.{
  is_panel_role, assigned, panel_assignment, assign_role, unassign_role, set_user_status,
  anonymize_user, anonymized,
}
use bodp_app.Accounts.Sessions.{revoke_open}
use bodp_app.Accounts.RoleSync.{IsSynced, added-IsSynced, removed-IsSynced, rewritten-IsSynced}

anonymized-IsSynced :
    (user_id now : ℕ) (email hash : String) (log : List AuditLogEntry) (db : Db)
    → IsSynced db
    → IsSynced (record (revoke_open user_id now db) {
      users = update user_id (anonymized email hash) db.users;
      user_roles = delete_where (λ a. a.user_id == user_id) db.user_roles;
      audit_log = log;
    })
unfolding revoke_open
anonymized-IsSynced user_id now email hash log db h = record {
  keyed = IsKeyed-delete_where _ _ h.keyed;
  at = λ u x found.
      let mine = λ (a : UserRole). a.user_id == user_id in
      let pred = panel_assignment db.roles u in
      let written = find-update u user_id (anonymized email hash) db.users in
      elim (Option-cases (find u db.users)) [
        | inl no_user ↦ absurd (ground arith)
        | inr (old, known) ↦ elim (Bool-cases (user_id == u)) [
          | inl same ↦
              let gone =
                count_where-delete_where_all pred mine db.user_roles (λ r p. ground arith) in
              ground arith
          | inr other ↦
              let stay = count_where-delete_where pred mine db.user_roles (λ r p. ground arith) in
              ground (arith, h.at u old known)
        ]
      ];
}

same-IsSynced : {a b : Db} → b ≡ a → IsSynced a → IsSynced b
same-IsSynced e h = subst IsSynced (sym e) h

pub assign-IsSynced :
    (admin new_id user_id role_id : ℕ) (db : Db)
    → IsSynced db
    → IsSynced (exec (assign_role admin new_id user_id role_id) db)
unfolding assign_role
assign-IsSynced admin new_id user_id role_id db h = elim (Option-cases (find user_id db.users)) [
  | inl e ↦ same-IsSynced (ground arith) h
  | inr (user, e) ↦ elim (Option-cases (find role_id db.roles)) [
    | inl there ↦ same-IsSynced (ground arith) h
    | inr (role, there) ↦
        elim (Result-cases
          (scalar_one_or_none (rows_where (assigned user_id role_id) db.user_roles))) [
            | inr (x, q) ↦ same-IsSynced (ground arith) h
            | inl (some a, q) ↦ same-IsSynced (ground arith) h
            | inl (none, q) ↦ elim (Option-cases (find new_id db.user_roles)) [
              | inr (r, taken) ↦ same-IsSynced (ground arith) h
              | inl fresh ↦
                  let log = (exec (assign_role admin new_id user_id role_id) db).audit_log in
                  same-IsSynced (ground arith)
                    (added-IsSynced new_id user_id role_id role log db there fresh h)
            ]
          ]
  ]
]

-- Removing a role keeps the accounts in step, also where the query for the remaining ones raises.
pub unassign-IsSynced :
    (admin user_id role_id : ℕ) (db : Db)
    → IsSynced db
    → IsSynced (exec (unassign_role admin user_id role_id) db)
unfolding unassign_role
unassign-IsSynced admin user_id role_id db h = elim (Option-cases (find user_id db.users)) [
  | inl e ↦ same-IsSynced (ground arith) h
  | inr (user, e) ↦ elim (Option-cases (find role_id db.roles)) [
    | inl there ↦ same-IsSynced (ground arith) h
    | inr (role, there) ↦
        elim (Result-cases
          (scalar_one_or_none (rows_where (assigned user_id role_id) db.user_roles))) [
            | inr (x, q) ↦ same-IsSynced (ground arith) h
            | inl (none, q) ↦ same-IsSynced (ground arith) h
            | inl (some (k, a), q) ↦
                let log = (exec (unassign_role admin user_id role_id) db).audit_log in
                let (row, mine) =
                  rows_where-find (assigned user_id role_id) db.user_roles k a [] h.keyed
                    (scalar-one-row _ _ q) in
                let synced = removed-IsSynced k user_id role_id role a log db there row mine h in
                let left = panel_assignment db.roles user_id in
                let rest = delete k db.user_roles in
                let size = length-rows_where left rest in
                elim (Bool-cases (is_panel_role role)) [
                  | inr plain ↦ same-IsSynced (ground arith) synced
                  | inl panel ↦ elim (Result-cases (scalar_one_or_none (rows_where left rest))) [
                    | inr (x, r) ↦ same-IsSynced (ground arith) h
                    | inl (some y, r) ↦
                        let one = scalar-one-row _ _ r in
                        let counted : count_where left rest ≡ 1 = ground arith in
                        same-IsSynced (ground arith) synced
                    | inl (none, r) ↦
                        let counted : count_where left rest ≡ 0 =
                          ground (arith, scalar-no-row _ r) in
                        same-IsSynced (ground arith) synced
                  ]
                ]
          ]
  ]
]

pub status-IsSynced :
    (admin user_id : ℕ) (status : UserStatus) (db : Db)
    → IsSynced db
    → IsSynced (exec (set_user_status admin user_id status) db)
unfolding set_user_status
status-IsSynced admin user_id status db h = elim (Option-cases (find user_id db.users)) [
  | inl e ↦ same-IsSynced (ground arith) h
  | inr (user, e) ↦
      let log = (exec (set_user_status admin user_id status) db).audit_log in
      same-IsSynced (ground arith)
        (rewritten-IsSynced user_id (λ u. record u { status = status }) log db (λ u. refl) h)
]

pub anonymize-IsSynced :
    (admin now user_id : ℕ) (email hash : String) (db : Db)
    → IsSynced db
    → IsSynced (exec (anonymize_user admin now user_id email hash) db)
unfolding anonymize_user revoke_open
anonymize-IsSynced admin now user_id email hash db h = elim (Option-cases (find user_id db.users)) [
  | inl e ↦ same-IsSynced (ground arith) h
  | inr (user, e) ↦
      let log = (exec (anonymize_user admin now user_id email hash) db).audit_log in
      same-IsSynced (ground arith) (anonymized-IsSynced user_id now email hash log db h)
]
