-- ===== src/Accounts/SessionPaths.antt =====
-- What each call does to the sessions: nothing, a new session, a write to one that is live, or the
-- end of every live one of an account.
use bodp_app.Prelude.{
  ℕ, ◌≡◌, true, false, some, none, String, List, [], arith, inl, inr, Bool-cases, Option-cases,
  ◌==◌, ==_iff, str_eq, not, ap, sym, subst, ◌&&◌,
}
use bodp_app.Table.{
  Table, find, insert, update, update_where, rows_where, rows_where-find, IsKeyed, IsKeyed-insert,
  IsKeyed-update, IsKeyed-update_where, find-insert, find-update, find-update_where,
}
use bodp_app.Session.{ok, exec, scalar-one-row, scalar_one_or_none, Result-cases}
use bodp_app.Models.{User, ActiveSession, is_revoked, is_suspended}
use bodp_app.Database.{Db}
use bodp_app.Accounts.Tokens.{
  TokenType, Libraries, Settings, decode_token, verify_password, create_refresh_token,
}
use bodp_app.Accounts.Sessions.{
  session_by_jti, revoke_at, is_open_of, revoke_open, issue_tokens, refresh_access_token, logout,
  confirm_password_reset, change_password, revoke_session,
}

-- What a call does to the sessions.
pub data SessionChange (t : Table ActiveSession) : Table ActiveSession → Type 0 where
  unchanged : SessionChange t t
  opened : (k : ℕ) (s : ActiveSession) → find k t ≡ none → SessionChange t (insert k s t)
  written :
      (k : ℕ) (f : ActiveSession → ActiveSession) (s : ActiveSession)
      → find k t ≡ some s
      → is_revoked s ≡ false
      → SessionChange t (update k f t)
  closed : (user_id now : ℕ) → SessionChange t (update_where (is_open_of user_id) (revoke_at now) t)

pub SessionChange-IsKeyed : {t u : Table ActiveSession} → SessionChange t u → IsKeyed t → IsKeyed u
SessionChange-IsKeyed SessionChange.unchanged h = h
SessionChange-IsKeyed (SessionChange.opened k s fresh) h = IsKeyed-insert k s _ fresh h
SessionChange-IsKeyed (SessionChange.written k f s e live) h = IsKeyed-update k f _ h
SessionChange-IsKeyed (SessionChange.closed user_id now) h = IsKeyed-update_where _ _ _ h

pub SessionChange-revoked :
    {t u : Table ActiveSession} (id : ℕ) (s : ActiveSession)
    → SessionChange t u
    → find id t ≡ some s
    → is_revoked s ≡ true
    → find id u ≡ some s
SessionChange-revoked id s SessionChange.unchanged h r = h
SessionChange-revoked {t} id s (SessionChange.opened k x fresh) h r = elim (Bool-cases (k == id)) [
  | inl same ↦ absurd (ground (arith, ap (λ i. find i t) ((==_iff k id).0 same)))
  | inr other ↦ ground (arith, find-insert id k x t)
]
SessionChange-revoked {t} id s (SessionChange.written k f x e live) h r =
    elim (Bool-cases (k == id)) [
      | inl same ↦ absurd (ground (arith, ap (λ i. find i t) ((==_iff k id).0 same)))
      | inr other ↦ ground (arith, find-update id k f t)
    ]
SessionChange-revoked {t} id s (SessionChange.closed user_id now) h r =
    ground (arith, find-update_where id (is_open_of user_id) (revoke_at now) t)

pub session_by_jti-find :
    (jti : String) (db : Db) (k : ℕ) (s : ActiveSession)
    → IsKeyed db.sessions
    → session_by_jti jti db ≡ ok (some (k, s))
    → (find k db.sessions ≡ some s) × (str_eq s.refresh_token_jti jti ≡ true)
session_by_jti-find jti db k s keyed e =
    rows_where-find (λ x. str_eq x.refresh_token_jti jti) db.sessions k s [] keyed
      (scalar-one-row _ _ e)

with_sessions : {t u v : Table ActiveSession} → v ≡ u → SessionChange t u → SessionChange t v
with_sessions {t} e c = subst (λ x. SessionChange t x) (sym e) c

module _ (lib : Libraries) (settings : Settings) where
  pub issue-SessionChange :
      (now session_id : ℕ) (a r : String) (m user_id : ℕ) (user : User) (db : Db)
      → SessionChange db.sessions
          (exec (issue_tokens lib settings now session_id a r m user_id user) db).sessions
  unfolding issue_tokens find
  issue-SessionChange now session_id a r m user_id user db =
      let token = create_refresh_token lib settings now r user_id session_id in
      elim (Option-cases (decode_token lib now token TokenType.refresh)) [
        | inl e ↦ rw e SessionChange.unchanged
        | inr (c, e) ↦ elim (Option-cases (find session_id db.sessions)) [
          | inr (s, h) ↦ rw (e, h) (SessionChange.unchanged)
          | inl h ↦ elim (Result-cases (session_by_jti c.jti db)) [
            | inr (x, j) ↦ rw (e, h, j) (SessionChange.unchanged)
            | inl (some s, j) ↦ rw (e, h, j) (SessionChange.unchanged)
            | inl (none, j) ↦ rw (e, h, j) (SessionChange.opened session_id _ h)
          ]
        ]
      ]

  pub refresh-SessionChange :
      (now : ℕ) (a : String) (m : ℕ) (token : lib.Token) (db : Db)
      → IsKeyed db.sessions
      → SessionChange db.sessions
          (exec (refresh_access_token lib settings now a m token) db).sessions
  unfolding refresh_access_token find scalar_one_or_none rows_where
  refresh-SessionChange now a m token db keyed =
      elim (Option-cases (decode_token lib now token TokenType.refresh)) [
        | inl e ↦ rw e SessionChange.unchanged
        | inr (c, e) ↦ elim (Result-cases (session_by_jti c.jti db)) [
          | inr (x, j) ↦ rw (e, j) SessionChange.unchanged
          | inl (none, j) ↦ rw (e, j) SessionChange.unchanged
          | inl (some (k, s), j) ↦ elim (Bool-cases (is_revoked s)) [
            | inl r ↦ rw (e, j, r) SessionChange.unchanged
            | inr r ↦ elim (Option-cases c.sub) [
              | inl n ↦ rw (e, j, r, n) SessionChange.unchanged
              | inr (u, n) ↦ elim (Option-cases (find u db.users)) [
                | inl q ↦ rw (e, j, r, n, q) SessionChange.unchanged
                | inr (user, q) ↦ elim (Bool-cases (is_suspended user.status)) [
                  | inl z ↦ rw (e, j, r, n, q, z) SessionChange.unchanged
                  | inr z ↦
                      let found = (session_by_jti-find c.jti db k s keyed j).0 in
                      let change =
                        SessionChange.written k (λ x. record x { last_active_at = now }) s found
                          r in
                      elim (Option-cases c.sid) [
                        | inl y ↦ rw (e, j, r, n, q, z, y) change
                        | inr (sid, y) ↦ rw (e, j, r, n, q, z, y) change
                      ]
                ]
              ]
            ]
          ]
        ]
      ]

module _ (lib : Libraries) where
  pub logout-SessionChange :
      (now : ℕ) (token : lib.Token) (db : Db)
      → IsKeyed db.sessions
      → SessionChange db.sessions (exec (logout lib now token) db).sessions
  unfolding logout
  logout-SessionChange now token db keyed =
      elim (Option-cases (decode_token lib now token TokenType.refresh)) [
        | inl e ↦ with_sessions (ground arith) SessionChange.unchanged
        | inr (c, e) ↦ elim (Result-cases (session_by_jti c.jti db)) [
          | inr (x, j) ↦ with_sessions (ground arith) SessionChange.unchanged
          | inl (none, j) ↦ with_sessions (ground arith) SessionChange.unchanged
          | inl (some (k, s), j) ↦ elim (Bool-cases (is_revoked s)) [
            | inl r ↦ with_sessions (ground arith) SessionChange.unchanged
            | inr r ↦
                let found = (session_by_jti-find c.jti db k s keyed j).0 in
                with_sessions (ground arith) (SessionChange.written k (revoke_at now) s found r)
          ]
        ]
      ]

  pub reset-SessionChange :
      (now salt : ℕ) (token : lib.Token) (password : List ℕ) (db : Db)
      → SessionChange db.sessions
          (exec (confirm_password_reset lib now salt token password) db).sessions
  unfolding confirm_password_reset revoke_open find
  reset-SessionChange now salt token password db =
      elim (Option-cases (decode_token lib now token TokenType.password_reset)) [
        | inl e ↦ rw e SessionChange.unchanged
        | inr (c, e) ↦ elim (Option-cases c.sub) [
          | inl n ↦ rw (e, n) SessionChange.unchanged
          | inr (u, n) ↦ elim (Option-cases (find u db.users)) [
            | inl q ↦ rw (e, n, q) SessionChange.unchanged
            | inr (user, q) ↦ rw (e, n, q) (SessionChange.closed u now)
          ]
        ]
      ]

  pub change_password-SessionChange :
      (now salt user_id : ℕ) (user : User) (old new : List ℕ) (db : Db)
      → SessionChange db.sessions
          (exec (change_password lib now salt user_id user old new) db).sessions
  unfolding change_password revoke_open
  change_password-SessionChange now salt user_id user old new db =
      elim (Bool-cases (not (verify_password lib old user.password_hash))) [
        | inl e ↦ rw e SessionChange.unchanged
        | inr e ↦ rw e (SessionChange.closed user_id now)
      ]

pub revoke-SessionChange :
    (now user_id session_id : ℕ) (db : Db)
    → SessionChange db.sessions (exec (revoke_session now user_id session_id) db).sessions
unfolding revoke_session
revoke-SessionChange now user_id session_id db = elim (Option-cases (find session_id db.sessions)) [
  | inl e ↦ with_sessions (ground arith) SessionChange.unchanged
  | inr (s, e) ↦ elim (Bool-cases (s.user_id == user_id && not (is_revoked s))) [
    | inr o ↦ with_sessions (ground arith) SessionChange.unchanged
    | inl o ↦
        with_sessions (ground arith)
          (SessionChange.written session_id (revoke_at now) s e (ground arith))
  ]
]
