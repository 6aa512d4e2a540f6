-- ===== src/Accounts/Revoked.antt =====
-- A session that is revoked stays revoked, and no refresh token brings it back.
use bodp_app.Prelude.{ℕ, ◌≡◌, true, some, none, String, List, [], ◌∷◌, arith, inl, inr, str_eq}
use bodp_app.Table.{find, rows_where-single, IsKeyed}
use bodp_app.Session.{Error, err, http, run, exec, Result-cases, scalar-one-row}
use bodp_app.Models.{User, ActiveSession, is_revoked}
use bodp_app.Database.{Db}
use bodp_app.Accounts.Tokens.{TokenType, Libraries, Settings, Claims, decode_token}
use bodp_app.Accounts.Sessions.{
  session_by_jti, issue_tokens, refresh_access_token, logout, confirm_password_reset,
  change_password, revoke_session,
}
use bodp_app.Accounts.SessionPaths.{
  SessionChange, SessionChange-IsKeyed, SessionChange-revoked, issue-SessionChange,
  refresh-SessionChange, logout-SessionChange, reset-SessionChange, change_password-SessionChange,
  revoke-SessionChange,
}

-- The calls that write sessions.
pub data SessionOp (lib : Libraries) : Type 0 where
  login :
      (now session_id : ℕ) (access_jti refresh_jti : String) (expire_minutes user_id : ℕ)
      → User
      → SessionOp lib
  refresh : (now : ℕ) (access_jti : String) (expire_minutes : ℕ) → lib.Token → SessionOp lib
  log_out : (now : ℕ) → lib.Token → SessionOp lib
  reset : (now salt : ℕ) → lib.Token → List ℕ → SessionOp lib
  change : (now salt user_id : ℕ) → User → (old new : List ℕ) → SessionOp lib
  revoke : (now user_id session_id : ℕ) → SessionOp lib

module _ (lib : Libraries) (settings : Settings) where
  unfoldable pub session_step : SessionOp lib → Db → Db
  session_step (SessionOp.login now sid a r m user_id user) =
      exec (issue_tokens lib settings now sid a r m user_id user)
  session_step (SessionOp.refresh now a m token) =
      exec (refresh_access_token lib settings now a m token)
  session_step (SessionOp.log_out now token) = exec (logout lib now token)
  session_step (SessionOp.reset now salt token password) =
      exec (confirm_password_reset lib now salt token password)
  session_step (SessionOp.change now salt user_id user old new) =
      exec (change_password lib now salt user_id user old new)
  session_step (SessionOp.revoke now user_id session_id) =
      exec (revoke_session now user_id session_id)

  unfoldable pub session_steps : List (SessionOp lib) → Db → Db
  unfolding session_step
  session_steps [] db = db
  session_steps (op ∷ ops) db = session_steps ops (session_step op db)

  step-SessionChange :
      (op : SessionOp lib) (db : Db)
      → IsKeyed db.sessions
      → SessionChange db.sessions (session_step op db).sessions
  unfolding session_step
  step-SessionChange (SessionOp.login now sid a r m user_id user) db k =
      issue-SessionChange lib settings now sid a r m user_id user db
  step-SessionChange (SessionOp.refresh now a m token) db k =
      refresh-SessionChange lib settings now a m token db k
  step-SessionChange (SessionOp.log_out now token) db k = logout-SessionChange lib now token db k
  step-SessionChange (SessionOp.reset now salt token password) db k =
      reset-SessionChange lib now salt token password db
  step-SessionChange (SessionOp.change now salt user_id user old new) db k =
      change_password-SessionChange lib now salt user_id user old new db
  step-SessionChange (SessionOp.revoke now user_id session_id) db k =
      revoke-SessionChange now user_id session_id db

  steps-IsKeyed :
      (ops : List (SessionOp lib)) (db : Db)
      → IsKeyed db.sessions
      → IsKeyed (session_steps ops db).sessions
  unfolding session_steps
  steps-IsKeyed [] db k = k
  steps-IsKeyed (op ∷ ops) db k =
      steps-IsKeyed ops (session_step op db) (SessionChange-IsKeyed (step-SessionChange op db k) k)

  steps-revoked :
      (ops : List (SessionOp lib)) (db : Db) (id : ℕ) (s : ActiveSession)
      → IsKeyed db.sessions
      → find id db.sessions ≡ some s
      → is_revoked s ≡ true
      → find id (session_steps ops db).sessions ≡ some s
  unfolding session_steps
  steps-revoked [] db id s k h r = h
  steps-revoked (op ∷ ops) db id s k h r =
      let change = step-SessionChange op db k in
      steps-revoked ops (session_step op db) id s (SessionChange-IsKeyed change k)
        (SessionChange-revoked id s change h r) r

-- Once a session is revoked, whatever session calls follow in whatever order, no column of it
-- changes any more.
pub revoked_session_is_final :
    (lib : Libraries) (settings : Settings) (ops : List (SessionOp lib)) (db : Db) (id : ℕ)
    (s : ActiveSession)
    → IsKeyed db.sessions
    → find id db.sessions ≡ some s
    → is_revoked s ≡ true
    → find id (session_steps lib settings ops db).sessions ≡ some s
revoked_session_is_final lib settings ops db id s k h r =
    steps-revoked lib settings ops db id s k h r

refresh_denied :
    (lib : Libraries) (settings : Settings) (db : Db) (id : ℕ) (s : ActiveSession) (now : ℕ)
    (jti : String) (m : ℕ) (token : lib.Token) (c : Claims)
    → find id db.sessions ≡ some s
    → is_revoked s ≡ true
    → decode_token lib now token TokenType.refresh ≡ some c
    → str_eq s.refresh_token_jti c.jti ≡ true
    → (x : Error) × (run (refresh_access_token lib settings now jti m token) db ≡ (err x, db))
unfolding refresh_access_token
refresh_denied lib settings db id s now jti m token c h r d j =
    elim (Result-cases (session_by_jti c.jti db)) [
      | inr (x, e) ↦ (x, ground arith)
      | inl (none, e) ↦ (http 401, ground arith)
      | inl (some (k, y), e) ↦
          let same =
            rows_where-single (λ x. str_eq x.refresh_token_jti c.jti) db.sessions id k s y h j
              (scalar-one-row _ _ e) in
          (http 401, ground arith)
    ]

-- After a session is revoked, whatever session calls follow, refreshing with a token of that
-- session raises and changes nothing.
pub no_refresh_after_revocation :
    (lib : Libraries) (settings : Settings) (ops : List (SessionOp lib)) (db : Db) (id : ℕ)
    (s : ActiveSession) (now : ℕ) (jti : String) (m : ℕ) (token : lib.Token) (c : Claims)
    → IsKeyed db.sessions
    → find id db.sessions ≡ some s
    → is_revoked s ≡ true
    → decode_token lib now token TokenType.refresh ≡ some c
    → str_eq s.refresh_token_jti c.jti ≡ true
    → (x : Error) × (run
          (refresh_access_token lib settings now jti m token)
          (session_steps lib settings ops db)
        ≡ (err x, session_steps lib settings ops db))
no_refresh_after_revocation lib settings ops db id s now jti m token c k h r d j =
    refresh_denied lib settings (session_steps lib settings ops db) id s now jti m token c
      (steps-revoked lib settings ops db id s k h r) r d j
