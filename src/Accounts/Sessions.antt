-- ===== src/Accounts/Sessions.antt =====
-- Sessions: the rest of `AuthService`, `revoke_session` (services/security_service.py) and the
-- bearer check of each request (core/deps.py).
use bodp_app.Prelude.{
  ℕ, Bool, not, ◌&&◌, Option, none, some, String, str_eq, List, is_some, ◌==◌, if◌then◌else◌,
}
use bodp_app.Table.{find, insert, update, update_where, rows_where}
use bodp_app.Session.{
  Txn, Result, ok, err, http, crash, pure, raise, lift, gets, or_raise, modify, commit, raise_if,
  scalar_one_or_none, ◌>>=◌, ◌>>◌,
}
use bodp_app.Models.{User, ActiveSession, is_revoked, is_suspended}
use bodp_app.Database.{Db, raise_if_taken}
use bodp_app.Accounts.Tokens.{
  TokenType, Libraries, Settings, Claims, decode_token, hash_password, verify_password,
  create_access_token, create_refresh_token,
}

-- `select(ActiveSession).where(refresh_token_jti == jti)`
abbrev pub session_by_jti : String → Db → Result (Option (ℕ × ActiveSession))
session_by_jti jti db =
    scalar_one_or_none (rows_where (λ s. str_eq s.refresh_token_jti jti) db.sessions)

abbrev pub revoke_at : ℕ → ActiveSession → ActiveSession
revoke_at now s = record s { revoked_at = some now }

abbrev pub is_open_of : ℕ → ActiveSession → Bool
is_open_of user_id s = s.user_id == user_id && not (is_revoked s)

-- The sessions of an account that are not revoked become so.
unfoldable pub revoke_open : (user_id now : ℕ) → Db → Db
revoke_open user_id now db = record db {
  sessions = update_where (is_open_of user_id) (revoke_at now) db.sessions;
}

abbrev pub set_last_active : (session_id now : ℕ) → Db → Db
set_last_active session_id now db = record db {
  sessions = update session_id (λ s. record s { last_active_at = now }) db.sessions;
}

abbrev pub set_password_hash : (user_id : ℕ) → String → Db → Db
set_password_hash user_id hash db = record db {
  users = update user_id (λ u. record u { password_hash = hash }) db.users;
}

abbrev pub set_verified : (user_id now : ℕ) → Db → Db
set_verified user_id now db = record db {
  users = update user_id (λ u. record u { email_verified_at = some now }) db.users;
}

-- `_revoke_all_sessions`
abbrev pub revoke_all_sessions : (user_id now : ℕ) → Txn Db (Unit {0})
revoke_all_sessions user_id now = modify (revoke_open user_id now) >> commit

-- The account that a token's `sub` names, with the key.
abbrev pub account_of : Claims → Txn Db (ℕ × User)
account_of payload = do
  user_id ← or_raise payload.sub crash
  user ← or_raise (← gets (λ db. find user_id db.users)) (http 404)
  pure (user_id, user)

-- An account that is verified already is left alone.
abbrev pub mark_verified : (now user_id : ℕ) → User → Txn Db (Unit {0})
mark_verified now user_id user =
    if is_some user.email_verified_at
    then pure tt
    else (modify (set_verified user_id now) >> commit)

-- `session is None or session.is_revoked`
abbrev pub live_session : Option (ℕ × ActiveSession) → Txn Db ℕ
live_session none = raise (http 401)
live_session (some (id, s)) = if is_revoked s then raise (http 401) else pure id

-- `user is None or user.status == SUSPENDED`
abbrev pub available : Option User → Txn Db User
available none = raise (http 403)
available (some u) = if is_suspended u.status then raise (http 403) else pure u

-- `if session is not None and not session.is_revoked: session.revoked_at = now; commit`
abbrev pub end_session : (now : ℕ) → Option (ℕ × ActiveSession) → Txn Db (Unit {0})
end_session now none = pure tt
end_session now (some (id, s)) =
    if is_revoked s
    then pure tt
    else (modify (λ db. record db { sessions = update id (revoke_at now) db.sessions }) >> commit)

module _ (lib : Libraries) (settings : Settings) where
  unfoldable pub issue_tokens :
      (now session_id : ℕ)
      → (access_jti refresh_jti : String) → (expire_minutes user_id : ℕ) → User
      → Txn Db (lib.Token × lib.Token)
  issue_tokens now session_id access_jti refresh_jti expire_minutes user_id user = do
    let access_token =
        create_access_token lib settings now access_jti user_id user.role session_id expire_minutes
    let refresh_token = create_refresh_token lib settings now refresh_jti user_id session_id
    payload ← or_raise (decode_token lib now refresh_token TokenType.refresh) crash
    raise_if_taken session_id (λ db. db.sessions)
    existing ← lift (← gets (session_by_jti payload.jti))
    raise_if (is_some existing) crash
    modify λ db. record db {
      sessions =
          insert session_id
            (record {
              user_id = user_id;
              refresh_token_jti = payload.jti;
              last_active_at = now;
              revoked_at = none;
            })
            db.sessions;
    }
    commit
    pure (access_token, refresh_token)

  unfoldable pub refresh_access_token :
      (now : ℕ)
      → (access_jti : String) → (expire_minutes : ℕ) → lib.Token
      → Txn Db (lib.Token × lib.Token)
  refresh_access_token now access_jti expire_minutes refresh_token = do
    payload ← or_raise (decode_token lib now refresh_token TokenType.refresh) (http 401)
    session_id ← live_session (← lift (← gets (session_by_jti payload.jti)))
    user_id ← or_raise payload.sub crash
    user ← available (← gets (λ db. find user_id db.users))
    modify (set_last_active session_id now)
    commit
    sid ← or_raise payload.sid crash
    pure (
      create_access_token lib settings now access_jti user_id user.role sid expire_minutes,
      refresh_token,
    )

module _ (lib : Libraries) where
  -- A token that does not decode is ignored.
  unfoldable pub logout : (now : ℕ) → lib.Token → Txn Db (Unit {0})
  logout now refresh_token = elim (decode_token lib now refresh_token TokenType.refresh) [
    | none ↦ pure tt
    | some payload ↦ do
      session ← lift (← gets (session_by_jti payload.jti))
      end_session now session
  ]

  unfoldable pub verify_email : (now : ℕ) → lib.Token → Txn Db (Unit {0})
  verify_email now token = do
    payload ← or_raise (decode_token lib now token TokenType.email_verify) (http 400)
    account ← account_of payload
    mark_verified now account.0 account.1

  unfoldable pub confirm_password_reset : (now salt : ℕ) → lib.Token → List ℕ → Txn Db (Unit {0})
  confirm_password_reset now salt token new_password = do
    payload ← or_raise (decode_token lib now token TokenType.password_reset) (http 400)
    account ← account_of payload
    modify (set_password_hash account.0 (hash_password lib salt new_password))
    commit
    revoke_all_sessions account.0 now

  unfoldable pub confirm_invite : (now salt : ℕ) → lib.Token → List ℕ → Txn Db (Unit {0})
  confirm_invite now salt token new_password = do
    payload ← or_raise (decode_token lib now token TokenType.invite) (http 400)
    account ← account_of payload
    modify (set_password_hash account.0 (hash_password lib salt new_password))
    modify λ db. if is_some account.1.email_verified_at then db else set_verified account.0 now db
    commit

  unfoldable pub change_password :
      (now salt user_id : ℕ) → User → (current_password new_password : List ℕ) → Txn Db (Unit {0})
  change_password now salt user_id user current_password new_password = do
    raise_if (not (verify_password lib current_password user.password_hash)) (http 400)
    modify (set_password_hash user_id (hash_password lib salt new_password))
    commit
    revoke_all_sessions user_id now

  -- The bearer check: the account of an access token, and the session that the token names.
  unfoldable pub get_current_user : (now : ℕ) → Option lib.Token → Db → Result (ℕ × User)
  get_current_user now none db = err (http 401)
  get_current_user now (some token) db = elim (decode_token lib now token TokenType.access) [
    | none ↦ err (http 401)
    | some payload ↦ elim payload.sub [
      | none ↦ err (http 401)
      | some user_id ↦ elim (find user_id db.users) [
        | none ↦ err (http 401)
        | some user ↦
            if is_suspended user.status
            then err (http 403)
            else if not (is_some user.email_verified_at)
            then err (http 403)
            else ok (user_id, user)
      ]
    ]
  ]

-- A user ends one of the user's own sessions.
unfoldable pub revoke_session : (now user_id session_id : ℕ) → Txn Db (Unit {0})
revoke_session now user_id session_id = do
  session ← or_raise (← gets (λ db. find session_id db.sessions)) (http 404)
  raise_if (not (session.user_id == user_id)) (http 404)
  end_session now (some (session_id, session))
