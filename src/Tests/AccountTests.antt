-- ===== src/Tests/AccountTests.antt =====
-- Logins, sessions, tokens and roles on a small database.
use bodp_app.Prelude.{
  ℕ, ◌≡◌, refl, true, false, ap, ◌<◌, some, none, List, [], ◌∷◌, arith, str_eq, eq_refl, ltb,
  if◌then◌else◌, String,
}
use bodp_app.Table.{find, rows_where, count_where, IsKeyed}
use bodp_app.Session.{Error, ok, err, http, run, exec, reply, scalar_one_or_none}
use bodp_app.Models.{User, UserRoleEnum, Role, UserRole, ActiveSession}
use bodp_app.Database.{Db}
use bodp_app.Accounts.{
  Libraries, Settings, Claims, TokenType, value, decode_token, verify_password, hash_password,
  prefix, authenticate, user_by_email, recent_failures, is_locked_out, refresh_access_token,
  confirm_password_reset,
}
use bodp_app.Accounts.Lockout.{Attempt, guess, lockout_after_wrong_passwords}
use bodp_app.Accounts.Revoked.{
  SessionOp, session_steps, revoked_session_is_final, no_refresh_after_revocation,
}
use bodp_app.Accounts.Credentials.{login_is_earned, reset_then_login}
use bodp_app.Accounts.RoleSync.{IsSynced}
use bodp_app.Accounts.Access.{RoleOp, role_steps, role_steps-IsSynced}
use bodp_app.Tests.Fixtures.{ada, db}

decode_encode :
    (now : ℕ) (c : Claims) → now < c.exp → (if ltb now c.exp then some c else none) ≡ some c
decode_encode now c h = ground arith

-- One hash for all passwords, and tokens that are their claims.
abbrev libraries : Libraries
libraries = record {
  hashpw = λ p salt. "hash";
  checkpw = λ p h. some (str_eq h "hash");
  checkpw_hashpw = λ p salt. ap some (eq_refl "hash");
  Token = Claims;
  jwt_encode = λ c. c;
  jwt_decode = λ now c. if ltb now c.exp then some c else none;
  jwt_decode_encode = decode_encode;
  normalize = λ s. s;
}

abbrev settings : Settings
settings = record {
  access_token_expire = 900;
  refresh_token_expire = 1000000;
  email_verification_token_expire = 3600;
  password_reset_token_expire = 3600;
  invite_token_expire = 3600;
  failed_login_lockout_window = 900;
  failed_login_lockout_threshold = 2;
}

abbrev claims : TokenType → Claims
claims kind = record {
  sub = some 1;
  token_type = value kind;
  exp = 5000;
  jti = "j1";
  role = none;
  sid = some 30;
}

abbrev ended : ActiveSession
ended = record { user_id = 1; refresh_token_jti = "j1"; last_active_at = 5; revoked_at = some 6 }

-- Ada holds the roles 20, 21 and 22; role 23 is no system role.
abbrev admin : User
admin = record ada { role = UserRoleEnum.admin }

abbrev role : String → Role
role name = record { name = name; permissions = [] }

abbrev holds : ℕ → UserRole
holds id = record { user_id = 1; role_id = id }

abbrev account_db : Db
account_db = record db {
  users = (1, admin) ∷ [];
  roles =
      (20, role "Reviewer")
      ∷ (21, role "Content Editor")
      ∷ (22, role "Data Manager")
      ∷ (23, role "Curator")
      ∷ [];
  user_roles = (40, holds 20) ∷ (41, holds 21) ∷ (42, holds 22) ∷ [];
  sessions = (30, ended) ∷ [];
}

abbrev guessed : User
guessed = record ada { password_hash = "other" }

abbrev guessed_db : Db
guessed_db = record db { users = (1, guessed) ∷ [] }

abbrev guesses : List Attempt
guesses =
    record { at = 100; password = 1 ∷ [] }
    ∷ record { at = 110; password = 2 ∷ [] }
    ∷ record { at = 120; password = 3 ∷ [] }
    ∷ []

lockout_after_wrong_passwords_example :
    run
      (authenticate libraries settings 200 "ada@example.org" (9 ∷ []))
      (guess libraries settings "ada@example.org" guesses guessed_db)
    ≡ (err (http 429), guess libraries settings "ada@example.org" guesses guessed_db)
unfolding rows_where scalar_one_or_none recent_failures verify_password prefix
lockout_after_wrong_passwords_example =
    lockout_after_wrong_passwords libraries settings "ada@example.org" 100 200 guesses 1 guessed
      guessed_db (9 ∷ []) (omega arith) (omega arith) refl refl
      ((
        omega arith,
        omega arith,
        refl,
        (omega arith, omega arith, refl, (omega arith, omega arith, refl, tt)),
      ))
      (omega arith)

abbrev session_day : List (SessionOp libraries)
session_day =
    SessionOp.login 10 31 "a2" "r2" 60 1 ada
    ∷ SessionOp.refresh 20 "a3" 60 (claims TokenType.refresh)
    ∷ SessionOp.log_out 30 (claims TokenType.refresh)
    ∷ []

sessions-IsKeyed : IsKeyed account_db.sessions
unfolding find
sessions-IsKeyed = (refl, tt)

revoked_session_is_final_example :
    find 30 (session_steps libraries settings session_day account_db).sessions ≡ some ended
unfolding find
revoked_session_is_final_example =
    revoked_session_is_final libraries settings session_day account_db 30 ended sessions-IsKeyed
      refl refl

no_refresh_after_revocation_example :
    (x : Error) × (run
        (refresh_access_token libraries settings 40 "a4" 60 (claims TokenType.refresh))
        (session_steps libraries settings session_day account_db)
      ≡ (err x, session_steps libraries settings session_day account_db))
unfolding find decode_token
no_refresh_after_revocation_example =
    no_refresh_after_revocation libraries settings session_day account_db 30 ended 40 "a4" 60
      (claims TokenType.refresh) (claims TokenType.refresh) sessions-IsKeyed refl refl refl refl

login_is_earned_example :
    (is_locked_out settings 50 "ada@example.org" db ≡ false)
    × (user_by_email "ada@example.org" db ≡ ok (some (1, ada)))
    × (verify_password libraries (1 ∷ []) "hash" ≡ true)
    × (false ≡ false)
    × (true ≡ true)
    × (exec (authenticate libraries settings 50 "ada@example.org" (1 ∷ [])) db ≡ db)
unfolding authenticate rows_where scalar_one_or_none recent_failures verify_password prefix
login_is_earned_example =
    login_is_earned libraries settings 50 "ada@example.org" (1 ∷ []) db 1 ada refl

reset_then_login_example :
    reply (authenticate libraries settings 60 "ada@example.org" (7 ∷ [])) (
      exec
        (confirm_password_reset libraries 40 5 (claims TokenType.password_reset) (7 ∷ []))
        guessed_db)
    ≡ ok (1, record guessed { password_hash = hash_password libraries 5 (7 ∷ []) })
unfolding find decode_token rows_where scalar_one_or_none recent_failures
reset_then_login_example =
    reset_then_login libraries settings 40 60 5 (claims TokenType.password_reset) "ada@example.org"
      (7 ∷ []) (claims TokenType.password_reset) 1 guessed guessed_db (refl, tt) refl refl refl refl
      refl refl

account_db-IsSynced : IsSynced account_db
unfolding find count_where
account_db-IsSynced = record { keyed = (refl, (refl, (refl, tt))); at = λ u user h. ground arith }

role_steps-IsSynced_example : IsSynced (
    role_steps
      (RoleOp.unassign 2 1 20
        ∷ RoleOp.assign 2 43 1 23
        ∷ RoleOp.anonymize 2 50 1 "gone" "hash"
        ∷ [])
      account_db)
role_steps-IsSynced_example =
    role_steps-IsSynced
      (RoleOp.unassign 2 1 20
        ∷ RoleOp.assign 2 43 1 23
        ∷ RoleOp.anonymize 2 50 1 "gone" "hash"
        ∷ [])
      account_db account_db-IsSynced

abbrev granting_db : Db
granting_db = record account_db {
  roles = (20, record { name = "Reviewer"; permissions = "Approve Requests" ∷ [] }) ∷ [];
}
