-- ===== src/Accounts/Login.antt =====
-- `AuthService.authenticate` (backend/app/services/auth_service.py): login with its lockout.
use bodp_app.Prelude.{
  ℕ, ◌+◌, Bool, not, ◌&&◌, Option, none, some, String, str_eq, List, [], ◌∷◌, leb, is_some,
  if◌then◌else◌,
}
use bodp_app.Table.{rows_where}
use bodp_app.Session.{
  Txn, Result, http, pure, raise, lift, gets, modify, commit, raise_if, scalar_one_or_none, ◌>>=◌,
  ◌>>◌,
}
use bodp_app.Models.{User, FailedLogin, is_suspended}
use bodp_app.Database.{Db}
use bodp_app.Accounts.Tokens.{Libraries, Settings, verify_password}

-- `select(User).where(User.email == email)`
abbrev pub user_by_email : String → Db → Result (Option (ℕ × User))
user_by_email email db = scalar_one_or_none (rows_where (λ u. str_eq u.email email) db.users)

-- `email_attempted == email and created_at >= now - window`
abbrev pub is_recent : (window now : ℕ) → String → FailedLogin → Bool
is_recent window now email f = str_eq f.email_attempted email && leb now (f.created_at + window)

unfoldable pub recent_failures : (window now : ℕ) → String → List FailedLogin → ℕ
recent_failures window now email [] = 0
recent_failures window now email (f ∷ fs) =
    (if is_recent window now email f then 1 else 0) + recent_failures window now email fs

abbrev pub is_locked_out : Settings → (now : ℕ) → String → Db → Bool
is_locked_out settings now email db =
    leb settings.failed_login_lockout_threshold
      (recent_failures settings.failed_login_lockout_window now email db.failed_logins)

abbrev pub record_failed_login : (now : ℕ) → (email reason : String) → Txn Db (Unit {0})
record_failed_login now email reason =
    modify (λ db. record db {
      failed_logins =
          record { email_attempted = email; reason = reason; created_at = now } ∷ db.failed_logins;
    })
    >> commit

-- The failure is recorded, and the call raises.
abbrev pub reject_login :
    {A : Type 0} → (now : ℕ) → (email reason : String) → (status : ℕ) → Txn Db A
reject_login now email reason status = record_failed_login now email reason >> raise (http status)

-- The checks on the account that has the email.
abbrev pub admit : Libraries → (now : ℕ) → String → List ℕ → Option (ℕ × User) → Txn Db (ℕ × User)
admit lib now email password none = reject_login now email "invalid_credentials" 401
admit lib now email password (some (id, user)) =
    if not (verify_password lib password user.password_hash)
    then reject_login now email "invalid_credentials" 401
    else if is_suspended user.status
    then reject_login now email "account_suspended" 403
    else if not (is_some user.email_verified_at)
    then raise (http 403)
    else pure (id, user)

unfoldable pub authenticate : Libraries → Settings → (now : ℕ) → String → List ℕ → Txn Db (ℕ × User)
authenticate lib settings now email password = do
  raise_if (← gets (is_locked_out settings now (lib.normalize email))) (http 429)
  user ← lift (← gets (user_by_email (lib.normalize email)))
  admit lib now (lib.normalize email) password user
