-- ===== src/Accounts/Lockout.antt =====
-- What the lockout guarantees against guessing a password.
use bodp_app.Prelude.{
  ℕ, ◌+◌, ◌≤◌, ◌≡◌, refl, false, some, String, eq_refl, List, [], ◌∷◌, length, arith, inl, inr, ◌⊎◌,
  Bool-cases, leb,
}
use bodp_app.Session.{ok, err, http, run, exec}
use bodp_app.Models.{User, FailedLogin}
use bodp_app.Database.{Db}
use bodp_app.Accounts.Tokens.{Libraries, Settings, verify_password}
use bodp_app.Accounts.Login.{authenticate, recent_failures, user_by_email}

-- A password that is tried at an instant.
pub record Attempt : Type 0 where
  pub at : ℕ
  pub password : List ℕ

module _ (lib : Libraries) (settings : Settings) where
  -- The database after the attempts.
  unfoldable pub guess : String → List Attempt → Db → Db
  guess email [] db = db
  guess email (a ∷ rest) db =
      guess email rest (exec (authenticate lib settings a.at email a.password) db)

  -- Each attempt is in the time span, and its password does not check.
  abbrev pub AreWrong : (start now : ℕ) → User → List Attempt → Type 0
  AreWrong start now user [] = Unit
  AreWrong start now user (a ∷ rest) =
      (start ≤ a.at)
      × (a.at ≤ now)
      × (verify_password lib a.password user.password_hash ≡ false)
      × AreWrong start now user rest

-- An entry that is too old at one instant is too old afterwards.
recent_failures_later :
    (window start s : ℕ) (email : String) (fs : List FailedLogin)
    → start ≤ s
    → recent_failures window start email fs ≡ 0
    → recent_failures window s email fs ≡ 0
unfolding recent_failures
recent_failures_later window start s email [] h e = refl
recent_failures_later window start s email (f ∷ fs) h e =
    ground (arith, recent_failures_later window start s email fs h)

module _ (lib : Libraries) (settings : Settings) (email : String) (start now : ℕ) where
  -- At every instant of the span, `n` failures are recent.
  Counts : ℕ → Db → Type 0
  Counts n db =
      (s : ℕ)
      → start ≤ s
      → s ≤ now
      → recent_failures settings.failed_login_lockout_window s (lib.normalize email)
          db.failed_logins
        ≡ n

  attempt-Counts :
      (a : Attempt) (id : ℕ) (user : User) (n : ℕ) (db : Db)
      → now ≤ start + settings.failed_login_lockout_window
      → start ≤ a.at
      → a.at ≤ now
      → verify_password lib a.password user.password_hash ≡ false
      → user_by_email (lib.normalize email) db ≡ ok (some (id, user))
      → Counts n db
      → (user_by_email
            (lib.normalize email)
            (exec (authenticate lib settings a.at email a.password) db)
          ≡ ok (some (id, user)))
        × ((settings.failed_login_lockout_threshold ≤ n
              × Counts n (exec (authenticate lib settings a.at email a.password) db))
            ⊎ Counts (1 + n) (exec (authenticate lib settings a.at email a.password) db))
  unfolding Counts authenticate recent_failures
  attempt-Counts a id user n db w lo hi wrong there h =
      elim (Bool-cases (leb settings.failed_login_lockout_threshold n)) [
        | inl locked ↦ (
          ground (arith, h a.at lo hi),
          inl (ground arith, λ s p q. ground (arith, h a.at lo hi, h s p q)),
        )
        | inr fewer ↦ (
          ground (arith, h a.at lo hi),
          inr (λ s p q. ground (arith, h a.at lo hi, h s p q, eq_refl (lib.normalize email))),
        )
      ]

  guess-Counts :
      (attempts : List Attempt) (id : ℕ) (user : User) (n : ℕ) (db : Db)
      → now ≤ start + settings.failed_login_lockout_window
      → AreWrong lib settings start now user attempts
      → user_by_email (lib.normalize email) db ≡ ok (some (id, user))
      → Counts n db
      → (m : ℕ) × Counts m (guess lib settings email attempts db)
        × ((settings.failed_login_lockout_threshold ≤ m) ⊎ (n + length attempts ≤ m))
  unfolding guess
  guess-Counts [] id user n db w wrong there h = (n, h, inr (omega arith))
  guess-Counts (a ∷ attempts) id user n db w (lo, hi, bad, wrong) there h =
      let after = exec (authenticate lib settings a.at email a.password) db in
      let (there', counted) = attempt-Counts a id user n db w lo hi bad there h in
      elim counted [
        | inl (full, same) ↦
            let (m, c, reached) = guess-Counts attempts id user n after w wrong there' same in
            (m, c, elim reached [ inl p ↦ inl p | inr p ↦ inl (omega arith) ])
        | inr more ↦
            let (m, c, reached) = guess-Counts attempts id user (1 + n) after w wrong there' more in
            (m, c, elim reached [ inl p ↦ inl p | inr p ↦ inr (omega arith) ])
      ]

-- Once at least as many wrong passwords as the threshold were tried for an account within the
-- window, with no recent failure before, every login for its email raises 429 and changes
-- nothing, whatever the password.
pub lockout_after_wrong_passwords :
    (lib : Libraries) (settings : Settings) (email : String) (start now : ℕ)
    (attempts : List Attempt) (id : ℕ) (user : User) (db : Db) (password : List ℕ)
    → start ≤ now
    → now ≤ start + settings.failed_login_lockout_window
    → user_by_email (lib.normalize email) db ≡ ok (some (id, user))
    → recent_failures settings.failed_login_lockout_window start
        (lib.normalize email)
        db.failed_logins
      ≡ 0
    → AreWrong lib settings start now user attempts
    → settings.failed_login_lockout_threshold ≤ length attempts
    → run (authenticate lib settings now email password) (guess lib settings email attempts db)
      ≡ (err (http 429), guess lib settings email attempts db)
unfolding authenticate Counts
lockout_after_wrong_passwords lib settings email start now attempts id user db password le w there
      none_before wrong enough =
    let (m, c, reached) =
      guess-Counts lib settings email start now attempts id user 0 db w wrong there (λ s p q.
        recent_failures_later settings.failed_login_lockout_window start s (lib.normalize email)
          db.failed_logins p none_before) in
    let full : settings.failed_login_lockout_threshold ≤ m = elim reached [
      | inl p ↦ p
      | inr p ↦ omega arith
    ] in
    ground (arith, c now le (omega arith))
