-- ===== src/Requests/Expiry.antt =====
-- `compute_expiry`: when a grant ends. Instants are seconds.
use bodp_app.Prelude.{ℕ, ◌<◌, Option, none, some}
use bodp_app.Session.{Result, ok, err, crash}
use bodp_app.Models.{GrantDuration}

-- `dateutil.relativedelta` added to an instant, and the first instant of a date. A positive
-- amount moves an instant forward.
pub record Calendar : Type 0 where
  pub add_days : ℕ → ℕ → ℕ
  pub add_months : ℕ → ℕ → ℕ
  pub add_years : ℕ → ℕ → ℕ
  pub midnight : ℕ → ℕ
  pub add_days_grows : (t n : ℕ) → 0 < n → t < add_days t n
  pub add_months_grows : (t n : ℕ) → 0 < n → t < add_months t n
  pub add_years_grows : (t n : ℕ) → 0 < n → t < add_years t n

-- The assertion that a custom duration has a date is the crash.
unfoldable pub compute_expiry : Calendar → ℕ → GrantDuration → Option ℕ → Result ℕ
compute_expiry cal from GrantDuration.custom none = err crash
compute_expiry cal from GrantDuration.custom (some date) = ok (cal.midnight date)
compute_expiry cal from GrantDuration.five_days date = ok (cal.add_days from 5)
compute_expiry cal from GrantDuration.ten_days date = ok (cal.add_days from 10)
compute_expiry cal from GrantDuration.one_month date = ok (cal.add_months from 1)
compute_expiry cal from GrantDuration.two_months date = ok (cal.add_months from 2)
compute_expiry cal from GrantDuration.six_months date = ok (cal.add_months from 6)
compute_expiry cal from GrantDuration.one_year date = ok (cal.add_years from 1)
