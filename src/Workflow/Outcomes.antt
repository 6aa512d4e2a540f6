-- ===== src/Workflow/Outcomes.antt =====
-- Single calls in full: what a decision, an extension, a revocation and a download do.
use mathlib.Core.Option
use bodp_app.Prelude.{ℕ, ◌<◌, ◌≡◌, ◌≢◌, refl, inl, inr, Option, some, arith, if◌then◌else◌}
use bodp_app.Table.{find, find-update, find-update_where}
use bodp_app.Session.{Error, ok, err, exec, reply, Result-cases}
use bodp_app.Models.{AccessGrant, GrantStatus, GrantDuration}
use bodp_app.Database.{Db}
use bodp_app.Requests.{
  Calendar, compute_expiry, extend_grant, revoke_grant, take_away, set_revoked, set_failed,
  grant_one_less, in_flight_of,
}

-- Every duration but a custom one ends after the instant that it starts from.
pub compute_expiry_later :
    (cal : Calendar) (from : ℕ) (duration : GrantDuration) (custom : Option ℕ) (t : ℕ)
    → duration ≢ GrantDuration.custom
    → compute_expiry cal from duration custom ≡ ok t
    → from < t
unfolding compute_expiry
compute_expiry_later cal from GrantDuration.custom c t n e = absurd (n refl)
compute_expiry_later cal from GrantDuration.five_days c t n e =
    ground (arith, cal.add_days_grows from 5)
compute_expiry_later cal from GrantDuration.ten_days c t n e =
    ground (arith, cal.add_days_grows from 10)
compute_expiry_later cal from GrantDuration.one_month c t n e =
    ground (arith, cal.add_months_grows from 1)
compute_expiry_later cal from GrantDuration.two_months c t n e =
    ground (arith, cal.add_months_grows from 2)
compute_expiry_later cal from GrantDuration.six_months c t n e =
    ground (arith, cal.add_months_grows from 6)
compute_expiry_later cal from GrantDuration.one_year c t n e =
    ground (arith, cal.add_years_grows from 1)

expiry_given :
    (cal : Calendar) (from : ℕ) (duration : GrantDuration) (custom : Option ℕ) (x : Error)
    → duration ≢ GrantDuration.custom
    → compute_expiry cal from duration custom ≡ err x
    → ⊥
unfolding compute_expiry
expiry_given cal from GrantDuration.custom c x n e = n refl
expiry_given cal from _ c x n e = cc

-- Extending an active grant by a duration that is not custom succeeds, moves its end to a later
-- instant than it was, and changes nothing else of the grant.
pub extension_is_later :
    (cal : Calendar) (admin id : ℕ) (duration : GrantDuration) (custom : Option ℕ) (g : AccessGrant)
    (db : Db)
    → duration ≢ GrantDuration.custom
    → find id db.grants ≡ some g
    → g.status ≡ GrantStatus.active
    → (t : ℕ) × (g.expires_at < t)
      × (reply (extend_grant cal admin id duration custom) db ≡ ok tt)
      × (find id (exec (extend_grant cal admin id duration custom) db).grants
          ≡ some (record g { expires_at = t }))
unfolding extend_grant
extension_is_later cal admin id duration custom g db n h active =
    elim (Result-cases (compute_expiry cal g.expires_at duration custom)) [
      | inl (t, e) ↦ (
        t,
        compute_expiry_later cal g.expires_at duration custom t n e,
        ground arith,
        ground (arith, find-update id id (λ x. record x { expires_at = t }) db.grants),
      )
      | inr (x, e) ↦ absurd (expiry_given cal g.expires_at duration custom x n e)
    ]

-- Revoking an active grant succeeds. Afterwards the grant is revoked and otherwise as it was, the
-- counter of its user is one less (not below 0), and no extraction under it is queued or running:
-- each such extraction has failed, and every other extraction is as it was.
pub revocation_effect :
    (admin id : ℕ) (g : AccessGrant) (db : Db) (k : ℕ)
    → find id db.grants ≡ some g
    → g.status ≡ GrantStatus.active
    → (reply (revoke_grant admin id) db ≡ ok tt)
      × (find id (exec (revoke_grant admin id) db).grants ≡ some (set_revoked g))
      × (find g.user_id (exec (revoke_grant admin id) db).users
          ≡ Option.map grant_one_less (find g.user_id db.users))
      × (find k (exec (revoke_grant admin id) db).extractions
          ≡ Option.map
              (λ e.
                if in_flight_of id e
                then set_failed "Grant revoked before extraction completed." e
                else e)
              (find k db.extractions))
unfolding revoke_grant take_away
revocation_effect admin id g db k h active = (
  ground arith,
  ground (arith, find-update id id set_revoked db.grants),
  ground (arith, find-update g.user_id g.user_id grant_one_less db.users),
  ground (
    arith,
    find-update_where k (in_flight_of id) (set_failed "Grant revoked before extraction completed.")
        db.extractions,
  ),
)
