-- ===== src/Requests/Grants.antt =====
-- What happens to a grant after it is given: `extend_grant`, `revoke_grant`, `archive_dataset`,
-- `permanently_delete_dataset`'s first part, and the nightly `process_pending_deletions`.
use bodp_app.Prelude.{
  ℕ, ◌+◌, ◌-◌, ◌*◌, Bool, false, not, ◌&&◌, Option, none, some, String, List, [], ◌∷◌, ◌==◌, leb,
  if◌then◌else◌,
}
use bodp_app.Table.{find, update, update_where, keys_where}
use bodp_app.Session.{Txn, http, pure, lift, gets, or_raise, modify, commit, raise_if, ◌>>=◌, ◌>>◌}
use bodp_app.Models.{
  User, DatasetStatus, AccessGrant, GrantStatus, SubsetExtraction, ExtractionStatus, GrantDuration,
  is_active, is_in_flight, is_archived, AuditActionType,
}
use bodp_app.Database.{Db, write_audit_log}
use bodp_app.Requests.Expiry.{Calendar, compute_expiry}

-- `_get_grant_with_relations`
abbrev pub get_grant : ℕ → Txn Db AccessGrant
get_grant id = do or_raise (← gets (λ db. find id db.grants)) (http 404)

unfoldable pub extend_grant :
    Calendar → (admin grant_id : ℕ) → GrantDuration → Option ℕ → Txn Db (Unit {0})
extend_grant cal admin grant_id duration custom = do
  grant ← get_grant grant_id
  raise_if (not (is_active grant.status)) (http 409)
  expires_at ← lift (compute_expiry cal grant.expires_at duration custom)
  modify λ db. record db {
    grants = update grant_id (λ g. record g { expires_at = expires_at }) db.grants;
  }
  write_audit_log admin AuditActionType.dataset grant_id
  commit

abbrev pub set_revoked : AccessGrant → AccessGrant
set_revoked g = record g { status = GrantStatus.revoked }

-- `max(0, (datasets_granted or 0) - 1)`
abbrev pub grant_one_less : User → User
grant_one_less u = record u { datasets_granted = u.datasets_granted - 1 }

abbrev pub in_flight_of : ℕ → SubsetExtraction → Bool
in_flight_of grant_id e = e.grant_id == grant_id && is_in_flight e.status

abbrev pub set_failed : String → SubsetExtraction → SubsetExtraction
set_failed message e = record e { status = ExtractionStatus.failed; error_message = some message }

-- The writes that take a grant away: the grant itself, the user's counter, and the extractions
-- that are under way.
unfoldable pub take_away : String → ℕ → AccessGrant → Db → Db
take_away message grant_id grant db = record db {
  grants = update grant_id set_revoked db.grants;
  users = update grant.user_id grant_one_less db.users;
  extractions = update_where (in_flight_of grant_id) (set_failed message) db.extractions;
}

unfoldable pub revoke_grant : (admin grant_id : ℕ) → Txn Db (Unit {0})
revoke_grant admin grant_id = do
  grant ← get_grant grant_id
  raise_if (not (is_active grant.status)) (http 409)
  modify (take_away "Grant revoked before extraction completed." grant_id grant)
  write_audit_log admin AuditActionType.revoke grant_id
  commit

unfoldable pub revoke_grants : ℕ → List ℕ → Txn Db (Unit {0})
revoke_grants admin [] = pure tt
revoke_grants admin (id ∷ ids) = revoke_grant admin id >> revoke_grants admin ids

-- The grants that `list_grants_for_dataset` with the filter `active` finds.
abbrev pub active_on : ℕ → AccessGrant → Bool
active_on dataset_id g = g.dataset_id == dataset_id && is_active g.status

unfoldable pub archive_dataset : (admin dataset_id : ℕ) → Txn Db (Unit {0})
archive_dataset admin dataset_id = do
  or_raise (← gets (λ db. find dataset_id db.datasets)) (http 404)
  modify λ db. record db {
    datasets = update dataset_id (λ d. record d { status = DatasetStatus.archived }) db.datasets;
  }
  active_grants ← gets (λ db. keys_where (active_on dataset_id) db.grants)
  revoke_grants admin active_grants
  write_audit_log admin AuditActionType.dataset dataset_id
  commit

unfoldable pub unarchive_dataset : (admin dataset_id : ℕ) → Txn Db (Unit {0})
unarchive_dataset admin dataset_id = do
  dataset ← or_raise (← gets (λ db. find dataset_id db.datasets)) (http 404)
  raise_if (not (is_archived dataset.status)) (http 409)
  modify λ db. record db {
    datasets = update dataset_id (λ d. record d { status = DatasetStatus.draft }) db.datasets;
  }
  write_audit_log admin AuditActionType.dataset dataset_id
  commit

unfoldable pub set_publish_status : (admin dataset_id : ℕ) → Bool → Txn Db (Unit {0})
set_publish_status admin dataset_id published = do
  dataset ← or_raise (← gets (λ db. find dataset_id db.datasets)) (http 404)
  raise_if (is_archived dataset.status) (http 409)
  modify λ db. record db {
    datasets =
        update dataset_id
          (λ d. record d {
            status = if published then DatasetStatus.published else DatasetStatus.draft;
          })
          db.datasets;
  }
  write_audit_log admin AuditActionType.dataset dataset_id
  commit

-- `_DELETION_GRACE_PERIOD_DAYS`, in seconds
abbrev pub deletion_grace_period : ℕ
deletion_grace_period = 30 * 86400

-- `deletion_requested_at <= now - grace period`
abbrev pub is_due : ℕ → User → Bool
is_due now u = elim u.deletion_requested_at [
  | none ↦ false
  | some t ↦ leb (t + deletion_grace_period) now
]

abbrev pub active_of : ℕ → AccessGrant → Bool
active_of user_id g = g.user_id == user_id && is_active g.status

-- One grant of an account that is due: the grant is found again as it is now.
unfoldable pub drop_grant : Db → ℕ → Db
drop_grant db id = elim (find id db.grants) [
  | none ↦ db
  | some g ↦ take_away "Grant revoked: account deletion grace period elapsed." id g db
]

unfoldable pub drop_grants : List ℕ → Db → Db
drop_grants [] db = db
drop_grants (id ∷ ids) db = drop_grants ids (drop_grant db id)

unfoldable pub drop_users : List ℕ → Db → Db
drop_users [] db = db
drop_users (u ∷ us) db = drop_users us (drop_grants (keys_where (active_of u) db.grants) db)

unfoldable pub process_pending_deletions : ℕ → Txn Db (Unit {0})
process_pending_deletions now = do
  users ← gets (λ db. keys_where (is_due now) db.users)
  modify (drop_users users)
  commit
