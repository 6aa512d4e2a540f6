-- ===== src/Requests/Review.antt =====
-- Creating a request, and deciding it: `create_request`, `approve_request`, `reject_request`.
use bodp_app.Prelude.{ℕ, ◌+◌, not, Option, none, some, String, if◌then◌else◌}
use bodp_app.Table.{find, insert, update}
use bodp_app.Session.{Txn, http, pure, lift, gets, or_raise, modify, commit, raise_if, ◌>>=◌, ◌>>◌}
use bodp_app.Scope.{SearchCriteria, truthy}
use bodp_app.Models.{
  User, Dataset, DatasetRequest, RequestStatus, GrantStatus, GrantDuration, is_published,
  is_pending, AuditActionType,
}
use bodp_app.Database.{Db, write_audit_log, raise_if_taken}
use bodp_app.Requests.Expiry.{Calendar, compute_expiry}

-- The dataset of a request, if it is published.
abbrev pub published_dataset : ℕ → Db → Option Dataset
published_dataset id db = elim (find id db.datasets) [
  | none ↦ none
  | some d ↦ if is_published d.status then some d else none
]

-- `matching` and `total` are what the catalog counts for the request's criteria when it is made.
unfoldable pub create_request :
    (user dataset_id new_id : ℕ) → String → Option SearchCriteria → (matching total : ℕ) → Txn Db ℕ
create_request user dataset_id new_id justification criteria matching total = do
  dataset ← or_raise (← gets (published_dataset dataset_id)) (http 404)
  raise_if_taken new_id (λ db. db.requests)
  modify λ db. record db {
    requests =
        insert new_id
          (record {
            user_id = user;
            dataset_id = dataset_id;
            justification = justification;
            search_criteria = criteria;
            matching_record_count = some matching;
            dataset_total_record_count = some total;
            dataset_version = some dataset.version;
            status = RequestStatus.pending;
            reviewed_by = none;
            reviewed_at = none;
            updated_at = none;
            admin_note = none;
          })
          db.requests;
  }
  commit
  pure new_id

-- `_get_request_with_relations`
abbrev pub get_request : ℕ → Txn Db DatasetRequest
get_request id = do or_raise (← gets (λ db. find id db.requests)) (http 404)

-- The decision on a request's row.
abbrev pub decided :
    RequestStatus → (admin now : ℕ) → Option String → DatasetRequest → DatasetRequest
decided status admin now note r = record r {
  status = status;
  reviewed_by = some admin;
  reviewed_at = some now;
  updated_at = some now;
  admin_note = note;
}

-- `if note: request.admin_note = note`
abbrev pub new_note : Option String → Option String → Option String
new_note note old = if truthy note then note else old

-- An override of the admin, or the criteria of the request.
abbrev pub granted_scope : Option SearchCriteria → DatasetRequest → Option SearchCriteria
granted_scope none r = r.search_criteria
granted_scope (some override) r = some override

abbrev pub grant_one_more : User → User
grant_one_more u = record u { datasets_granted = u.datasets_granted + 1 }

module _ (cal : Calendar) where
  unfoldable pub approve_request :
      (admin now new_id request_id : ℕ)
      → Option SearchCriteria
      → Option String
      → GrantDuration
      → Option ℕ
      → Txn Db ℕ
  approve_request admin now new_id request_id override note duration custom = do
    request ← get_request request_id
    raise_if (not (is_pending request.status)) (http 409)
    expires_at ← lift (compute_expiry cal now duration custom)
    raise_if_taken new_id (λ db. db.grants)
    modify λ db. record db {
      grants =
          insert new_id
            (record {
              user_id = request.user_id;
              dataset_id = request.dataset_id;
              request_id = some request_id;
              granted_by = some admin;
              granted_at = now;
              expires_at = expires_at;
              status = GrantStatus.active;
              scope = granted_scope override request;
            })
            db.grants;
    }
    modify λ db. record db {
      requests =
          update request_id
            (λ r. decided RequestStatus.approved admin now (new_note note r.admin_note) r)
            db.requests;
    }
    modify λ db. record db { users = update request.user_id grant_one_more db.users }
    write_audit_log admin AuditActionType.approve request_id
    commit
    pure new_id

unfoldable pub reject_request : (admin now request_id : ℕ) → String → Txn Db (Unit {0})
reject_request admin now request_id reason = do
  request ← get_request request_id
  raise_if (not (is_pending request.status)) (http 409)
  modify λ db. record db {
    requests =
        update request_id (decided RequestStatus.rejected admin now (some reason)) db.requests;
  }
  write_audit_log admin AuditActionType.reject request_id
  commit
