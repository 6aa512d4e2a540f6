-- ===== src/Workflow/System.antt =====
-- The ordinary calls, in any order: handlers of any user and any admin, the worker's two steps,
-- and the nightly scan; the permanent deletion of datasets joins them in Workflow/Erasure. Each is one transaction; the worker's run of an
-- extraction is two, and other calls may come between.
use bodp_app.Prelude.{ℕ, Bool, Option, String, List, [], ◌∷◌}
use bodp_app.Session.{exec}
use bodp_app.Scope.{SearchCriteria}
use bodp_app.Models.{GrantDuration}
use bodp_app.Database.{Db}
use bodp_app.Requests.{
  Calendar, create_request, approve_request, reject_request, extend_grant, revoke_grant,
  archive_dataset, unarchive_dataset, set_publish_status, process_pending_deletions,
}
use bodp_app.Extractions.{
  Outcome, Work, begin_extraction, finish_extraction, create_extraction, download_extraction,
}

pub data Op : Type 0 where
  create : (user dataset new_id : ℕ) → String → Option SearchCriteria → (matching total : ℕ) → Op
  approve :
      (admin now new_id request : ℕ)
      → Option SearchCriteria
      → Option String
      → GrantDuration
      → Option ℕ
      → Op
  reject : (admin now request : ℕ) → String → Op
  extend : (admin grant : ℕ) → GrantDuration → Option ℕ → Op
  revoke : (admin grant : ℕ) → Op
  archive unarchive : (admin dataset : ℕ) → Op
  publish : (admin dataset : ℕ) → Bool → Op
  scan_deletions : ℕ → Op
  extract : (user now new_id grant : ℕ) → SearchCriteria → (format task : String) → Op
  begin : ℕ → Option String → Op
  finish : (now id : ℕ) → Outcome → Op
  download : (user id : ℕ) → Op

module _ (cal : Calendar) (work : Work) (threshold : ℕ) where
  -- The database after one call.
  unfoldable pub step : Op → Db → Db
  step (Op.create user dataset new_id text criteria matching total) =
      exec (create_request user dataset new_id text criteria matching total)
  step (Op.approve admin now new_id request override note duration custom) =
      exec (approve_request cal admin now new_id request override note duration custom)
  step (Op.reject admin now request reason) = exec (reject_request admin now request reason)
  step (Op.extend admin grant duration custom) = exec (extend_grant cal admin grant duration custom)
  step (Op.revoke admin grant) = exec (revoke_grant admin grant)
  step (Op.archive admin dataset) = exec (archive_dataset admin dataset)
  step (Op.unarchive admin dataset) = exec (unarchive_dataset admin dataset)
  step (Op.publish admin dataset published) = exec (set_publish_status admin dataset published)
  step (Op.scan_deletions now) = exec (process_pending_deletions now)
  step (Op.extract user now new_id grant scope format task) =
      exec (create_extraction work threshold user now new_id grant scope format task)
  step (Op.begin id task) = exec (begin_extraction id task)
  step (Op.finish now id outcome) = exec (finish_extraction now id outcome)
  step (Op.download user id) = exec (download_extraction user id)

  -- The database after a sequence of calls.
  unfoldable pub steps : List Op → Db → Db
  unfolding step
  steps [] db = db
  steps (op ∷ ops) db = steps ops (step op db)
