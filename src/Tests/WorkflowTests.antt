-- ===== src/Tests/WorkflowTests.antt =====
-- Requests, grants, extractions and downloads on the small database.
use bodp_app.Prelude.{Bool, All, ◌==◌, ℕ, ◌≡◌, refl, none, List, [], ◌∷◌, arith}
use bodp_app.Table.{
  Table, delete, delete_where, keys_where, rows_of, find, update, update_where, insert, IsKeyed,
  count_where,
}
use bodp_app.Session.{err, http, reply}
use bodp_app.Models.{Dataset, GrantDuration, ExtractionStatus}
use bodp_app.Database.{Db}
use bodp_app.Datasets.{permanently_delete_dataset, cascade}
use bodp_app.Requests.{revoke_grants, revoke_grant, take_away, approve_request, compute_expiry}
use bodp_app.Extractions.{download_extraction, failure, finish_extraction}
use bodp_app.Workflow.{Op, step, steps}
use bodp_app.Workflow.Erasure.{Call, call, calls, Route, Respects, calls-Route}
use bodp_app.Workflow.Counters.{IsCounted, steps-IsCounted}
use bodp_app.Workflow.SingleGrant.{IsGrantedOnce, steps-IsGrantedOnce}
use bodp_app.Workflow.Revocation.{StaysClosed, downloads_of, revoked_grant_is_final}
use bodp_app.Workflow.Downloads.{no_download_after_revocation}
use bodp_app.Tests.Fixtures.{calendar, work, extraction, dataset, db, revoked_grant, revoked_db}

-- Approve request 12, download extraction 3, revoke grant 7, and let the worker finish.
abbrev day : List Op
day =
    Op.approve 2 200 8 12 none none GrantDuration.ten_days none
    ∷ Op.download 1 3
    ∷ Op.revoke 2 7
    ∷ Op.download 1 3
    ∷ Op.finish 210 4 (failure "stopped")
    ∷ []

day-downloads : downloads_of 7 (steps calendar work 1000 day db).download_logs ≡ 1
unfolding steps approve_request download_extraction revoke_grant take_away finish_extraction find
    update update_where insert compute_expiry
day-downloads = refl

db-IsKeyed : IsKeyed db.grants
unfolding find
db-IsKeyed = (refl, tt)

db-IsCounted : IsCounted db
unfolding find count_where
db-IsCounted = record { at = λ u user h. ground arith }

db-IsGrantedOnce : IsGrantedOnce db
unfolding find count_where
db-IsGrantedOnce = record { at = λ id. ground arith }

-- The calls of the day, and the deletion of another dataset.
abbrev with_deletion : List Call
with_deletion =
    Call.ordinary (Op.revoke 2 7) ∷ Call.delete_dataset 2 99 ∷ Call.ordinary (Op.download 1 3) ∷ []

abbrev two_datasets : Table Dataset
two_datasets = insert 99 dataset db.datasets

abbrev may_go : ℕ → Bool
may_go dataset = dataset == 99

with_deletion-Respects : All (Respects may_go) with_deletion
unfolding All
with_deletion-Respects = (tt, (refl, (tt, tt)))

abbrev wide_db : Db
wide_db = record db { datasets = two_datasets }

abbrev wide_revoked_db : Db
wide_revoked_db = record revoked_db { datasets = two_datasets }

-- The deletion goes through, and leaves dataset 5.
with_deletion_run : (calls calendar work 1000 with_deletion wide_db).datasets ≡ db.datasets
unfolding calls call step permanently_delete_dataset cascade revoke_grant take_away
    download_extraction find update update_where insert delete revoke_grants keys_where rows_of
    delete_where
with_deletion_run = refl

calls-Route_example : Route may_go wide_db (calls calendar work 1000 with_deletion wide_db)
calls-Route_example =
    calls-Route calendar work 1000 may_go with_deletion wide_db with_deletion-Respects db-IsKeyed

steps-IsCounted_example : IsCounted (steps calendar work 1000 day db)
steps-IsCounted_example = steps-IsCounted calendar work 1000 day db db-IsKeyed db-IsCounted

steps-IsGrantedOnce_example : IsGrantedOnce (steps calendar work 1000 day db)
steps-IsGrantedOnce_example =
    steps-IsGrantedOnce calendar work 1000 day db db-IsKeyed db-IsGrantedOnce

revoked_db-IsKeyed : IsKeyed revoked_db.grants
unfolding find
revoked_db-IsKeyed = (refl, tt)

revoked_grant_is_final_example :
    StaysClosed 7 revoked_grant 0 (calls calendar work 1000 with_deletion wide_revoked_db)
unfolding find
revoked_grant_is_final_example =
    revoked_grant_is_final calendar work 1000 may_go with_deletion wide_revoked_db 7 revoked_grant
      with_deletion-Respects refl revoked_db-IsKeyed refl refl

no_download_after_revocation_example :
    (c : ℕ) × (reply
        (download_extraction 1 3)
        (steps calendar work 1000 (Op.download 1 3 ∷ []) revoked_db)
      ≡ err (http c))
unfolding find steps download_extraction
no_download_after_revocation_example =
    no_download_after_revocation calendar work 1000 (Op.download 1 3 ∷ []) revoked_db 1 3
      revoked_grant (extraction ExtractionStatus.complete) revoked_db-IsKeyed refl refl refl
