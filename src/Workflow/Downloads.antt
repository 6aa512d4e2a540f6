-- ===== src/Workflow/Downloads.antt =====
-- When a download succeeds, and what the worker does with an extraction whose grant was revoked.
use bodp_app.Prelude.{
  ℕ, ◌≡◌, refl, inl, inr, Option, some, String, arith, ◌==◌, Bool-cases, List, ◌∷◌, if◌then◌else◌,
}
use bodp_app.Table.{find, update, find-update, IsKeyed}
use bodp_app.Session.{ok, err, http, run, exec, reply}
use bodp_app.Models.{
  AccessGrant, GrantStatus, SubsetExtraction, ExtractionStatus, StoredOutput, Dataset, DatasetFile,
  is_active, is_complete,
}
use bodp_app.Database.{Db}
use bodp_app.Requests.{Calendar}
use bodp_app.Extractions.{
  Work, stored, process_extraction, begin_extraction, finish_extraction, set_processing,
  set_outcome, download_extraction, extraction_outcome, files_of,
}
use bodp_app.Workflow.System.{Op, steps}
use bodp_app.Workflow.Revocation.{steps-IsClosed}

-- A user gets the output of an extraction, and one entry in the download log, exactly where the
-- extraction is complete and its grant is the user's and active. The end of the grant's term is
-- not among the conditions.
pub download_when_ready :
    (user id : ℕ) (e : SubsetExtraction) (g : AccessGrant) (db : Db)
    → find id db.extractions ≡ some e
    → find e.grant_id db.grants ≡ some g
    → run (download_extraction user id) db ≡ (
        if g.user_id == user
        then if is_complete e.status
          then if is_active g.status
            then (
              ok e.output,
              record db {
                download_logs =
                    record { grant_id = e.grant_id; user_id = user; subset_extraction_id = some id }
                    ∷ db.download_logs;
              },
            )
            else (err (http 409), db)
          else (err (http 409), db)
        else (err (http 404), db))
unfolding download_extraction
download_when_ready user id e g db h k = ground arith

download_denied :
    (user id : ℕ) (e : SubsetExtraction) (g : AccessGrant) (db : Db)
    → find id db.extractions ≡ some e
    → find e.grant_id db.grants ≡ some g
    → g.status ≡ GrantStatus.revoked
    → (c : ℕ) × (reply (download_extraction user id) db ≡ err (http c))
unfolding download_extraction
download_denied user id e g db h k revoked = elim (Bool-cases (g.user_id == user)) [
  | inr other ↦ (404, ground arith)
  | inl own ↦ (409, ground arith)
]

-- After a grant is revoked, whatever ordinary calls (all but permanent deletions) follow, a download
-- of an extraction under it by anyone raises an HTTP error.
pub no_download_after_revocation :
    (cal : Calendar) (work : Work) (threshold : ℕ) (ops : List Op) (db : Db) (user id : ℕ)
    (g : AccessGrant) (e : SubsetExtraction)
    → IsKeyed db.grants
    → find e.grant_id db.grants ≡ some g
    → g.status ≡ GrantStatus.revoked
    → find id (steps cal work threshold ops db).extractions ≡ some e
    → (c : ℕ) × (reply (download_extraction user id) (steps cal work threshold ops db)
        ≡ err (http c))
no_download_after_revocation cal work threshold ops db user id g e keyed h revoked there =
    let closed = steps-IsClosed cal work threshold ops db e.grant_id g keyed h revoked in
    download_denied user id e g (steps cal work threshold ops db) there closed.grant revoked

-- The worker does not look at the status that it finds: an extraction that failed because its
-- grant was revoked is run all the same when the worker comes to it, and where the dataset has
-- files that can be read it ends as complete, with the output stored.
pub worker_ignores_revocation :
    (work : Work) (now id : ℕ) (task : Option String) (e : SubsetExtraction) (g : AccessGrant)
    (d : Dataset) (f : DatasetFile) (fs : List DatasetFile) (out : StoredOutput) (db : Db)
    → find id db.extractions ≡ some e
    → e.status ≡ ExtractionStatus.failed
    → find e.grant_id db.grants ≡ some g
    → g.status ≡ GrantStatus.revoked
    → find g.dataset_id db.datasets ≡ some d
    → files_of g.dataset_id db.dataset_files ≡ f ∷ fs
    → work (set_processing task e) g (f ∷ fs) ≡ stored out
    → (r : SubsetExtraction) × (find id (exec (process_extraction work now id task) db).extractions
        ≡ some r)
      × (r.status ≡ ExtractionStatus.complete)
      × (r.output ≡ some out)
unfolding process_extraction begin_extraction finish_extraction extraction_outcome
worker_ignores_revocation work now id task e g d f fs out db h failed hg revoked hd hf reads =
    let begun = update id (set_processing task) db.extractions in
    let done = set_outcome now (stored out) in
    (
      done (set_processing task e),
      ground (
        arith,
        find-update id id (set_processing task) db.extractions,
        find-update id id done begun,
      ),
      refl,
      refl,
    )
