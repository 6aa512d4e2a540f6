-- ===== src/Uploads/Cancellation.antt =====
-- An ingestion stops at the checkpoint that finds a cancellation, and leaves nothing behind.
use bodp_app.Prelude.{
  ℕ, ◌≡◌, refl, sym, ap, ◌∙◌, subst, true, false, Option, none, some, List, [], ◌∷◌, ◌++◌, is_some,
  arith, inl, inr, String,
}
use bodp_app.Table.{
  find, update, count_where, find-update, find-delete_self, IsKeyed, count_where-delete_where_all,
}
use bodp_app.Session.{ok, run}
use bodp_app.Models.{Upload, UploadStatus, DatasetFile, DatasetRecord, is_cancelled}
use bodp_app.Database.{Db}
use bodp_app.Uploads.Handlers.{begin_ingestion, set_processing_upload}
use bodp_app.Uploads.Ingestion.{
  Failure, Stage, checkpoint, after_stage, run_stages, with_status, set_upload_terminal_state,
  names_file, cleanup_cancelled_ingestion, settle, ingest, process_found, process_dataset_file,
}
use bodp_app.Uploads.Terminal.{IsThere, writes_but, cleanup-IsThere, begun_cases}

after_stage-stops :
    (work : Option Failure) (o : Option Upload) (v : Upload) (go_on : Option Failure × Db) (db : Db)
    → work ≡ none
    → o ≡ some v
    → is_cancelled v.status ≡ true
    → after_stage work (checkpoint true o) go_on db ≡ (some Failure.ingestion_cancelled, db)
after_stage-stops work o v go_on db fine there gone = rw (fine, there, gone) refl

after_stage-passed :
    (work check : Option Failure) (go_on : Option Failure × Db) (db d : Db)
    → after_stage work check go_on db ≡ (none, d)
    → (work ≡ none) × (check ≡ none) × (go_on ≡ (none, d))
after_stage-passed (some e) check go_on db d h = cc
after_stage-passed none (some e) go_on db d h = cc
after_stage-passed none none go_on db d h = (refl, refl, h)

after_stage_goes_on :
    (work check : Option Failure) (go_on : Option Failure × Db) (db : Db)
    → work ≡ none
    → check ≡ none
    → after_stage work check go_on db ≡ go_on
after_stage_goes_on work check go_on db h k = rw (h, k) refl

-- The stages up to the one after which the upload is found cancelled.
run_stages-cancelled :
    (id : ℕ) (before after : List Stage) (s : Stage) (db d : Db) (v : Upload)
    → run_stages true id before db ≡ (none, d)
    → s.failure ≡ none
    → s.checked ≡ true
    → find id (s.others d).uploads ≡ some v
    → is_cancelled v.status ≡ true
    → run_stages true id (before ++ (s ∷ after)) db ≡ (some Failure.ingestion_cancelled, s.others d)
unfolding run_stages
run_stages-cancelled id [] after s db d v ran fine checked there gone =
    let same : db ≡ d = ap (λ r. r.1) ran in
    subst (λ x. run_stages true id (s ∷ after) x ≡ (some Failure.ingestion_cancelled, s.others d))
      (sym same)
      (subst
        (λ c.
          after_stage s.failure (checkpoint c (find id (s.others d).uploads))
            (run_stages true id after (s.others d)) (s.others d)
          ≡ (some Failure.ingestion_cancelled, s.others d))
        (sym checked)
        (after_stage-stops s.failure (find id (s.others d).uploads) v _ (s.others d) fine there
          gone))
run_stages-cancelled id (b ∷ before) after s db d v ran fine checked there gone =
    let now = b.others db in
    let check = checkpoint b.checked (find id now.uploads) in
    let (work_none, check_none, rest) =
      after_stage-passed b.failure check (run_stages true id before now) now d ran in
    after_stage_goes_on b.failure check (run_stages true id (before ++ (s ∷ after)) now) now
      work_none check_none
    ∙ run_stages-cancelled id before after s now d v rest fine checked there gone

-- What a cancelled ingestion leaves behind.
abbrev pub LeavesNothing : (id file : ℕ) → Db → Type 0
LeavesNothing id file db =
    ((u : Upload) × (find id db.uploads ≡ some u) × (u.status ≡ UploadStatus.cancelled))
    × (count_where (λ (r : DatasetRecord). names_file file r.dataset_file_id) db.dataset_records
        ≡ 0)
    × (find file db.dataset_files ≡ none)

settle-LeavesNothing :
    (id file dataset issue : ℕ) (db : Db)
    → IsKeyed db.dataset_files
    → IsThere id db
    → LeavesNothing id file
        (settle id file dataset issue (writes_but true) true (some Failure.ingestion_cancelled) db)
unfolding settle set_upload_terminal_state cleanup_cancelled_ingestion
settle-LeavesNothing id file dataset issue db keyed there =
    let (u, e) = cleanup-IsThere true id file db there in
    (
      (
        with_status UploadStatus.cancelled u,
        ground (
          arith,
          find-update id id (with_status UploadStatus.cancelled)
              (cleanup_cancelled_ingestion true file db).uploads,
        ),
        refl,
      ),
      count_where-delete_where_all _ _ db.dataset_records (λ r h. h),
      find-delete_self file db.dataset_files keyed,
    )

begun_open :
    (id file : ℕ) (task : Option String) (f : DatasetFile) (u : Upload) (db : Db)
    → find file db.dataset_files ≡ some f
    → find id db.uploads ≡ some u
    → is_cancelled u.status ≡ false
    → run (begin_ingestion id file task) db
      ≡ (ok true, record db { uploads = update id (set_processing_upload task) db.uploads })
begun_open id file task f u db e k open_yet = elim (begun_cases id file task f u db e k) [
  | inl (c, ran) ↦ absurd (ground arith)
  | inr (c, ran) ↦ ran
]

-- A cancellation that another session commits while a stage of the work runs, and that a checkpoint
-- comes to, stops the work there: the stages after it are not run, the upload is cancelled, and the
-- file and its records are gone, where the clean-up and the writes of the task work.
pub process_dataset_file-LeavesNothing :
    (id file issue : ℕ) (task : Option String) (before after : List Stage) (s : Stage)
    (f : DatasetFile) (u v : Upload) (db d : Db)
    → find file db.dataset_files ≡ some f
    → find id db.uploads ≡ some u
    → is_cancelled u.status ≡ false
    → run_stages true id before
        (record db { uploads = update id (set_processing_upload task) db.uploads })
      ≡ (none, d)
    → s.failure ≡ none
    → s.checked ≡ true
    → find id (s.others d).uploads ≡ some v
    → is_cancelled v.status ≡ true
    → IsKeyed (s.others d).dataset_files
    → LeavesNothing id file
        (process_dataset_file id file issue task (before ++ (s ∷ after)) (writes_but true) db)
unfolding process_dataset_file process_found ingest
process_dataset_file-LeavesNothing id file issue task before after s f u v db d e k open_yet ran
      fine checked there gone keyed =
    let begun = record db { uploads = update id (set_processing_upload task) db.uploads } in
    let stages = before ++ (s ∷ after) in
    let w = writes_but true in
    let stopped = run_stages-cancelled id before after s begun d v ran fine checked there gone in
    subst
      (λ (o : Option DatasetFile).
        LeavesNothing id file (process_found id file issue task stages w o db))
      (sym e)
      (subst
        (λ (o : Option Upload).
          LeavesNothing id file
            (ingest id file issue stages w f (run (begin_ingestion id file task) db) (is_some o)))
        (sym k)
        (subst (λ r. LeavesNothing id file (ingest id file issue stages w f r true))
          (sym (begun_open id file task f u db e k open_yet))
          (subst (λ r. LeavesNothing id file (settle id file f.dataset_id issue w true r.0 r.1))
            (sym stopped)
            (settle-LeavesNothing id file f.dataset_id issue (s.others d) keyed (v, there)))))
