-- ===== src/Extractions/Worker.antt =====
-- `process_extraction`, in the two steps between which other handlers run: the status goes to
-- `processing` and is committed; then the files are filtered, and the end of that is written.
use bodp_app.Prelude.{
  ℕ, Bool, Option, none, some, String, List, [], ◌∷◌, ◌==◌, is_some, if◌then◌else◌,
}
use bodp_app.Table.{Table, find, update}
use bodp_app.Session.{Txn, pure, gets, modify, commit, ◌>>=◌, ◌>>◌}
use bodp_app.Scope.{truthy}
use bodp_app.Models.{AccessGrant, DatasetFile, StoredOutput, SubsetExtraction, ExtractionStatus}
use bodp_app.Database.{Db}

-- How `_run_extraction` ends: with a stored result, or with an exception and its message.
pub data Outcome : Type 0 where
  stored : StoredOutput → Outcome
  failure : String → Outcome

-- `if celery_task_id: extraction.celery_task_id = celery_task_id`
abbrev pub set_processing : Option String → SubsetExtraction → SubsetExtraction
set_processing task e = record e {
  status = ExtractionStatus.processing;
  celery_task_id = if truthy task then task else e.celery_task_id;
}

-- The first step. `false` is the reply "extraction not found".
unfoldable pub begin_extraction : ℕ → Option String → Txn Db Bool
begin_extraction id task = do
  modify λ db. record db { extractions = update id (set_processing task) db.extractions }
  commit
  gets (λ db. is_some (find id db.extractions))

abbrev pub set_outcome : ℕ → Outcome → SubsetExtraction → SubsetExtraction
set_outcome now (stored out) e = record e {
  status = ExtractionStatus.complete;
  output = some out;
  completed_at = some now;
}
set_outcome now (failure message) e = record e {
  status = ExtractionStatus.failed;
  error_message = some message;
}

-- The second step.
unfoldable pub finish_extraction : (now id : ℕ) → Outcome → Txn Db (Unit {0})
finish_extraction now id outcome = do
  modify λ db. record db { extractions = update id (set_outcome now outcome) db.extractions }
  commit

abbrev pub files_of : ℕ → Table DatasetFile → List DatasetFile
files_of dataset_id [] = []
files_of dataset_id ((k, f) ∷ t) =
    if f.dataset_id == dataset_id then f ∷ files_of dataset_id t else files_of dataset_id t

-- Reading, filtering and storing the files is `work`: storage, pandas and the file formats.
abbrev pub Work : Type 0
Work = SubsetExtraction → AccessGrant → List DatasetFile → Outcome

abbrev pub work_on : Work → SubsetExtraction → AccessGrant → List DatasetFile → Outcome
work_on work e g [] = failure "Dataset has no source files to extract from"
work_on work e g (f ∷ fs) = work e g (f ∷ fs)

-- `_run_extraction`
unfoldable pub extraction_outcome : Work → SubsetExtraction → Db → Outcome
extraction_outcome work e db = elim (find e.grant_id db.grants) [
  | none ↦ failure "Grant not found"
  | some g ↦ elim (find g.dataset_id db.datasets) [
    | none ↦ failure "Dataset not found"
    | some d ↦ work_on work e g (files_of g.dataset_id db.dataset_files)
  ]
]

abbrev pub outcome_at : Work → ℕ → Db → Option Outcome
outcome_at work id db = elim (find id db.extractions) [
  | none ↦ none
  | some e ↦ some (extraction_outcome work e db)
]

abbrev pub finish_with : (now id : ℕ) → Option Outcome → Txn Db (Unit {0})
finish_with now id none = pure tt
finish_with now id (some outcome) = finish_extraction now id outcome

-- Both steps with nothing in between.
unfoldable pub process_extraction : Work → (now id : ℕ) → Option String → Txn Db (Unit {0})
process_extraction work now id task = do
  begin_extraction id task
  outcome ← gets (outcome_at work id)
  finish_with now id outcome
