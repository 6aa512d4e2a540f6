-- ===== src/Datasets/Handlers.antt =====
-- `create_dataset`, `update_dataset`, `permanently_delete_dataset`. A commit that breaks a
-- constraint is a failed attempt; the n-th attempt draws the key `draw n`. Descriptive columns are
-- left out, and so is the deletion of objects in storage.
use bodp_app.Prelude.{
  ℕ, zero, suc, Bool, true, false, not, ◌||◌, Option, none, some, String, List, [], ◌∷◌, ◌==◌, any,
  is_some, if◌then◌else◌,
}
use bodp_app.Table.{find, insert, update, delete, keys_where, delete_where, update_where, rows_of}
use bodp_app.Session.{
  Txn, http, crash, pure, raise, gets, or_raise, modify, commit, raise_if, ◌>>=◌, ◌>>◌,
}
use bodp_app.Models.{
  Dataset, DatasetStatus, DatasetFile, DatasetRecord, DatasetRequest, AccessGrant, SubsetExtraction,
  DownloadLog, Upload, QualityIssue, RequestSupportingDocument, AuditActionType,
}
use bodp_app.Database.{Db, write_audit_log}
use bodp_app.Catalog.{filter}
use bodp_app.Requests.{active_on, revoke_grants}
use bodp_app.Storage.{Text}
use bodp_app.Datasets.Codes.{generate_code, is_taken}

pub record DatasetCreate : Type 0 where
  pub title : String
  pub code : Option Text
  pub status : DatasetStatus

abbrev pub new_dataset : DatasetCreate → Text → Dataset
new_dataset payload code = record {
  code = code;
  title = payload.title;
  status = payload.status;
  version = 1;
  record_count = 0;
}

-- `explicit_code or await _generate_code(db)`
abbrev pub chosen_code : Option Text → List Dataset → Text
chosen_code none ds = generate_code ds
chosen_code (some []) ds = generate_code ds
chosen_code (some (c ∷ s)) ds = c ∷ s

abbrev pub is_explicit : Option Text → Bool
is_explicit none = false
is_explicit (some []) = false
is_explicit (some (c ∷ s)) = true

-- What `db.add` and a commit come to: an error, if the key or the code is in use.
abbrev pub breaks_constraint : (key : ℕ) → Text → Db → Bool
breaks_constraint key code db =
    is_some (find key db.datasets) || is_taken code (rows_of db.datasets)

abbrev pub with_dataset : (key : ℕ) → Dataset → Db → Db
with_dataset key d db = record db { datasets = insert key d db.datasets }

-- The attempts that are left; the result is the key of the new dataset.
unfoldable pub attempts : (draw : ℕ → ℕ) → (left : ℕ) → DatasetCreate → Txn Db ℕ
attempts draw zero payload s = raise crash s
attempts draw (suc left) payload s =
    let code = chosen_code payload.code (rows_of s.working.datasets) in
    let key = draw left in
    let again = attempts draw left payload s in
    let stored = (modify (with_dataset key (new_dataset payload code)) >> (commit >> pure key)) s in
    if breaks_constraint key code s.working
    then if is_explicit payload.code || left == 0 then raise (http 409) s else again
    else stored

-- `_MAX_CODE_GENERATION_ATTEMPTS`
abbrev pub max_attempts : ℕ
max_attempts = 5

unfoldable pub create_dataset : (draw : ℕ → ℕ) → DatasetCreate → (actor : ℕ) → Txn Db ℕ
create_dataset draw payload actor = do
  key ← attempts draw max_attempts payload
  write_audit_log actor AuditActionType.dataset key
  commit
  pure key

-- The title, if it is set; the code cannot be changed.
unfoldable pub update_dataset :
    (dataset_id : ℕ) → (title : Option String) → (actor : ℕ) → Txn Db (Unit {0})
update_dataset dataset_id title actor = do
  or_raise (← gets (λ db. find dataset_id db.datasets)) (http 404)
  modify λ db. record db {
    datasets =
        update dataset_id
          (λ (d : Dataset). record d { title = elim title [ none ↦ d.title | some t ↦ t ] })
          db.datasets;
  }
  write_audit_log actor AuditActionType.dataset dataset_id
  commit

abbrev pub is_one_of : List ℕ → ℕ → Bool
is_one_of ids id = any (λ j. j == id) ids

abbrev pub is_some_of : List ℕ → Option ℕ → Bool
is_some_of ids none = false
is_some_of ids (some id) = is_one_of ids id

-- The grants, requests and files of a dataset.
abbrev pub grants_of : ℕ → Db → List ℕ
grants_of id db = keys_where (λ (g : AccessGrant). g.dataset_id == id) db.grants

abbrev pub requests_of : ℕ → Db → List ℕ
requests_of id db = keys_where (λ (q : DatasetRequest). q.dataset_id == id) db.requests

abbrev pub files_of : ℕ → Db → List ℕ
files_of id db = keys_where (λ (f : DatasetFile). f.dataset_id == id) db.dataset_files

abbrev pub is_of : ℕ → Option ℕ → Bool
is_of id none = false
is_of id (some d) = d == id

-- The row of the dataset is deleted, and with it what refers to it by ON DELETE CASCADE; a
-- reference by ON DELETE SET NULL is emptied.
unfoldable pub cascade : (dataset_id : ℕ) → Db → Db
cascade id db = record db {
  datasets = delete id db.datasets;
  dataset_files = delete_where (λ (f : DatasetFile). f.dataset_id == id) db.dataset_files;
  dataset_records = delete_where (λ (r : DatasetRecord). r.dataset_id == id) db.dataset_records;
  quality_issues = delete_where (λ (i : QualityIssue). i.dataset_id == id) db.quality_issues;
  uploads =
      update_where (λ (u : Upload). is_some_of (files_of id db) u.dataset_file_id)
        (λ (u : Upload). record u { dataset_file_id = none })
        (delete_where (λ (u : Upload). is_of id u.dataset_id) db.uploads);
  requests = delete_where (λ (q : DatasetRequest). q.dataset_id == id) db.requests;
  supporting_documents =
      delete_where (λ (d : RequestSupportingDocument). is_one_of (requests_of id db) d.request_id)
        db.supporting_documents;
  grants =
      update_where (λ (g : AccessGrant). is_some_of (requests_of id db) g.request_id)
        (λ (g : AccessGrant). record g { request_id = none })
        (delete_where (λ (g : AccessGrant). g.dataset_id == id) db.grants);
  extractions =
      delete_where (λ (e : SubsetExtraction). is_one_of (grants_of id db) e.grant_id)
        db.extractions;
  download_logs =
      filter (λ (l : DownloadLog). not (is_one_of (grants_of id db) l.grant_id)) db.download_logs;
}

-- The records are deleted first; a record of another dataset that names a file of this one would
-- then keep the file from being deleted.
unfoldable pub permanently_delete_dataset : (admin dataset_id : ℕ) → Txn Db (Unit {0})
permanently_delete_dataset admin dataset_id = do
  or_raise (← gets (λ db. find dataset_id db.datasets)) (http 404)
  active_grants ← gets (λ db. keys_where (active_on dataset_id) db.grants)
  revoke_grants admin active_grants
  modify λ db. record db {
    dataset_records =
        delete_where (λ (r : DatasetRecord). r.dataset_id == dataset_id) db.dataset_records;
  }
  write_audit_log admin AuditActionType.dataset dataset_id
  left ← gets (λ db.
      any (λ (r : DatasetRecord). is_some_of (files_of dataset_id db) r.dataset_file_id)
        (rows_of db.dataset_records))
  raise_if left crash
  modify (cascade dataset_id)
  commit
