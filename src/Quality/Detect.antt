-- ===== src/Quality/Detect.antt =====
-- The three detectors, on the rows in the database and on Parquet files. A detector gives the
-- datasets that it flags; `issues_for` leaves out those with an open issue.
use bodp_app.Prelude.{
  ℕ, ◌+◌, ◌*◌, Bool, true, false, ◌&&◌, ◌||◌, Option, none, some, str_eq, List, [], ◌∷◌, ltb, ◌==◌,
  if◌then◌else◌, any, is_some,
}
use bodp_app.Prelude.Int.{ℤ}
use bodp_app.Table.{Table, rows_of}
use bodp_app.Models.{
  Dataset, DatasetFile, DatasetRecord, StorageKind, QualityIssue, QualityIssueType, type_code,
  is_open,
}
use bodp_app.Database.{Db}
use bodp_app.Catalog.{filter, count, is_kind}

-- What SQL and DuckDB compute: whether a value lies more than three standard deviations from the
-- mean of a list (never, if the deviation is not there or not positive), and the checks of a file.
pub record Statistics : Type 0 where
  pub is_far : (values : List ℤ) → ℤ → Bool
  pub file_has_duplicates : DatasetFile → Bool
  pub file_outliers : DatasetFile → ℕ
  pub file_rows : DatasetFile → ℕ

-- `_parquet_files`
unfoldable pub parquet_files : Db → List DatasetFile
parquet_files db =
    filter (λ f. is_kind StorageKind.parquet f.storage_kind) (rows_of db.dataset_files)

-- An open issue of the type for the dataset.
abbrev pub is_open_issue : (dataset_id : ℕ) → QualityIssueType → QualityIssue → Bool
is_open_issue dataset_id t i =
    i.dataset_id == dataset_id && type_code i.issue_type == type_code t && is_open i.status

-- `_has_open_issue`
unfoldable pub has_open_issue : Db → (dataset_id : ℕ) → QualityIssueType → Bool
has_open_issue db dataset_id t = any (is_open_issue dataset_id t) (rows_of db.quality_issues)

abbrev pub same_number : Option ℕ → Option ℕ → Bool
same_number none none = true
same_number none (some b) = false
same_number (some a) none = false
same_number (some a) (some b) = a == b

-- Rows of one group of the GROUP BY, in which NULL is like NULL.
abbrev pub same_slot : DatasetRecord → DatasetRecord → Bool
same_slot r s =
    r.dataset_id == s.dataset_id
    && same_number r.time s.time
    && same_number r.station_id s.station_id
    && str_eq r.parameter s.parameter

abbrev pub has_slot : DatasetRecord → Bool
has_slot r = is_some r.time || is_some r.station_id

-- Adding to a set.
abbrev pub add_id : ℕ → List ℕ → List ℕ
add_id id ids = if any (λ j. j == id) ids then ids else id ∷ ids

unfoldable pub record_duplicates : (all rows : List DatasetRecord) → List ℕ
record_duplicates all [] = []
record_duplicates all (r ∷ rows) =
    let rest = record_duplicates all rows in
    if has_slot r && ltb 1 (count (same_slot r) all) then add_id r.dataset_id rest else rest

module _ (st : Statistics) where
  unfoldable pub file_duplicates : List DatasetFile → List ℕ → List ℕ
  file_duplicates [] ids = ids
  file_duplicates (f ∷ fs) ids =
      file_duplicates fs (if st.file_has_duplicates f then add_id f.dataset_id ids else ids)

  -- `dataset_ids_with_dupes`
  unfoldable pub duplicates : Db → List ℕ
  duplicates db =
      let rows = rows_of db.dataset_records in
      file_duplicates (parquet_files db) (record_duplicates rows rows)

  -- `flagged[id] = flagged.get(id, 0) + n`
  unfoldable pub add_flag : (dataset_id n : ℕ) → List (ℕ × ℕ) → List (ℕ × ℕ)
  add_flag id n [] = (id, n) ∷ []
  add_flag id n ((j, m) ∷ flags) =
      if j == id then (j, m + n) ∷ flags else (j, m) ∷ add_flag id n flags

  abbrev pub same_group : DatasetRecord → DatasetRecord → Bool
  same_group r s = r.dataset_id == s.dataset_id && str_eq r.parameter s.parameter

  unfoldable pub values_of : List DatasetRecord → List ℤ
  values_of [] = []
  values_of (r ∷ rows) = r.value ∷ values_of rows

  -- The outliers of the group of a row.
  unfoldable pub group_outliers : List DatasetRecord → DatasetRecord → ℕ
  group_outliers all r =
      let values = values_of (filter (same_group r) all) in
      count (λ (s : DatasetRecord). same_group r s && st.is_far values s.value) all

  -- One step for each group: at its last row.
  unfoldable pub record_outliers : (all rows : List DatasetRecord) → List (ℕ × ℕ) → List (ℕ × ℕ)
  record_outliers all [] flags = flags
  record_outliers all (r ∷ rows) flags =
      let n = group_outliers all r in
      record_outliers all rows
        (if any (same_group r) rows || n == 0 then flags else add_flag r.dataset_id n flags)

  unfoldable pub file_outliers_of : List DatasetFile → List (ℕ × ℕ) → List (ℕ × ℕ)
  file_outliers_of [] flags = flags
  file_outliers_of (f ∷ fs) flags =
      let n = st.file_outliers f in
      file_outliers_of fs (if n == 0 then flags else add_flag f.dataset_id n flags)

  -- `flagged_datasets`
  unfoldable pub outliers : Db → List (ℕ × ℕ)
  outliers db =
      let rows = rows_of db.dataset_records in
      file_outliers_of (parquet_files db) (record_outliers rows rows [])

  unfoldable pub file_rows_of : (dataset_id : ℕ) → List DatasetFile → ℕ
  file_rows_of id [] = 0
  file_rows_of id (f ∷ fs) = (if f.dataset_id == id then st.file_rows f else 0) + file_rows_of id fs

  -- `actual_count`
  unfoldable pub actual_count : Db → (dataset_id : ℕ) → ℕ
  actual_count db id =
      count (λ (r : DatasetRecord). r.dataset_id == id) (rows_of db.dataset_records)
      + file_rows_of id (parquet_files db)

  -- `actual < declared * 0.95`, for datasets that declare rows
  unfoldable pub missing_values : Db → Table Dataset → List ℕ
  missing_values db [] = []
  missing_values db ((id, d) ∷ ds) =
      let rest = missing_values db ds in
      if ltb 0 d.record_count && ltb (actual_count db id * 100) (d.record_count * 95)
      then id ∷ rest
      else rest
