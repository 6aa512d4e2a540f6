-- ===== src/Writer/ExactlyOnce.antt =====
-- However the rows are cut into batches and chunks, and whatever earlier attempts left: what is in
-- the database afterwards.
use mathlib.Core.List.{append_assoc, append-nil}
use bodp_app.Prelude.{
  ℕ, ◌≡◌, refl, sym, ap, ◌∙◌, inl, inr, Bool, true, false, not, ◌&&◌, String, List, [], ◌∷◌, ◌++◌,
  subst, is_some, All, All-append, Bool-cases, Option-cases, ==_refl,
}
use bodp_app.Table.{Table, rows_of, delete_where}
use bodp_app.Scope.{is_cons}
use bodp_app.Models.{DatasetFile, DatasetRecord}
use bodp_app.Database.{Db}
use bodp_app.Uploads.{names_file}
use bodp_app.Catalog.{filter}
use bodp_app.Writer.Melt.{
  Texts, Columns, Row, variable_columns, finite_number, resolve_row_time, melt_variables, melt_row,
  cell_at, point_of,
}
use bodp_app.Writer.Copy.{
  Copy, Batch, Written, copy_batches, has_dimensions, outcome_of, write_dataset_records,
}
use bodp_app.Writer.Laws.{
  filter-append, filter_id, filter_empty, filter-delete_where, filter_rest-delete_where, melt_all,
  rows_in, append-cancel_left, All-left,
}
use bodp_app.Writer.Batches.{copy_batches-Extends, copy_batches_beginning}

-- The records that name a file.
abbrev pub of_file : (file_id : ℕ) → DatasetRecord → Bool
of_file file_id r = names_file file_id r.dataset_file_id

module _ (t : Texts) (file_id : ℕ) (file : DatasetFile) (c : Columns) where
  abbrev IsOfFile : DatasetRecord → Type 0
  IsOfFile r = of_file file_id r ≡ true

  melt_variables-IsOfFile :
      (row : Row) (cols : List String) → All IsOfFile (melt_variables t file_id file c row cols)
  unfolding melt_variables All
  melt_variables-IsOfFile row [] = tt
  melt_variables-IsOfFile row (col ∷ cols) = elim (Option-cases (finite_number t (row col))) [
    | inl e ↦ rw e (melt_variables-IsOfFile row cols)
    | inr (v, e) ↦ rw e (==_refl file_id, melt_variables-IsOfFile row cols)
  ]

  melt_row-IsOfFile :
      (cols : List String) (row : Row) → All IsOfFile (melt_row t file_id file c cols row)
  unfolding melt_row All
  melt_row-IsOfFile cols row =
      elim (Bool-cases (
        not (is_some (resolve_row_time t (cell_at t c.time_col row)))
        && not (is_some (point_of t c row)))) [
          | inl e ↦ rw e tt
          | inr e ↦ rw e (melt_variables-IsOfFile row cols)
        ]

  melt_all-IsOfFile :
      (cols : List String) (rows : List Row)
      → All IsOfFile (melt_all (melt_row t file_id file c cols) rows)
  unfolding melt_all All
  melt_all-IsOfFile cols [] = tt
  melt_all-IsOfFile cols (row ∷ rows) =
      All-append IsOfFile (melt_row t file_id file c cols row) _ (melt_row-IsOfFile cols row)
        (melt_all-IsOfFile cols rows)

-- What is left after a run: the records of the file and those of other files.
abbrev pub records_of : (file_id : ℕ) → Db → List DatasetRecord
records_of file_id db = filter (of_file file_id) (rows_of db.dataset_records)

abbrev pub other_records : (file_id : ℕ) → Db → List DatasetRecord
other_records file_id db = filter (λ r. not (of_file file_id r)) (rows_of db.dataset_records)

outcome_of-records : (db : Db) (e : Bool × Copy) → (outcome_of db e).1.dataset_records ≡ e.1.table
outcome_of-records db (true, c) = refl
outcome_of-records db (false, c) = refl

All-not {ℓ} :
    {A : Type ℓ} (p : A → Bool) (xs : List A)
    → All (λ x. p x ≡ true) xs
    → All (λ x. not (p x) ≡ false) xs
unfolding All
All-not p [] h = tt
All-not p (x ∷ xs) (h, hs) = (ap not h, All-not p xs hs)

module _ (p : DatasetRecord → Bool) (before : Table DatasetRecord) (added : List DatasetRecord)
    (after : Table DatasetRecord) (e : rows_of after ≡ rows_of (delete_where p before) ++ added)
    (mine : All (λ r. p r ≡ true) added) where
  filtered_own : filter p (rows_of after) ≡ added
  filtered_own =
      ap (filter p) e
      ∙ (filter-append p (rows_of (delete_where p before)) added
          ∙ (ap (λ l. l ++ filter p added) (filter-delete_where p before) ∙ filter_id p added mine))

  filtered_rest : filter (λ r. not (p r)) (rows_of after) ≡ filter (λ r. not (p r)) (rows_of before)
  filtered_rest =
      ap (filter (λ r. not (p r))) e
      ∙ (filter-append (λ r. not (p r)) (rows_of (delete_where p before)) added
          ∙ (ap (λ l. filter (λ r. not (p r)) (rows_of (delete_where p before)) ++ l)
                (filter_empty (λ r. not (p r)) added (All-not p added mine))
              ∙ (append-nil _ ∙ filter_rest-delete_where p before)))

module _ (t : Texts) (draw : ℕ → ℕ) (limit file_id : ℕ) (file : DatasetFile) (c : Columns)
    (all_columns : List String) (batches : List Batch) (last_raises : Bool) (db : Db) where
  abbrev pub melted : List DatasetRecord
  melted = melt_all (melt_row t file_id file c (variable_columns c all_columns)) (rows_in batches)

  abbrev pub run_of : Written × Db
  run_of = write_dataset_records t draw limit file_id file c all_columns batches last_raises db

  abbrev pub HasData : Type 0
  HasData = (has_dimensions c && is_cons (variable_columns c all_columns)) ≡ true

  abbrev start : Copy
  start = record {
    table = delete_where (of_file file_id) db.dataset_records;
    chunk = [];
    written = 0;
  }

  abbrev end : Bool × Copy
  end =
      copy_batches draw limit last_raises
        (melt_row t file_id file c (variable_columns c all_columns)) batches start

  run_of-end : HasData → run_of ≡ outcome_of db end
  unfolding write_dataset_records
  run_of-end has = rw has refl

  -- Whether or not a checkpoint raises, and at whichever batch, the records of the file are a
  -- beginning of those that its rows melt to, and other files have the records that they had.
  pub write_dataset_records-beginning :
      HasData
      → (rest : List DatasetRecord) × (records_of file_id run_of.1 ++ rest ≡ melted)
        × (other_records file_id run_of.1 ≡ other_records file_id db)
  write_dataset_records-beginning has =
      let (copied, extends) = copy_batches-Extends draw limit last_raises _ batches start in
      let (rest, goes_on) = copy_batches_beginning draw limit last_raises _ batches start in
      let whole : copied ++ rest ≡ melted =
        append-cancel_left (rows_of start.table) (copied ++ rest) melted (
          sym (append_assoc (rows_of start.table) copied rest)
          ∙ (ap (λ l. l ++ rest) (sym extends)
              ∙ (goes_on ∙ ap (λ l. l ++ melted) (append-nil _)))) in
      let mine =
        All-left (λ r. of_file file_id r ≡ true) copied rest
          (subst (All (λ r. of_file file_id r ≡ true)) (sym whole) (
            melt_all-IsOfFile t file_id file c (variable_columns c all_columns)
              (rows_in batches))) in
      let table = ap (λ r. r.1.dataset_records) (run_of-end has) ∙ outcome_of-records db end in
      (
        rest,
        ap (λ l. l ++ rest)
              (ap (λ l. filter (of_file file_id) (rows_of l)) table
                ∙ filtered_own (of_file file_id) db.dataset_records copied end.1.table extends mine)
            ∙ whole,
        ap (λ l. filter (λ r. not (of_file file_id r)) (rows_of l)) table
            ∙ filtered_rest (of_file file_id) db.dataset_records copied end.1.table extends mine,
      )
