-- ===== src/Tests/WriterTests.antt =====
-- A file of three rows, of which one has no time, written over what an earlier attempt left.
use bodp_app.Prelude.{
  ℕ, ◌+◌, ◌≡◌, refl, Bool, true, false, none, some, String, str_eq, List, [], ◌∷◌, ◌++◌, map,
  if◌then◌else◌,
}
use bodp_app.Prelude.Int.{pos}
use bodp_app.Table.{rows_of, delete_where}
use bodp_app.Models.{DatasetRecord}
use bodp_app.Database.{Db}
use bodp_app.Storage.{text_eq}
use bodp_app.Scope.{lex_ltb}
use bodp_app.Catalog.{filter}
use bodp_app.Writer.{
  Cell, Texts, Columns, Row, Batch, Written, ends_with, insert_name, sorted_names, variable_columns,
  melt_row, melt_variables, finite_number, resolve_row_time, copy_batches, copy_rows, push_all,
  push, flush_chunk, keyed, write_dataset_records,
}
use bodp_app.Writer.ExactlyOnce.{
  records_of, other_records, melted, HasData, write_dataset_records-beginning,
}
use bodp_app.Tests.CatalogTests.{observation}
use bodp_app.Tests.Fixtures.{db, file}

abbrev texts : Texts
texts = record {
  finite_of = λ s. if str_eq s "7" then some (pos 7) else none;
  day_of_text = λ s. none;
  text_of_number = λ n. "";
}

abbrev columns : Columns
columns = record {
  lat_col = none;
  lon_col = none;
  time_col = some "time";
  depth_col = none;
  variables = "sst" ∷ "sst_bnds" ∷ "chl" ∷ [];
}

abbrev all_columns : List String
all_columns = "time" ∷ "sst" ∷ "sst_bnds" ∷ "chl" ∷ "expver" ∷ []

abbrev row : Cell → Cell → Row
row time chl col =
    if str_eq col "time" then time else if str_eq col "chl" then chl else Cell.number (pos 20)

sorted : variable_columns columns all_columns ≡ "chl" ∷ "sst" ∷ []
unfolding variable_columns filter sorted_names insert_name ends_with text_eq lex_ltb
sorted = refl

abbrev batches : Bool → List Batch
batches raises =
    record {
      rows = row (Cell.day 4) Cell.null ∷ row Cell.null (Cell.text "7") ∷ [];
      raises = false;
    }
    ∷ record { rows = row (Cell.datetime 86400) (Cell.text "7") ∷ []; raises = raises }
    ∷ []

abbrev draw : ℕ → ℕ
draw n = 100 + n

-- An earlier attempt left a record of file 9; another one is of no file.
abbrev before : Db
before = record db {
  dataset_records =
      (1, record (observation none) { dataset_file_id = some 9 }) ∷ (2, observation none) ∷ [];
}

columns-HasData : HasData texts draw 2 9 file columns all_columns (batches true) false before
unfolding variable_columns filter sorted_names insert_name ends_with text_eq lex_ltb
columns-HasData = refl

abbrev run : Bool → Written × Db
run raises =
    write_dataset_records texts draw 2 9 file columns all_columns (batches raises) false before

-- The first row has one finite value and the third two; the second has no time.
written : (run false).0 ≡ Written.rows 3
unfolding write_dataset_records variable_columns filter sorted_names insert_name ends_with text_eq
    lex_ltb copy_batches flush_chunk copy_rows push_all melt_row resolve_row_time melt_variables
    finite_number push
written = refl

-- A cancellation finds one chunk of two rows copied.
values : map (λ (r : DatasetRecord). r.value) (records_of 9 (run true).1) ≡ pos 20 ∷ pos 7 ∷ []
unfolding write_dataset_records variable_columns filter sorted_names insert_name ends_with text_eq
    lex_ltb copy_batches copy_rows melt_row melt_variables finite_number resolve_row_time push_all
    push flush_chunk keyed delete_where rows_of
values = refl

write_dataset_records-beginning_example :
    (rest : List DatasetRecord) × (records_of 9 (run true).1 ++ rest
      ≡ melted texts draw 2 9 file columns all_columns (batches true) false before)
    × (other_records 9 (run true).1 ≡ other_records 9 before)
write_dataset_records-beginning_example =
    write_dataset_records-beginning texts draw 2 9 file columns all_columns (batches true) false
      before columns-HasData
