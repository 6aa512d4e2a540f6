-- ===== src/Writer/Copy.antt =====
-- `_write_dataset_records`: rows are gathered and copied in chunks, each in a transaction of its own
-- on a connection of its own; a checkpoint after each Parquet batch may end the work. The progress
-- shown to the user is left out.
use bodp_app.Prelude.{
  ℕ, suc, ◌+◌, Bool, true, false, ◌&&◌, ◌||◌, String, List, [], ◌∷◌, ◌++◌, leb, ltb, length,
  if◌then◌else◌,
}
use bodp_app.Table.{Table, delete_where}
use bodp_app.Scope.{truthy, is_cons}
use bodp_app.Models.{DatasetFile, DatasetRecord}
use bodp_app.Database.{Db}
use bodp_app.Uploads.{names_file}
use bodp_app.Writer.Melt.{Texts, Columns, Row, variable_columns, melt_row}

-- The table as committed, `chunk_rows` and `written`.
pub record Copy : Type 0 where
  pub table : Table DatasetRecord
  pub chunk : List DatasetRecord
  pub written : ℕ

-- A Parquet batch, and whether the checkpoint after it raises.
pub record Batch : Type 0 where
  pub rows : List Row
  pub raises : Bool

-- The keys are drawn one after another.
unfoldable pub keyed : (draw : ℕ → ℕ) → (from : ℕ) → List DatasetRecord → Table DatasetRecord
keyed draw from [] = []
keyed draw from (r ∷ rs) = (draw from, r) ∷ keyed draw (suc from) rs

module _ (draw : ℕ → ℕ) (limit : ℕ) where
  -- `flush_chunk`
  unfoldable pub flush_chunk : Copy → Copy
  flush_chunk c =
      if is_cons c.chunk
      then record {
        table = c.table ++ keyed draw c.written c.chunk;
        chunk = [];
        written = c.written + length c.chunk;
      }
      else c

  -- `chunk_rows.append(…)`, and a flush where the chunk is full
  unfoldable pub push : DatasetRecord → Copy → Copy
  push r c =
      let longer = record c { chunk = c.chunk ++ (r ∷ []) } in
      if leb limit (length longer.chunk) then flush_chunk longer else longer

  unfoldable pub push_all : List DatasetRecord → Copy → Copy
  push_all [] c = c
  push_all (r ∷ rs) c = push_all rs (push r c)

  -- The rows of one batch.
  unfoldable pub copy_rows : (melt : Row → List DatasetRecord) → List Row → Copy → Copy
  copy_rows melt [] c = c
  copy_rows melt (row ∷ rows) c = copy_rows melt rows (push_all (melt row) c)

  -- All batches: whether a checkpoint raised, and what was copied by then. There is a last checkpoint
  -- where something was written.
  unfoldable pub copy_batches :
      (last_raises : Bool) → (melt : Row → List DatasetRecord) → List Batch → Copy → Bool × Copy
  copy_batches last_raises melt [] c =
      let end = flush_chunk c in (last_raises && ltb 0 end.written, end)
  copy_batches last_raises melt (b ∷ bs) c =
      let here = copy_rows melt b.rows c in
      let rest = copy_batches last_raises melt bs here in if b.raises then (true, here) else rest

-- `time_col or (lat_col and lon_col)`
abbrev pub has_dimensions : Columns → Bool
has_dimensions c = truthy c.time_col || truthy c.lat_col && truthy c.lon_col

-- What the caller sees: the exception of a checkpoint, or the number of rows written.
pub data Written : Type 0 where
  raised : Written
  rows : ℕ → Written

abbrev pub outcome_of : Db → Bool × Copy → Written × Db
outcome_of db (true, c) = (raised, record db { dataset_records = c.table })
outcome_of db (false, c) = (rows c.written, record db { dataset_records = c.table })

-- `_COPY_CHUNK_ROWS` is `limit`. The rows of an earlier attempt at the file are deleted first.
unfoldable pub write_dataset_records :
    Texts
    → (draw : ℕ → ℕ) → (limit file_id : ℕ) → DatasetFile
    → Columns
    → (all_columns : List String) → List Batch
    → (last_raises : Bool) → Db
    → Written × Db
write_dataset_records t draw limit file_id file c all_columns batches last_raises db =
    let cols = variable_columns c all_columns in
    if has_dimensions c && is_cons cols
    then outcome_of db (
        copy_batches draw limit last_raises (melt_row t file_id file c cols) batches (record {
          table =
              delete_where (λ (r : DatasetRecord). names_file file_id r.dataset_file_id)
                db.dataset_records;
          chunk = [];
          written = 0;
        }))
    else (rows 0, db)
