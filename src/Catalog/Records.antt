-- ===== src/Catalog/Records.antt =====
-- `get_matching_record_counts` and `get_filtered_records` of catalog_service.py: the rows of the
-- database, then the Parquet files, then the gridded files of a dataset. What DuckDB and xarray
-- read of a file is the parameter `Lake`.
use bodp_app.Catalog.Preview.{
  PreviewRow, Breakdown, FilteredRecords, add_breakdown, take, filter, count, day_of,
}
use bodp_app.Catalog.Gridded.{Grid, grid_counts, grid_records}
use bodp_app.Prelude.{
  ℕ, ◌+◌, Bool, true, false, ◌&&◌, Option, none, some, String, str_eq, List, [], ◌∷◌, ◌++◌, ◌==◌,
  length, map, if◌then◌else◌,
}
use bodp_app.Table.{Table, rows_of}
use bodp_app.Scope.{contains, truthy}
use bodp_app.Models.{DatasetFile, DatasetRecord, StorageKind}
use bodp_app.Database.{Db}
use bodp_app.Catalog.Filter.{RecordsFilter, Spatial, apply_record_filters}
use bodp_app.Catalog.Tabular.{MeltedRow, build_where}

-- The contents of files (the columns of the file and those of its melted view, or the grid and the
-- variables that its metadata registers), and the order that ORDER BY puts rows into.
pub record Lake : Type 0 where
  pub source_columns : DatasetFile → List String
  pub columns : DatasetFile → List String
  pub rows : DatasetFile → List MeltedRow
  pub newest_records : List DatasetRecord → List DatasetRecord
  pub newest_rows : List MeltedRow → List MeltedRow
  pub grid : DatasetFile → Grid
  pub registered : DatasetFile → List String
  pub units : DatasetFile → Option String

-- `file_breakdown` of a flag that may be NULL
abbrev pub has_flag : String → Option String → Bool
has_flag name none = false
has_flag name (some q) = str_eq q name

abbrev pub or_text : Option String → Option String → Option String
or_text a b = if truthy a then a else b

abbrev pub from_record : DatasetRecord → PreviewRow
from_record r = record {
  time = r.time;
  location = r.location;
  depth_m = r.depth_m;
  parameter = r.parameter;
  value = some r.value;
  unit = r.unit;
  platform = r.platform;
  format = r.format;
  processing_level = r.processing_level;
  quality_flag = r.quality_flag;
}

abbrev pub flag_or_normal : Option String → String
flag_or_normal none = "normal"
flag_or_normal (some q) = if str_eq q "" then "normal" else q

-- `row[6] or table.format_value` and `row[8] or NORMAL`
abbrev pub from_melted : DatasetFile → MeltedRow → PreviewRow
from_melted file r = record {
  time = day_of r.time;
  location = r.location;
  depth_m = r.depth_m;
  parameter = r.parameter;
  value = some r.value;
  unit = r.unit;
  platform = r.platform;
  format = or_text r.format (some file.file_format);
  processing_level = r.processing_level;
  quality_flag = flag_or_normal r.quality_flag;
}

abbrev pub is_kind : StorageKind → Option StorageKind → Bool
is_kind StorageKind.parquet (some StorageKind.parquet) = true
is_kind StorageKind.chunked_array (some StorageKind.chunked_array) = true
is_kind k s = false

-- The files of a dataset of one kind.
unfoldable pub files_of_kind : StorageKind → (dataset_id : ℕ) → Table DatasetFile → List DatasetFile
files_of_kind k dataset_id t =
    filter (λ f. f.dataset_id == dataset_id && is_kind k f.storage_kind) (rows_of t)

-- The sum over files of what a function counts.
unfoldable pub add_counts : (DatasetFile → ℕ × ℕ) → List DatasetFile → ℕ × ℕ → ℕ × ℕ
add_counts g [] acc = acc
add_counts g (file ∷ files) acc = add_counts g files (acc.0 + (g file).0, acc.1 + (g file).1)

unfoldable pub add_records :
    (DatasetFile → FilteredRecords) → List DatasetFile → FilteredRecords → FilteredRecords
add_records g [] acc = acc
add_records g (file ∷ files) acc =
    let r = g file in
    add_records g files (record {
      preview = acc.preview ++ r.preview;
      matching = acc.matching + r.matching;
      total = acc.total + r.total;
      breakdown = add_breakdown acc.breakdown r.breakdown;
    })

abbrev pub gridded_counts : Lake → RecordsFilter → DatasetFile → ℕ × ℕ
gridded_counts lake f file = grid_counts f (lake.registered file) (lake.grid file)

abbrev pub gridded_records :
    Lake → RecordsFilter → (preview_limit : ℕ) → DatasetFile → FilteredRecords
gridded_records lake f limit file =
    grid_records f (lake.registered file) (lake.units file) file.file_format limit (lake.grid file)

module _ (sp : Spatial) (lake : Lake) (f : RecordsFilter) where
  -- tabular_query_service.get_matching_record_counts
  unfoldable pub tabular_counts : DatasetFile → ℕ × ℕ
  tabular_counts file =
      (count (build_where sp (lake.columns file) f) (lake.rows file), length (lake.rows file))

  unfoldable pub tabular_breakdown : DatasetFile → Breakdown
  tabular_breakdown file =
      let matching = filter (build_where sp (lake.columns file) f) (lake.rows file) in
      if contains (lake.source_columns file) "quality_flag"
      then record {
        normal = count (λ (r : MeltedRow). has_flag "normal" r.quality_flag) matching;
        caution = count (λ (r : MeltedRow). has_flag "caution" r.quality_flag) matching;
        alert = count (λ (r : MeltedRow). has_flag "alert" r.quality_flag) matching;
      }
      else record { normal = length matching; caution = 0; alert = 0 }

  -- tabular_query_service.get_filtered_records, which asks for its counts itself
  unfoldable pub tabular_records : (preview_limit : ℕ) → DatasetFile → FilteredRecords
  tabular_records limit file =
      let matching_rows = filter (build_where sp (lake.columns file) f) (lake.rows file) in
      record {
        preview = map (from_melted file) (take limit (lake.newest_rows matching_rows));
        matching = length matching_rows;
        total = length (lake.rows file);
        breakdown = tabular_breakdown file;
      }

  module _ (dataset_id : ℕ) (db : Db) where
    abbrev pub sql_test : DatasetRecord → Bool
    sql_test = apply_record_filters sp db.stations dataset_id f

    -- `_get_matching_record_counts_sql`
    unfoldable pub sql_counts : ℕ × ℕ
    sql_counts = (
      count sql_test (rows_of db.dataset_records),
      count (λ (r : DatasetRecord). r.dataset_id == dataset_id) (rows_of db.dataset_records),
    )

    abbrev pub sql_flag : String → ℕ
    sql_flag name =
        count (λ (r : DatasetRecord). str_eq r.quality_flag name)
          (filter sql_test (rows_of db.dataset_records))

    -- `_get_filtered_records_sql`, which asks for its counts itself
    unfoldable pub sql_records : (preview_limit : ℕ) → FilteredRecords
    sql_records limit =
        let rows = rows_of db.dataset_records in
        let filtered_rows = filter (apply_record_filters sp db.stations dataset_id f) rows in
        record {
          preview = map from_record (take limit (lake.newest_records filtered_rows));
          matching = length filtered_rows;
          total = length (filter (λ (r : DatasetRecord). r.dataset_id == dataset_id) rows);
          breakdown = record {
            normal = sql_flag "normal";
            caution = sql_flag "caution";
            alert = sql_flag "alert";
          };
        }

    unfoldable pub get_matching_record_counts : ℕ × ℕ
    get_matching_record_counts =
        add_counts (gridded_counts lake f)
          (files_of_kind StorageKind.chunked_array dataset_id db.dataset_files)
          (add_counts tabular_counts (files_of_kind StorageKind.parquet dataset_id db.dataset_files)
            sql_counts)

    unfoldable pub get_filtered_records : (preview_limit : ℕ) → FilteredRecords
    get_filtered_records limit =
        let all =
          add_records (gridded_records lake f limit)
            (files_of_kind StorageKind.chunked_array dataset_id db.dataset_files)
            (add_records (tabular_records limit)
              (files_of_kind StorageKind.parquet dataset_id db.dataset_files)
              (sql_records limit)) in
        record all { preview = take limit all.preview }
