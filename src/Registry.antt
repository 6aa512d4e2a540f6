-- ===== src/Registry.antt =====
-- The registry of the variables of datasets: `_upsert_dataset_variable`, `_write_variable_registry`,
-- `_numeric_range_from_row_groups` and `_sample_distinct_values` (backend/app/worker/tasks/ingestion.py),
-- and `DatasetVariable` (backend/app/models/catalog.py). The session of the worker flushes before each
-- query, so a row that is added is found by the next one. The ids of rows are left out. A value is the
-- number of millionths that the column rounds it to; rounding keeps the order.
use bodp_app.Prelude.{
  ℕ, suc, ◌+◌, ◌==◌, ◌&&◌, Bool, true, false, Option, none, some, String, str_eq, List, [], ◌∷◌,
  ◌++◌, map, not, if◌then◌else◌, ltb, leb, all, length,
}
use bodp_app.Prelude.Int.{ℤ, pos, negsuc}
use bodp_app.Scope.{codes, contains, truthy}
use bodp_app.Catalog.{take, filter}
use bodp_app.Parsers.Csv.{merge, min_ℤ, max_ℤ, Span, no_span}
use bodp_app.Writer.{Columns, coord_cols, variable_columns, insert_name}
pub mod Limits
pub mod Ranges
pub mod Files

pub data VariableDataType : Type 0 where
  numeric temporal categorical text : VariableDataType

pub record DatasetVariable : Type 0 where
  pub dataset_id : ℕ
  pub name : String
  pub data_type : VariableDataType
  pub is_dimension : Bool
  pub min_value : Option ℤ
  pub max_value : Option ℤ
  pub distinct_values : Option (List String)

-- The arguments of a call of `_upsert_dataset_variable`.
pub record Detected : Type 0 where
  pub dataset : ℕ
  pub variable : String
  pub kind : VariableDataType
  pub dimension : Bool
  pub range : Span
  pub distinct : Option (List String)

abbrev pub max_sampled_distinct_values : ℕ
max_sampled_distinct_values = 50

abbrev pub is_row : ℕ → String → DatasetVariable → Bool
is_row d n r = r.dataset_id == d && str_eq r.name n

-- `sorted(set(...))`
unfoldable pub insert_new : String → List String → List String
insert_new x xs = if contains xs x then xs else insert_name x xs

unfoldable pub sorted_set : List String → List String
sorted_set [] = []
sorted_set (x ∷ xs) = insert_new x (sorted_set xs)

abbrev pub or_empty : Option (List String) → List String
or_empty none = []
or_empty (some xs) = xs

-- `distinct_values[:50] if distinct_values else None`
abbrev pub first_values : Option (List String) → Option (List String)
first_values none = none
first_values (some []) = none
first_values (some (x ∷ xs)) = some (take max_sampled_distinct_values (x ∷ xs))

abbrev pub merged_values : (existing given : Option (List String)) → Option (List String)
merged_values existing none = existing
merged_values existing (some []) = existing
merged_values existing (some (x ∷ xs)) =
    some (take max_sampled_distinct_values (sorted_set (or_empty existing ++ (x ∷ xs))))

abbrev pub new_row : Detected → DatasetVariable
new_row c = record {
  dataset_id = c.dataset;
  name = c.variable;
  data_type = c.kind;
  is_dimension = c.dimension;
  min_value = c.range.lowest;
  max_value = c.range.highest;
  distinct_values = first_values c.distinct;
}

abbrev pub widen_row : Detected → DatasetVariable → DatasetVariable
widen_row c r = record r {
  min_value = merge min_ℤ r.min_value c.range.lowest;
  max_value = merge max_ℤ r.max_value c.range.highest;
  distinct_values = merged_values r.distinct_values c.distinct;
}

-- Assignments to the row that was selected.
unfoldable pub replace_row :
    ℕ → String → (DatasetVariable → DatasetVariable) → List DatasetVariable → List DatasetVariable
replace_row d n f [] = []
replace_row d n f (r ∷ rs) = if is_row d n r then f r ∷ rs else r ∷ replace_row d n f rs

-- What the columns hold: String(255), ARRAY(String(255)), and Numeric(18, 6), which keeps millionths
-- below 10 ^ 12; anything longer or larger is refused when the row is written.
abbrev pub fits_text : String → Bool
fits_text t = leb (length (codes t)) 255

abbrev pub fits_number : ℤ → Bool
fits_number (pos n) = ltb n 1000000000000000000
fits_number (negsuc n) = ltb (suc n) 1000000000000000000

abbrev pub fits_bound : Option ℤ → Bool
fits_bound none = true
fits_bound (some n) = fits_number n

abbrev pub row_fits : DatasetVariable → Bool
row_fits r =
    fits_text r.name
    && (fits_bound r.min_value
        && (fits_bound r.max_value && all fits_text (or_empty r.distinct_values)))

-- None where the database refuses the row, or where `scalar_one_or_none` finds several.
abbrev pub write_selected :
    (selected : List DatasetVariable)
    → Detected
    → List DatasetVariable
    → Option (List DatasetVariable)
write_selected [] c rows = if row_fits (new_row c) then some (new_row c ∷ rows) else none
write_selected (r ∷ []) c rows =
    if row_fits (widen_row c r)
    then some (replace_row c.dataset c.variable (widen_row c) rows)
    else none
write_selected (r ∷ s ∷ rs) c rows = none

unfoldable pub upsert_dataset_variable :
    Detected → List DatasetVariable → Option (List DatasetVariable)
upsert_dataset_variable c rows = write_selected (filter (is_row c.dataset c.variable) rows) c rows

abbrev pub and_then {ℓ κ} : {A : Type ℓ} {B : Type κ} → Option A → (A → Option B) → Option B
and_then none f = none
and_then (some a) f = f a

unfoldable pub upsert_all : List Detected → List DatasetVariable → Option (List DatasetVariable)
upsert_all [] rows = some rows
upsert_all (c ∷ cs) rows = and_then (upsert_dataset_variable c rows) (λ rs. upsert_all cs rs)

-- What pyarrow reads of a Parquet file: the columns, whether the type of one is a number, the minima and
-- maxima of row groups that have them, and the values as texts, in the order of the batches.
pub record ParquetFile : Type 0 where
  pub names : List String
  pub type_is_numeric : String → Bool
  pub row_groups : String → List (Option (ℤ × ℤ))
  pub texts : String → List (Option String)

unfoldable pub range_from : Span → List (Option (ℤ × ℤ)) → Span
range_from s [] = s
range_from s (none ∷ gs) = range_from s gs
range_from s (some (lo, hi) ∷ gs) =
    range_from
      (record {
        lowest = merge min_ℤ s.lowest (some lo);
        highest = merge max_ℤ s.highest (some hi);
      })
      gs

abbrev pub numeric_range_from_row_groups : ParquetFile → String → Span
numeric_range_from_row_groups file column = range_from no_span (file.row_groups column)

-- `seen` is kept sorted.
unfoldable pub sample_from : (seen : List String) → List (Option String) → List String
sample_from seen [] = seen
sample_from seen (v ∷ vs) =
    let rest = sample_from (see v seen) vs in
    if leb max_sampled_distinct_values (length seen) then seen else rest
  where
    see : Option String → List String → List String
    see none xs = xs
    see (some x) xs = insert_new x xs

abbrev pub sample_distinct_values : ParquetFile → String → List String
sample_distinct_values file column = sample_from [] (file.texts column)

-- The processed artifact of a file that is not a raster.
pub data Processed : Type 0 where
  no_artifact zarr_store missing_file : Processed
  parquet : ParquetFile → Processed

pub data Shape : Type 0 where
  raster : (bands : List String) → Shape
  table : (columns : Columns) → Processed → Shape

abbrev pub detected : ℕ → String → VariableDataType → (dimension : Bool) → Detected
detected dataset_id name kind dimension = record {
  dataset = dataset_id;
  variable = name;
  kind = kind;
  dimension = dimension;
  range = no_span;
  distinct = none;
}

-- `if not col: continue`
abbrev pub coordinate : ℕ → Option String → VariableDataType → List Detected
coordinate d none kind = []
coordinate d (some col) kind = if truthy (some col) then detected d col kind true ∷ [] else []

abbrev pub coordinates : ℕ → Columns → List Detected
coordinates d c =
    coordinate d c.lat_col VariableDataType.numeric
    ++ (coordinate d c.lon_col VariableDataType.numeric
        ++ (coordinate d c.time_col VariableDataType.temporal
            ++ coordinate d c.depth_col VariableDataType.numeric))

abbrev pub parquet_variable : ℕ → ParquetFile → String → Detected
parquet_variable d file col =
    if file.type_is_numeric col
    then record (detected d col VariableDataType.numeric false) {
      range = numeric_range_from_row_groups file col;
    }
    else record (detected d col VariableDataType.categorical false) {
      distinct = some (sample_distinct_values file col);
    }

abbrev pub plain_variable : ℕ → String → Detected
plain_variable d n = detected d n VariableDataType.numeric false

abbrev pub data_variables : ℕ → Columns → Processed → List Detected
data_variables d c Processed.no_artifact = []
data_variables d c Processed.zarr_store =
    map (plain_variable d) (filter (λ v. not (contains (coord_cols c) v)) c.variables)
data_variables d c Processed.missing_file = []
data_variables d c (Processed.parquet file) =
    map (parquet_variable d file) (variable_columns c file.names)

-- The calls that `_write_variable_registry` makes, in their order.
unfoldable pub detected_variables : (dataset_id : ℕ) → Shape → List Detected
detected_variables d (Shape.raster bands) = map (plain_variable d) bands
detected_variables d (Shape.table c artifact) = coordinates d c ++ data_variables d c artifact

abbrev pub with_count : ℕ → Option (List DatasetVariable) → Option (ℕ × List DatasetVariable)
with_count n none = none
with_count n (some rows) = some (n, rows)

-- The number of calls, and the rows after them.
unfoldable pub write_variable_registry :
    (dataset_id : ℕ) → Shape → List DatasetVariable → Option (ℕ × List DatasetVariable)
write_variable_registry d shape rows =
    with_count (length (detected_variables d shape)) (upsert_all (detected_variables d shape) rows)

-- Files that are ingested one after the other.
unfoldable pub register_files :
    List (ℕ × Shape) → List DatasetVariable → Option (List DatasetVariable)
register_files [] rows = some rows
register_files ((d, shape) ∷ files) rows =
    and_then (write_variable_registry d shape rows) (λ (n, rs). register_files files rs)
