-- ===== src/Writer/Melt.antt =====
-- From the rows of a Parquet file to rows of `dataset_records`: one for each observation and variable.
use bodp_app.Prelude.{
  ℕ, Bool, not, ◌&&◌, ◌||◌, Option, none, some, String, List, [], ◌∷◌, ◌++◌, ◌/◌, if◌then◌else◌,
  is_some,
}
use bodp_app.Prelude.Int.{ℤ}
use bodp_app.Scope.{truthy, contains, codes, lex_ltb}
use bodp_app.Storage.{Text, text_eq}
use bodp_app.Catalog.{filter, seconds_per_day}
use bodp_app.Models.{DatasetFile, DatasetRecord}

-- What `to_pydict` gives for a cell. A number is a whole multiple of a fixed unit; `not_finite` is
-- a NaN or an infinity.
pub data Cell : Type 0 where
  null : Cell
  number : ℤ → Cell
  not_finite : Cell
  datetime : (seconds : ℕ) → Cell
  day : ℕ → Cell
  text : String → Cell
  other : Cell

-- `float(text)` where that is a finite number, `datetime.fromisoformat(text).date()` where that
-- succeeds, and `str` of a number.
pub record Texts : Type 0 where
  pub finite_of : String → Option ℤ
  pub day_of_text : String → Option ℕ
  pub text_of_number : ℤ → String

-- `metadata.extra` and `metadata.variables`
pub record Columns : Type 0 where
  pub lat_col : Option String
  pub lon_col : Option String
  pub time_col : Option String
  pub depth_col : Option String
  pub variables : List String

-- A row gives a cell for each column of the file.
abbrev pub Row : Type 0
Row = String → Cell

-- `s.endswith(suffix)`
unfoldable pub ends_with : (suffix : Text) → Text → Bool
ends_with suffix [] = text_eq [] suffix
ends_with suffix (c ∷ s) = text_eq (c ∷ s) suffix || ends_with suffix s

-- `_NON_VARIABLE_SUFFIXES`
abbrev pub has_bounds_suffix : String → Bool
has_bounds_suffix s = ends_with (codes "_bnds") (codes s) || ends_with (codes "_bounds") (codes s)

-- `{c for c in (…) if c}`
abbrev pub if_truthy : Option String → List String
if_truthy none = []
if_truthy (some s) = if truthy (some s) then s ∷ [] else []

abbrev pub coord_cols : Columns → List String
coord_cols c =
    if_truthy c.lat_col ++ (if_truthy c.lon_col ++ (if_truthy c.time_col ++ if_truthy c.depth_col))

unfoldable pub insert_name : String → List String → List String
insert_name x [] = x ∷ []
insert_name x (y ∷ ys) =
    let rest = insert_name x ys in if lex_ltb (codes y) (codes x) then y ∷ rest else x ∷ y ∷ ys

-- `sorted`
unfoldable pub sorted_names : List String → List String
sorted_names [] = []
sorted_names (x ∷ xs) = insert_name x (sorted_names xs)

unfoldable pub variable_columns : Columns → (all_columns : List String) → List String
variable_columns c all_columns = sorted_names (
    filter
      (λ col.
        contains c.variables col
        && not (contains (coord_cols c) col)
        && not (has_bounds_suffix col))
      all_columns)

module _ (t : Texts) where
  -- `float(value)`, where `_is_finite_number(value)`
  unfoldable pub finite_number : Cell → Option ℤ
  finite_number Cell.null = none
  finite_number (Cell.number n) = some n
  finite_number Cell.not_finite = none
  finite_number (Cell.datetime s) = none
  finite_number (Cell.day d) = none
  finite_number (Cell.text s) = t.finite_of s
  finite_number Cell.other = none

  unfoldable pub resolve_row_time : Cell → Option ℕ
  resolve_row_time Cell.null = none
  resolve_row_time (Cell.number n) = t.day_of_text (t.text_of_number n)
  resolve_row_time Cell.not_finite = none
  resolve_row_time (Cell.datetime s) = some (s / seconds_per_day)
  resolve_row_time (Cell.day d) = some d
  resolve_row_time (Cell.text s) = t.day_of_text s
  resolve_row_time Cell.other = none

  -- `table[col][i] if col else None`
  abbrev pub cell_at : Option String → Row → Cell
  cell_at none row = Cell.null
  cell_at (some col) row = if truthy (some col) then row col else Cell.null

  -- Longitude and latitude, if both are finite.
  abbrev pub both : Option ℤ → Option ℤ → Option (ℤ × ℤ)
  both none lat = none
  both (some lon) none = none
  both (some lon) (some lat) = some (lon, lat)

  abbrev pub point_of : Columns → Row → Option (ℤ × ℤ)
  point_of c row =
      both (finite_number (cell_at c.lon_col row)) (finite_number (cell_at c.lat_col row))

  module _ (file_id : ℕ) (file : DatasetFile) (c : Columns) where
    abbrev pub record_of : Row → String → ℤ → DatasetRecord
    record_of row col value = record {
      dataset_id = file.dataset_id;
      dataset_file_id = some file_id;
      time = resolve_row_time (cell_at c.time_col row);
      depth_m = finite_number (cell_at c.depth_col row);
      location = none;
      station_id = none;
      parameter = col;
      value = value;
      unit = none;
      quality_flag = "normal";
      processing_level = none;
      format = some file.file_format;
      source = none;
      platform = none;
      geom = point_of c row;
    }

    abbrev pub cons_finite : Row → String → Option ℤ → List DatasetRecord → List DatasetRecord
    cons_finite row col none rest = rest
    cons_finite row col (some value) rest = record_of row col value ∷ rest

    -- The loop over the variables of a row.
    unfoldable pub melt_variables : Row → List String → List DatasetRecord
    melt_variables row [] = []
    melt_variables row (col ∷ cols) =
        cons_finite row col (finite_number (row col)) (melt_variables row cols)

    -- A row with neither a time nor a position is skipped.
    unfoldable pub melt_row : (cols : List String) → Row → List DatasetRecord
    melt_row cols row =
        if not (is_some (resolve_row_time (cell_at c.time_col row)))
          && not (is_some (point_of c row))
        then []
        else melt_variables row cols
