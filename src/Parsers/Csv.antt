-- ===== src/Parsers/Csv.antt =====
-- `_find_column` and `CsvParser.parse` (backend/app/services/parsers/csv_parser.py). A name is its code
-- points; the values of a column are whole multiples of a unit, and instants are numbers too.
use bodp_app.Prelude.{
  map, ℕ, ◌+◌, Bool, false, not, ◌||◌, Option, none, some, String, List, [], ◌∷◌, if◌then◌else◌,
}
use bodp_app.Catalog.{filter}
use bodp_app.Prelude.Int.{ℤ, pos, ltb_ℤ}
use bodp_app.Scope.{codes}
use bodp_app.Storage.{Text, text_eq}
use bodp_app.Parsers.Sniff.{Parsed}

-- What `pd.read_csv` gives for a piece of the file.
pub record Chunk (Cell : Type 0) : Type 0 where
  pub length_of_chunk : ℕ
  pub cells : Text → Option (List Cell)

-- What pandas makes of the file and of the cells of a chunk: `read_csv` of five rows and in chunks,
-- each none where reading, converting or comparing raises; `to_numeric` and `to_datetime` with
-- errors="coerce" (none for a missing value), the first of each cell on its own, the second of the
-- column of a chunk at once, since it infers the format of the dates there; `Timestamp.date`, and
-- `str.lower`.
pub record Pandas : Type 1 where
  pub Cell : Type 0
  pub sample_columns : Option (List Text)
  pub chunks : Option (List (Chunk Cell))
  pub to_numeric : Cell → Option ℤ
  pub to_datetime : List Cell → List (Option ℤ)
  pub date_of : ℤ → ℕ
  pub lower_of : Text → Text

abbrev pub lat_aliases : List String
lat_aliases = "lat" ∷ "latitude" ∷ "y" ∷ []

abbrev pub lon_aliases : List String
lon_aliases = "lon" ∷ "lng" ∷ "longitude" ∷ "x" ∷ []

abbrev pub time_aliases : List String
time_aliases = "time" ∷ "date" ∷ "datetime" ∷ "timestamp" ∷ []

abbrev pub depth_aliases : List String
depth_aliases = "depth" ∷ "depth_m" ∷ "depth_meters" ∷ "pressure_depth" ∷ []

abbrev pub first_found {ℓ} : {A : Type ℓ} → Option A → Option A → Option A
first_found none o = o
first_found (some a) o = some a

-- `lowered.get(alias)`: of columns with the same lowered name the dict keeps the last.
unfoldable pub lowered : (Text → Text) → List Text → (alias : Text) → Option Text
lowered lower [] alias = none
lowered lower (c ∷ cs) alias =
    let later = lowered lower cs alias in
    first_found later (if text_eq (lower c) alias then some c else none)

unfoldable pub find_column :
    (Text → Text) → (columns : List Text) → (aliases : List String) → Option Text
find_column lower columns [] = none
find_column lower columns (alias ∷ aliases) =
    let later = find_column lower columns aliases in
    first_found (lowered lower columns (codes alias)) later

unfoldable pub dropna {ℓ} : {A : Type ℓ} → List (Option A) → List A
dropna [] = []
dropna (none ∷ os) = dropna os
dropna (some a ∷ os) = a ∷ dropna os

abbrev pub min_ℤ : ℤ → ℤ → ℤ
min_ℤ a b = if ltb_ℤ b a then b else a

abbrev pub max_ℤ : ℤ → ℤ → ℤ
max_ℤ a b = if ltb_ℤ a b then b else a

-- `b if a is None else min(a, b)`, and `a` where there is no `b`
abbrev pub merge : (ℤ → ℤ → ℤ) → Option ℤ → Option ℤ → Option ℤ
merge f none o = o
merge f (some a) none = some a
merge f (some a) (some b) = some (f a b)

-- `col.min()` and `col.max()`, none where `col` is empty
unfoldable pub col_fold : (ℤ → ℤ → ℤ) → List ℤ → Option ℤ
col_fold f [] = none
col_fold f (v ∷ vs) = merge f (some v) (col_fold f vs)

pub record Span : Type 0 where
  pub lowest : Option ℤ
  pub highest : Option ℤ

abbrev pub no_span : Span
no_span = record { lowest = none; highest = none }

abbrev pub widen : List (Option ℤ) → Span → Span
widen cells e =
    let col = dropna cells in
    record {
      lowest = merge min_ℤ e.lowest (col_fold min_ℤ col);
      highest = merge max_ℤ e.highest (col_fold max_ℤ col);
    }

-- `if lat_col and lat_col in chunk`
unfoldable pub read_column : {Cell : Type 0} (name : Option Text) → Chunk Cell → Option (List Cell)
read_column none chunk = none
read_column (some []) chunk = none
read_column (some (c ∷ cs)) chunk = chunk.cells (c ∷ cs)

unfoldable pub widen_by :
    {Cell : Type 0} → (List Cell → List (Option ℤ)) → Option (List Cell) → Span → Span
widen_by read none e = e
widen_by read (some cells) e = widen (read cells) e

pub record Scan : Type 0 where
  pub row_count : ℕ
  pub lat : Span
  pub lon : Span
  pub time : Span
  pub depth : Span

abbrev pub no_scan : Scan
no_scan = record { row_count = 0; lat = no_span; lon = no_span; time = no_span; depth = no_span }

-- `lat_col`, `lon_col`, `time_col` and `depth_col`
pub record Axes : Type 0 where
  pub lat_col : Option Text
  pub lon_col : Option Text
  pub time_col : Option Text
  pub depth_col : Option Text

pub data DepthConvention : Type 0 where
  assumed_positive_down assumed_negative_up : DepthConvention

-- `ParsedFileMetadata` as `CsvParser` fills it, with `extra`.
pub record CsvMetadata : Type 0 where
  pub variables : List Text
  pub rows : ℕ
  pub spatial_lat_min : Option ℤ
  pub spatial_lat_max : Option ℤ
  pub spatial_lon_min : Option ℤ
  pub spatial_lon_max : Option ℤ
  pub temporal_start : Option ℕ
  pub temporal_end : Option ℕ
  pub record_count : ℕ
  pub columns : List Text
  pub axes : Axes
  pub depth_min : Option ℤ
  pub depth_max : Option ℤ
  pub depth_convention : Option DepthConvention

module _ (p : Pandas) where
  abbrev pub axes_of : List Text → Axes
  axes_of columns = record {
    lat_col = find_column p.lower_of columns lat_aliases;
    lon_col = find_column p.lower_of columns lon_aliases;
    time_col = find_column p.lower_of columns time_aliases;
    depth_col = find_column p.lower_of columns depth_aliases;
  }

  abbrev pub scan_chunk : Axes → Chunk p.Cell → Scan → Scan
  scan_chunk a chunk s = record {
    row_count = s.row_count + chunk.length_of_chunk;
    lat = widen_by (map p.to_numeric) (read_column a.lat_col chunk) s.lat;
    lon = widen_by (map p.to_numeric) (read_column a.lon_col chunk) s.lon;
    time = widen_by p.to_datetime (read_column a.time_col chunk) s.time;
    depth = widen_by (map p.to_numeric) (read_column a.depth_col chunk) s.depth;
  }

  unfoldable pub scan_chunks : Axes → List (Chunk p.Cell) → Scan → Scan
  scan_chunks a [] s = s
  scan_chunks a (chunk ∷ chunks) s = scan_chunks a chunks (scan_chunk a chunk s)

abbrev pub is_name : Option Text → Text → Bool
is_name none c = false
is_name (some n) c = text_eq n c

-- `c in (lat_col, lon_col, time_col, depth_col)`
abbrev pub is_axis : Axes → Text → Bool
is_axis a c =
    is_name a.lat_col c || is_name a.lon_col c || is_name a.time_col c || is_name a.depth_col c

-- `"assumed_positive_down" if depth_min >= 0 else "assumed_negative_up"`
abbrev pub convention_of : ℤ → DepthConvention
convention_of m =
    if ltb_ℤ m (pos 0)
    then DepthConvention.assumed_negative_up
    else DepthConvention.assumed_positive_down

abbrev pub depth_convention_of : Option Text → (depth_min : Option ℤ) → Option DepthConvention
depth_convention_of none m = none
depth_convention_of (some c) none = none
depth_convention_of (some c) (some m) = some (convention_of m)

abbrev pub map_option {ℓ κ} : {A : Type ℓ} {B : Type κ} → (A → B) → Option A → Option B
map_option f none = none
map_option f (some a) = some (f a)

unfoldable pub metadata_of : (date_of : ℤ → ℕ) → (columns : List Text) → Axes → Scan → CsvMetadata
metadata_of date_of cs a s = record {
  variables = filter (λ c. not (is_axis a c)) cs;
  rows = s.row_count;
  spatial_lat_min = s.lat.lowest;
  spatial_lat_max = s.lat.highest;
  spatial_lon_min = s.lon.lowest;
  spatial_lon_max = s.lon.highest;
  temporal_start = map_option date_of s.time.lowest;
  temporal_end = map_option date_of s.time.highest;
  record_count = s.row_count;
  columns = cs;
  axes = a;
  depth_min = s.depth.lowest;
  depth_max = s.depth.highest;
  depth_convention = depth_convention_of a.depth_col s.depth.lowest;
}

-- The pass over the chunks; a chunk that cannot be read is a ParserError.
unfoldable pub parse_rows :
    (p : Pandas) → List Text → Option (List (Chunk p.Cell)) → Parsed CsvMetadata
parse_rows p columns none = Parsed.parser_error
parse_rows p columns (some chunks) =
    let a = axes_of p columns in
    Parsed.ok (metadata_of p.date_of columns a (scan_chunks p a chunks no_scan))

-- The sample first: a file that is no CSV, or has no columns, is a ParserError.
unfoldable pub parse_sample : (p : Pandas) → Option (List Text) → Parsed CsvMetadata
parse_sample p none = Parsed.parser_error
parse_sample p (some []) = Parsed.parser_error
parse_sample p (some (c ∷ cs)) = parse_rows p (c ∷ cs) p.chunks

abbrev pub parse : Pandas → Parsed CsvMetadata
parse p = parse_sample p p.sample_columns
