-- ===== src/Tests/CsvTests.antt =====
-- A CSV of two chunks, and what is found in it.
use bodp_app.Prelude.{ℕ, ◌≡◌, refl, Option, none, some, List, [], ◌∷◌, if◌then◌else◌, length}
use bodp_app.Prelude.Int.{ℤ, pos, negsuc}
use bodp_app.Scope.{codes}
use bodp_app.Storage.{Text, text_eq}
use bodp_app.Catalog.{filter}
use bodp_app.Parsers.Sniff.{Parsed, lower}
use bodp_app.Parsers.Csv.{
  Chunk, Pandas, CsvMetadata, DepthConvention, lowered, find_column, dropna, col_fold, read_column,
  widen_by, scan_chunks, metadata_of, parse_rows, parse_sample, parse,
}
use bodp_app.Parsers.Chunks.{cells_of, count_rows}
use bodp_app.Parsers.Cuts.{SameFile, AgreesWith, parse_rows-AgreesWith}
use bodp_app.Parsers.Extents.{IsExtent, parse-IsExtent}

abbrev chunk_of : ℕ → (lats depths : List (Option ℤ)) → Chunk (Option ℤ)
chunk_of n lats depths = record {
  length_of_chunk = n;
  cells = λ name.
      if text_eq name (codes "Lat")
      then some lats
      else if text_eq name (codes "Depth_m")
      then some depths
      else none;
}

abbrev two_chunks : List (Chunk (Option ℤ))
two_chunks =
    chunk_of 3 (some (pos 9) ∷ none ∷ some (pos 14) ∷ []) (none ∷ none ∷ none ∷ [])
    ∷ chunk_of 1 (some (negsuc 4) ∷ []) (some (pos 30) ∷ [])
    ∷ []

abbrev small_csv : Pandas
small_csv = record {
  Cell = Option ℤ;
  sample_columns = some (codes "Lat" ∷ codes "Depth_m" ∷ codes "Salinity" ∷ []);
  chunks = some two_chunks;
  to_numeric = λ cell. cell;
  to_datetime = λ cells. [];
  date_of = λ t. 0;
  lower_of = lower;
}

abbrev small_metadata : CsvMetadata
small_metadata = record {
  variables = codes "Salinity" ∷ [];
  rows = 4;
  spatial_lat_min = some (negsuc 4);
  spatial_lat_max = some (pos 14);
  spatial_lon_min = none;
  spatial_lon_max = none;
  temporal_start = none;
  temporal_end = none;
  record_count = 4;
  columns = codes "Lat" ∷ codes "Depth_m" ∷ codes "Salinity" ∷ [];
  axes = record {
    lat_col = some (codes "Lat");
    lon_col = none;
    time_col = none;
    depth_col = some (codes "Depth_m");
  };
  depth_min = some (pos 30);
  depth_max = some (pos 30);
  depth_convention = some DepthConvention.assumed_positive_down;
}

parse_small : parse small_csv ≡ Parsed.ok small_metadata
unfolding parse_sample parse_rows metadata_of scan_chunks widen_by read_column dropna col_fold
    find_column lowered lower text_eq filter
parse_small = refl

parse-IsExtent_example :
    (chunks : List (Chunk (Option ℤ))) × (some two_chunks ≡ some chunks)
    × IsExtent small_csv chunks small_metadata
parse-IsExtent_example = parse-IsExtent small_csv small_metadata parse_small

-- Chunks whose columns all hold the same cells.
abbrev flat : List (Option ℤ) → Chunk (Option ℤ)
flat cells = record { length_of_chunk = length cells; cells = λ name. some cells }

abbrev in_two : List (Chunk (Option ℤ))
in_two = flat (some (pos 9) ∷ none ∷ []) ∷ flat (some (negsuc 4) ∷ []) ∷ []

abbrev in_one : List (Chunk (Option ℤ))
in_one = flat (some (pos 9) ∷ none ∷ some (negsuc 4) ∷ []) ∷ []

same_cells : (name : Option Text) → cells_of name in_two ≡ cells_of name in_one
unfolding cells_of read_column
same_cells none = refl
same_cells (some []) = refl
same_cells (some (c ∷ cs)) = refl

same_file : SameFile in_two in_one
unfolding count_rows
same_file = record { cells = same_cells; rows = refl }

abbrev lat_only : CsvMetadata
lat_only = record {
  variables = [];
  rows = 3;
  spatial_lat_min = some (negsuc 4);
  spatial_lat_max = some (pos 9);
  spatial_lon_min = none;
  spatial_lon_max = none;
  temporal_start = none;
  temporal_end = none;
  record_count = 3;
  columns = codes "Lat" ∷ [];
  axes = record { lat_col = some (codes "Lat"); lon_col = none; time_col = none; depth_col = none };
  depth_min = none;
  depth_max = none;
  depth_convention = none;
}

parse_two : parse_rows small_csv (codes "Lat" ∷ []) (some in_two) ≡ Parsed.ok lat_only
unfolding parse_rows metadata_of scan_chunks widen_by read_column dropna col_fold find_column
    lowered lower text_eq filter
parse_two = refl

parse_one : parse_rows small_csv (codes "Lat" ∷ []) (some in_one) ≡ Parsed.ok lat_only
unfolding parse_rows metadata_of scan_chunks widen_by read_column dropna col_fold find_column
    lowered lower text_eq filter
parse_one = refl

parse_rows-AgreesWith_example : AgreesWith lat_only lat_only
parse_rows-AgreesWith_example =
    parse_rows-AgreesWith small_csv (codes "Lat" ∷ []) in_two in_one lat_only lat_only same_file
      parse_two parse_one
