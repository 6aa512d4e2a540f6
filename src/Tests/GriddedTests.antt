-- ===== src/Tests/GriddedTests.antt =====
-- A grid of two by two cells at three instants of two days: its counts under filters, and a preview.
use bodp_app.Prelude.{
  ℕ, ◌≡◌, refl, Bool, true, false, Option, none, some, List, [], ◌∷◌, All, is_some,
}
use bodp_app.Prelude.Int.{ℤ, pos}
use bodp_app.Catalog.{RecordsFilter, Spatial, PreviewRow, sql_matches, filter, take}
use bodp_app.Catalog.Gridded.{
  GridCell, Slice, Variable, Grid, grid_counts, grid_records, names_of, filtered, find_var,
  map_slices, mask_cells, is_kept, count_cells, count_slices, size_of, sum_vars, flat_values,
  cell_values, var_names,
}
use bodp_app.Catalog.Gridded.Cells.{
  box_contains, OnlyPlaceAndTime, HasTimes, AllHaveTimes, matching_values,
}
use bodp_app.Catalog.Gridded.Sql.{grid_counts-sql_matches}
use bodp_app.Catalog.Gridded.Missing.{
  AllFloat64, BeginsMissing, grid_records-have_values, grid_records-shows_missing,
}
use bodp_app.Tests.CatalogTests.{no_filter}

abbrev cell : (row col : ℕ) → GridCell
cell row col = record { row = row; col = col; lat = pos row; lon = pos col }

abbrev slice : ℕ → Option ℤ → Slice
slice t corner = record {
  time = some t;
  cells =
      (cell 0 0, corner)
      ∷ (cell 0 1, some (pos 21))
      ∷ (cell 1 0, none)
      ∷ (cell 1 1, some (pos 22))
      ∷ [];
}

abbrev sst : (is_float32 : Bool) → Variable
sst is_float32 = record {
  name = "temperature";
  is_float32 = is_float32;
  slices = slice 86400 none ∷ slice 90000 (some (pos 5)) ∷ slice 180000 none ∷ [];
}

abbrev grid : (is_float32 : Bool) → Grid
grid is_float32 = record {
  has_lat_lon = true;
  times = some (86400 ∷ 90000 ∷ 180000 ∷ []);
  data_vars = sst is_float32 ∷ [];
}

-- The cell at row 0, column 1, until the end of day 1.
abbrev corner_filter : RecordsFilter
corner_filter = record no_filter {
  date_to = some 1;
  depth_max = none;
  source = none;
  lat_min = some (pos 0);
  lat_max = some (pos 0);
  lon_min = some (pos 1);
  lon_max = some (pos 7);
}

abbrev wide_filter : RecordsFilter
wide_filter = record no_filter { date_to = none; depth_max = none; source = none }

corner_counts : grid_counts corner_filter [] (grid true) ≡ (2, 12)
unfolding grid_counts sum_vars find_var filtered filter map_slices mask_cells is_kept count_cells
    count_slices size_of var_names
corner_counts = refl

wide_counts : grid_counts wide_filter ("temperature" ∷ "salinity" ∷ []) (grid true) ≡ (7, 12)
unfolding grid_counts sum_vars find_var filtered filter map_slices mask_cells is_kept count_cells
    count_slices size_of var_names
wide_counts = refl

abbrev box : Spatial
box = record { postgis = box_contains; duckdb = box_contains; agree = λ e p. refl }

corner-OnlyPlaceAndTime : OnlyPlaceAndTime corner_filter
corner-OnlyPlaceAndTime = record {
  quality = refl;
  depth_min = refl;
  depth_max = refl;
  source = refl;
  platform = refl;
  station = refl;
  format = refl;
  level = refl;
}

grid-AllHaveTimes : AllHaveTimes (grid true).data_vars
unfolding AllHaveTimes HasTimes
grid-AllHaveTimes = ((refl, (refl, (refl, tt))), tt)

grid_counts-sql_matches_example :
    (grid_counts corner_filter [] (grid true)).0
    ≡ matching_values
        (sql_matches box [] corner_filter)
        (grid true).data_vars
        (names_of [] (grid true))
grid_counts-sql_matches_example =
    grid_counts-sql_matches box [] corner_filter corner-OnlyPlaceAndTime (λ e p. refl) (grid true)
      refl [] grid-AllHaveTimes

grid-BeginsMissing : BeginsMissing wide_filter [] (grid true)
unfolding find_var filtered filter take flat_values cell_values var_names
grid-BeginsMissing = record {
  name = "temperature";
  others = [];
  wanted = refl;
  variable = sst true;
  found = refl;
  single = refl;
  later =
      some (pos 21)
      ∷ none
      ∷ some (pos 22)
      ∷ some (pos 5)
      ∷ some (pos 21)
      ∷ none
      ∷ some (pos 22)
      ∷ none
      ∷ some (pos 21)
      ∷ none
      ∷ some (pos 22)
      ∷ [];
  begins = refl;
}

grid_records-shows_missing_example :
    (row : PreviewRow) × (rest : List PreviewRow) × ((grid_records wide_filter [] none "nc" 100
        (grid true)).preview
      ≡ row ∷ rest)
    × (row.value ≡ none)
grid_records-shows_missing_example =
    grid_records-shows_missing wide_filter [] none "nc" 99 (grid true) grid-BeginsMissing

grid-AllFloat64 : AllFloat64 (grid false).data_vars
unfolding AllFloat64
grid-AllFloat64 = (refl, tt)

grid_records-have_values_example :
    All
      (λ r. is_some r.value ≡ true)
      (grid_records wide_filter [] none "nc" 100 (grid false)).preview
grid_records-have_values_example =
    grid_records-have_values wide_filter [] none "nc" 100 (grid false) grid-AllFloat64
