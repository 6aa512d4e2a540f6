-- ===== src/Catalog/Gridded.antt =====
-- A Zarr store as xarray opens it (backend/app/services/gridded_query_service.py): the filters, the
-- counts and the preview of one file. A missing value is a NaN, here `none`; coordinates and values
-- are whole multiples of a unit. The instants of a grid are in order.
pub mod Bounds
pub mod Cells
pub mod Sql
pub mod Missing
use bodp_app.Prelude.{
  ℕ, zero, suc, ◌+◌, ◌-◌, Bool, true, false, not, ◌&&◌, ◌||◌, Option, none, some, String, str_eq,
  List, [], ◌∷◌, ◌++◌, leb, ◌==◌, if◌then◌else◌, length, any, is_some,
}
use bodp_app.Prelude.Int.{ℤ, ltb_ℤ}
use bodp_app.Scope.{contains, items, is_cons}
use bodp_app.Catalog.Filter.{RecordsFilter, Envelope, envelope}
use bodp_app.Catalog.Tabular.{time_ge, time_lt}
use bodp_app.Catalog.Preview.{PreviewRow, Breakdown, FilteredRecords, filter, day_of, take}

-- Where a cell stands in the grid and on the globe.
pub record GridCell : Type 0 where
  pub row : ℕ
  pub col : ℕ
  pub lat : ℤ
  pub lon : ℤ

-- The values of a variable at one instant, or at none, in the order of the cells.
pub record Slice : Type 0 where
  pub time : Option ℕ
  pub cells : List (GridCell × Option ℤ)

pub record Variable : Type 0 where
  pub name : String
  pub is_float32 : Bool
  pub slices : List Slice

-- `times` is the coordinate `time`, if there is one.
pub record Grid : Type 0 where
  pub has_lat_lon : Bool
  pub times : Option (List ℕ)
  pub data_vars : List Variable

-- `ds[name]`
unfoldable pub find_var : String → List Variable → Option Variable
find_var name [] = none
find_var name (v ∷ vs) = let rest = find_var name vs in if str_eq v.name name then some v else rest

abbrev pub in_envelope : Envelope → GridCell → Bool
in_envelope e c =
    not (ltb_ℤ c.lat e.lat_min)
    && not (ltb_ℤ e.lat_max c.lat)
    && not (ltb_ℤ c.lon e.lon_min)
    && not (ltb_ℤ e.lon_max c.lon)

-- `drop=True`: a row or a column of the grid with no cell inside goes.
unfoldable pub is_kept : Envelope → List (GridCell × Option ℤ) → GridCell × Option ℤ → Bool
is_kept e cells c =
    any (λ (d : GridCell × Option ℤ). d.0.row == c.0.row && in_envelope e d.0) cells
    && any (λ (d : GridCell × Option ℤ). d.0.col == c.0.col && in_envelope e d.0) cells

-- Outside the envelope a value becomes a NaN.
unfoldable pub mask_cells :
    Envelope
    → (kept : GridCell × Option ℤ → Bool) → List (GridCell × Option ℤ)
    → List (GridCell × Option ℤ)
mask_cells e kept [] = []
mask_cells e kept (c ∷ cs) =
    let rest = mask_cells e kept cs in
    if kept c then (c.0, if in_envelope e c.0 then c.1 else none) ∷ rest else rest

abbrev pub where_inside : Envelope → Slice → Slice
where_inside e s = record s { cells = mask_cells e (is_kept e s.cells) s.cells }

unfoldable pub map_slices : (Slice → Slice) → List Slice → List Slice
map_slices g [] = []
map_slices g (s ∷ ss) = g s ∷ map_slices g ss

-- `_apply_bbox`, on a variable
abbrev pub apply_envelope : Option Envelope → List Slice → List Slice
apply_envelope none ss = ss
apply_envelope (some e) ss = map_slices (where_inside e) ss

abbrev pub apply_bbox : RecordsFilter → Grid → List Slice → List Slice
apply_bbox f g ss = if g.has_lat_lon then apply_envelope (envelope f) ss else ss

-- `slice(str(date_from), None)` and `slice(None, str(date_to))`: whole days
abbrev pub in_range : RecordsFilter → ℕ → Bool
in_range f t = time_ge f.date_from (some t) && time_lt f.date_to (some t)

abbrev pub slice_in_range : RecordsFilter → Slice → Bool
slice_in_range f s = elim s.time [ none ↦ true | some t ↦ in_range f t ]

-- `filtered[var]`
unfoldable pub filtered : RecordsFilter → Grid → Variable → List Slice
filtered f g v = filter (slice_in_range f) (apply_bbox f g v.slices)

-- `.count()`
unfoldable pub count_cells : List (GridCell × Option ℤ) → ℕ
count_cells [] = 0
count_cells (c ∷ cs) = (if is_some c.1 then 1 else 0) + count_cells cs

unfoldable pub count_slices : List Slice → ℕ
count_slices [] = 0
count_slices (s ∷ ss) = count_cells s.cells + count_slices ss

-- `np.prod(shape)`
unfoldable pub size_of : List Slice → ℕ
size_of [] = 0
size_of (s ∷ ss) = length s.cells + size_of ss

-- A sum over the names that the store has.
unfoldable pub sum_vars : (Variable → ℕ) → List Variable → (names : List String) → ℕ
sum_vars m vs [] = 0
sum_vars m vs (n ∷ ns) = elim (find_var n vs) [ none ↦ 0 | some v ↦ m v ] + sum_vars m vs ns

unfoldable pub var_names : List Variable → List String
var_names [] = []
var_names (v ∷ vs) = v.name ∷ var_names vs

-- `variables`
abbrev pub names_of : (registered : List String) → Grid → List String
names_of registered g = if is_cons registered then registered else var_names g.data_vars

-- `not f.parameters or v in f.parameters`
abbrev pub is_wanted : RecordsFilter → String → Bool
is_wanted f name = not (is_cons (items f.parameters)) || contains (items f.parameters) name

abbrev pub selected_vars : RecordsFilter → List String → List String
selected_vars f names = filter (is_wanted f) names

-- `f.parameters and not (set(f.parameters) & set(variables))`
abbrev pub wants_none : RecordsFilter → List String → Bool
wants_none f names =
    is_cons (items f.parameters) && not (any (λ n. contains (items f.parameters) n) names)

-- `get_matching_record_counts`
unfoldable pub grid_counts : RecordsFilter → (registered : List String) → Grid → ℕ × ℕ
grid_counts f registered g =
    let names = names_of registered g in
    let total = sum_vars (λ v. size_of v.slices) g.data_vars names in
    let matching =
      sum_vars (λ v. count_slices (filtered f g v)) g.data_vars (selected_vars f names) in
    if wants_none f names then (0, total) else (matching, total)

-- `.values.ravel()`
unfoldable pub cell_values : List (GridCell × Option ℤ) → List (Option ℤ)
cell_values [] = []
cell_values (c ∷ cs) = c.1 ∷ cell_values cs

unfoldable pub flat_values : List Slice → List (Option ℤ)
flat_values [] = []
flat_values (s ∷ ss) = cell_values s.cells ++ flat_values ss

abbrev pub head {ℓ} : {A : Type ℓ} → List A → Option A
head [] = none
head (x ∷ xs) = some x

-- The day of `filtered["time"].values[0]`
abbrev pub row_time : RecordsFilter → Option (List ℕ) → Option ℕ
row_time f none = none
row_time f (some times) = day_of (head (filter (in_range f) times))

-- `isinstance(value, float) and np.isnan(value)`: a `np.float32` is no `float`, a `np.float64` is.
abbrev pub is_skipped : (is_float32 : Bool) → Option ℤ → Bool
is_skipped is_float32 value = not is_float32 && not (is_some value)

module _ (units : Option String) (format : String) (limit : ℕ) (time : Option ℕ) where
  abbrev pub grid_row : (parameter : String) → Option ℤ → PreviewRow
  grid_row parameter value = record {
    time = time;
    location = none;
    depth_m = none;
    parameter = parameter;
    value = value;
    unit = units;
    platform = none;
    format = some format;
    processing_level = none;
    quality_flag = "normal";
  }

  -- The loop over the values of a variable.
  unfoldable pub add_values : Variable → List (Option ℤ) → List PreviewRow → List PreviewRow
  add_values v [] acc = acc
  add_values v (x ∷ xs) acc =
      let more =
        add_values v xs
          (if is_skipped v.is_float32 x then acc else acc ++ (grid_row v.name x ∷ [])) in
      if leb limit (length acc) then acc else more

  module _ (f : RecordsFilter) (g : Grid) where
    -- The loop over the variables, which a variable that the store has not ends. The first three
    -- instants are read.
    unfoldable pub preview_rows : (names : List String) → List PreviewRow → List PreviewRow
    preview_rows [] acc = acc
    preview_rows (n ∷ ns) acc = elim (find_var n g.data_vars) [
      | none ↦ acc
      | some v ↦
          let more = preview_rows ns (add_values v (flat_values (take 3 (filtered f g v))) acc) in
          if leb limit (length acc) then acc else more
    ]

-- `get_filtered_records`
unfoldable pub grid_records :
    RecordsFilter
    → (registered : List String) → (units : Option String) → (format : String) → (preview_limit : ℕ)
    → Grid
    → FilteredRecords
grid_records f registered units format limit g = record {
  preview =
      preview_rows units format limit (row_time f g.times) f g
        (selected_vars f (names_of registered g)) [];
  matching = (grid_counts f registered g).0;
  total = (grid_counts f registered g).1;
  breakdown = record { normal = (grid_counts f registered g).0; caution = 0; alert = 0 };
}
