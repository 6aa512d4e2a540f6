-- ===== src/Scope/Mask.antt =====
-- `apply_scope_mask`: which rows of a file an extraction keeps. A row is seen through what pandas
-- reads from its cells.
use bodp_app.Prelude.{
  ℕ, ◌≤◌, ◌≡◌, Bool, true, false, not, ◌&&◌, Option, none, some, String, str_eq, List, [], ◌∷◌, map,
  leb, if◌then◌else◌,
}
use bodp_app.Prelude.Int.{ℤ, ltb_ℤ}
use bodp_app.Scope.Criteria.{
  Bounds, SearchCriteria, truthy, items, is_cons, contains, text_ltb, is_iso_date,
}

-- What the filter uses of pandas and of Python's Unicode tables: `to_datetime` and `to_numeric`
-- with `errors="coerce"` (`none` is NaT or NaN), `astype(str)`, `pd.Timestamp`, `str.lower`. Of
-- these the proofs assume one law: ISO dates in the order of their texts are in order of time.
pub record Pandas : Type 1 where
  pub Cell : Type 0
  pub to_datetime : Cell → Option ℕ
  pub to_numeric : Cell → Option ℤ
  pub to_str : Cell → String
  pub timestamp : String → ℕ
  pub lower : String → String
  pub timestamp_mono :
      (s t : String)
      → is_iso_date s ≡ true
      → is_iso_date t ≡ true
      → text_ltb t s ≡ false
      → timestamp s ≤ timestamp t

-- Comparisons with a missing value are false.
abbrev pub at_least : ℕ → Option ℕ → Bool
at_least bound none = false
at_least bound (some t) = leb bound t

abbrev pub at_most : ℕ → Option ℕ → Bool
at_most bound none = false
at_most bound (some t) = leb t bound

abbrev pub at_least_ℤ : ℤ → Option ℤ → Bool
at_least_ℤ bound none = false
at_least_ℤ bound (some x) = not (ltb_ℤ x bound)

abbrev pub at_most_ℤ : ℤ → Option ℤ → Bool
at_most_ℤ bound none = false
at_most_ℤ bound (some x) = not (ltb_ℤ bound x)

module _ (pd : Pandas) where
  open pd use {Cell, to_datetime, to_numeric, to_str, timestamp, lower}

  -- `{c.lower(): c for c in columns}[alias]`: of two such columns the later one
  pub last_lowered : String → List String → Option String
  last_lowered alias [] = none
  last_lowered alias (c ∷ cs) =
      let here = if str_eq (lower c) alias then some c else none in
      elim (last_lowered alias cs) [ some d ↦ some d | none ↦ here ]

  -- `_find_column`
  unfoldable pub find_column : List String → List String → Option String
  unfolding last_lowered
  find_column columns [] = none
  find_column columns (alias ∷ rest) = elim (last_lowered alias columns) [
    | some c ↦ some c
    | none ↦ find_column columns rest
  ]

  abbrev pub Row : Type 0
  Row = String → Cell

  -- The cell of the first column that one of the names fits.
  abbrev pub cell : List String → List String → Row → Option Cell
  cell columns aliases row = elim (find_column columns aliases) [
    | none ↦ none
    | some c ↦ some (row c)
  ]

  abbrev pub from_ok : Option String → Option ℕ → Bool
  from_ok none t = true
  from_ok (some s) t = if truthy (some s) then at_least (timestamp s) t else true

  abbrev pub until_ok : Option String → Option ℕ → Bool
  until_ok none t = true
  until_ok (some s) t = if truthy (some s) then at_most (timestamp s) t else true

  -- The source converts the whole column at once; here each cell is converted as it is there.
  abbrev pub time_ok : SearchCriteria → Option Cell → Bool
  time_ok scope none = true
  time_ok scope (some x) =
      from_ok scope.date_from (to_datetime x) && until_ok scope.date_to (to_datetime x)

  -- One axis of the bounding box.
  abbrev pub axis_ok : ℤ → ℤ → Option Cell → Bool
  axis_ok lo hi none = true
  axis_ok lo hi (some x) = at_least_ℤ lo (to_numeric x) && at_most_ℤ hi (to_numeric x)

  abbrev pub bounds_ok : Option Bounds → Option Cell → Option Cell → Bool
  bounds_ok none lat lon = true
  bounds_ok (some b) lat lon = axis_ok b.lat_min b.lat_max lat && axis_ok b.lon_min b.lon_max lon

  abbrev pub min_ok : Option ℤ → Option ℤ → Bool
  min_ok none x = true
  min_ok (some lo) x = at_least_ℤ lo x

  abbrev pub max_ok : Option ℤ → Option ℤ → Bool
  max_ok none x = true
  max_ok (some hi) x = at_most_ℤ hi x

  abbrev pub depth_ok : SearchCriteria → Option Cell → Bool
  depth_ok scope none = true
  depth_ok scope (some x) =
      min_ok scope.depth_min (to_numeric x) && max_ok scope.depth_max (to_numeric x)

  -- An exact match up to case.
  abbrev pub text_ok : Option String → Option Cell → Bool
  text_ok v none = true
  text_ok none (some x) = true
  text_ok (some v) (some x) = if truthy (some v) then str_eq (lower (to_str x)) (lower v) else true

  abbrev pub parameters_ok : List String → Option Cell → Bool
  parameters_ok ps none = true
  parameters_ok ps (some x) =
      if is_cons ps then contains (map lower ps) (lower (to_str x)) else true

  -- The mask at one row.
  unfoldable pub keeps : SearchCriteria → List String → Row → Bool
  keeps scope columns row =
      let at = λ (aliases : List String). cell columns aliases row in
      time_ok scope (at ("time" ∷ "date" ∷ "datetime" ∷ "timestamp" ∷ []))
      && bounds_ok scope.bounds (at ("lat" ∷ "latitude" ∷ "y" ∷ []))
          (at ("lon" ∷ "lng" ∷ "longitude" ∷ "x" ∷ []))
      && depth_ok scope (at ("depth_m" ∷ "depth" ∷ []))
      && text_ok scope.source (at ("source" ∷ []))
      && text_ok scope.quality (at ("quality_flag" ∷ "quality" ∷ []))
      && text_ok scope.platform (at ("platform" ∷ []))
      && text_ok scope.station (at ("station" ∷ []))
      && text_ok scope.format (at ("format" ∷ []))
      && text_ok scope.processing_level (at ("processing_level" ∷ []))
      && parameters_ok (items scope.parameters) (at ("parameter" ∷ "variable" ∷ []))

  unfoldable pub apply_scope_mask : SearchCriteria → List String → List Row → List Row
  apply_scope_mask scope columns [] = []
  apply_scope_mask scope columns (row ∷ rows) =
      let rest = apply_scope_mask scope columns rows in
      if keeps scope columns row then row ∷ rest else rest
