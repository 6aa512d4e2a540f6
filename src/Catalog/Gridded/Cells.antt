-- ===== src/Catalog/Gridded/Cells.antt =====
-- The values of a grid as rows of the database, and what the cut to an envelope leaves of them.
use bodp_app.Prelude.{
  ℕ, ◌+◌, ◌≡◌, refl, Bool, true, not, false, ◌&&◌, ◌==◌, Option, none, some, String, List, [], ◌∷◌,
  any, is_some, arith, Bool-cases, inl, inr, if◌then◌else◌, In, ||-true, ==_refl,
}
use bodp_app.Prelude.Int.{ℤ, ltb_ℤ}
use bodp_app.Models.{DatasetRecord}
use bodp_app.Catalog.Filter.{RecordsFilter, Spatial, Envelope}
use bodp_app.Catalog.Preview.{day_of}
use bodp_app.Catalog.Gridded.{
  GridCell, Slice, Variable, find_var, in_envelope, mask_cells, where_inside, count_cells, is_kept,
}

-- The value of a cell as a row of the database.
abbrev pub record_of_cell : String → Option ℕ → GridCell → ℤ → DatasetRecord
record_of_cell name time c value = record {
  dataset_id = 0;
  dataset_file_id = none;
  time = day_of time;
  depth_m = none;
  location = none;
  station_id = none;
  parameter = name;
  value = value;
  unit = none;
  quality_flag = "normal";
  processing_level = none;
  format = none;
  source = none;
  platform = none;
  geom = some (c.lon, c.lat);
}

module _ (matches : DatasetRecord → Bool) where
  abbrev pub value_matches : String → Option ℕ → GridCell × Option ℤ → Bool
  value_matches name time c = elim (c.1) [
    | none ↦ false
    | some x ↦ matches (record_of_cell name time c.0 x)
  ]

  -- How many values are there that are not missing and that a test of rows selects.
  unfoldable pub matching_cells : String → Option ℕ → List (GridCell × Option ℤ) → ℕ
  matching_cells name time [] = 0
  matching_cells name time (c ∷ cs) =
      (if value_matches name time c then 1 else 0) + matching_cells name time cs

  unfoldable pub matching_slices : String → List Slice → ℕ
  matching_slices name [] = 0
  matching_slices name (s ∷ ss) = matching_cells name s.time s.cells + matching_slices name ss

  -- Over the variables of the file, by name.
  unfoldable pub matching_values : List Variable → (names : List String) → ℕ
  matching_values vs [] = 0
  matching_values vs (n ∷ ns) =
      elim (find_var n vs) [ none ↦ 0 | some v ↦ matching_slices n v.slices ]
      + matching_values vs ns

-- A filter on parameters, place and time alone.
pub record OnlyPlaceAndTime (f : RecordsFilter) : Type 0 where
  pub quality : f.quality ≡ none
  pub depth_min : f.depth_min ≡ none
  pub depth_max : f.depth_max ≡ none
  pub source : f.source ≡ none
  pub platform : f.platform ≡ none
  pub station : f.station ≡ none
  pub format : f.format ≡ none
  pub level : f.processing_level ≡ none

-- A point in an envelope, whose sides belong to it.
abbrev pub box_contains : Envelope → ℤ × ℤ → Bool
box_contains e (lon, lat) =
    not (ltb_ℤ lat e.lat_min)
    && not (ltb_ℤ e.lat_max lat)
    && not (ltb_ℤ lon e.lon_min)
    && not (ltb_ℤ e.lon_max lon)

-- `ST_Intersects` of a point with an envelope.
abbrev pub IsClosedBox : Spatial → Type 0
IsClosedBox sp = (e : Envelope) (p : ℤ × ℤ) → sp.postgis e p ≡ box_contains e p

unfoldable pub HasTimes : List Slice → Type 0
HasTimes [] = Unit
HasTimes (s ∷ ss) = (is_some s.time ≡ true) × HasTimes ss

unfoldable pub AllHaveTimes : List Variable → Type 0
AllHaveTimes [] = Unit
AllHaveTimes (v ∷ vs) = HasTimes v.slices × AllHaveTimes vs

abbrev pub box_matches : Option Envelope → GridCell → Bool
box_matches none c = true
box_matches (some e) c = in_envelope e c

-- The values in a box that are not missing.
unfoldable pub count_box : Option Envelope → List (GridCell × Option ℤ) → ℕ
count_box e [] = 0
count_box e (c ∷ cs) = (if is_some c.1 && box_matches e c.0 then 1 else 0) + count_box e cs

pub count_box-none : (cs : List (GridCell × Option ℤ)) → count_box none cs ≡ count_cells cs
unfolding count_box count_cells
count_box-none [] = refl
count_box-none (c ∷ cs) = ground (arith, count_box-none cs)

any-In {ℓ} :
    {A : Type ℓ} (p : A → Bool) {x : A} (xs : List A) → In x xs → p x ≡ true → any p xs ≡ true
any-In p [] m h = elim m [ ]
any-In p (x ∷ xs) (In.here _) h = rw h refl
any-In p (y ∷ xs) (In.there _ _ m) h = rw (any-In p xs m h) (||-true (p y))

module _ (e : Envelope) where
  -- A cell inside is kept.
  inside_is_kept :
      (cells : List (GridCell × Option ℤ)) (c : GridCell × Option ℤ)
      → In c cells
      → in_envelope e c.0 ≡ true
      → is_kept e cells c ≡ true
  unfolding is_kept
  inside_is_kept cells c m h =
      rw
        (
          any-In (λ (d : GridCell × Option ℤ). d.0.row == c.0.row && in_envelope e d.0) cells m
              (rw (==_refl c.0.row, h) refl),
          any-In (λ (d : GridCell × Option ℤ). d.0.col == c.0.col && in_envelope e d.0) cells m
              (rw (==_refl c.0.col, h) refl),
        )
        refl

  count-mask_cells :
      (kept : GridCell × Option ℤ → Bool) (cs : List (GridCell × Option ℤ))
      → ((c : GridCell × Option ℤ) → In c cs → in_envelope e c.0 ≡ true → kept c ≡ true)
      → count_cells (mask_cells e kept cs) ≡ count_box (some e) cs
  unfolding count_cells mask_cells count_box
  count-mask_cells kept [] h = refl
  count-mask_cells kept (c ∷ cs) h =
      let ih = count-mask_cells kept cs (λ d m. h d (In.there c cs m)) in
      elim (Bool-cases (in_envelope e c.0)) [
        | inl i ↦ rw (h c (In.here cs) i, i) (ground (arith, ih))
        | inr o ↦ ground (arith, o, ih)
      ]

  pub count-where_inside :
      (s : Slice) → count_cells (where_inside e s).cells ≡ count_box (some e) s.cells
  count-where_inside s = count-mask_cells (is_kept e s.cells) s.cells (inside_is_kept s.cells)
