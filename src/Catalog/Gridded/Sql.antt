-- ===== src/Catalog/Gridded/Sql.antt =====
-- The values of a grid that are counted, against the rows of the database that the same filter
-- selects.
use mathlib.Core.Bool.{and_assoc}
use bodp_app.Prelude.{
  ℕ, ◌≡◌, refl, sym, ap, ◌∙◌, subst, Bool, true, false, ◌&&◌, Option, none, some, String, str_eq,
  List, [], ◌∷◌, any, is_some, arith, Option-cases, Bool-cases, inl, inr, if◌then◌else◌,
}
use bodp_app.Prelude.Int.{ℤ}
use bodp_app.Scope.{contains, items, is_cons}
use bodp_app.Table.{Table}
use bodp_app.Models.{DatasetRecord, Station}
use bodp_app.Catalog.Filter.{RecordsFilter, Spatial, Envelope, envelope, sql_matches, inside}
use bodp_app.Catalog.Preview.{filter}
use bodp_app.Catalog.Agreement.{from_day, until_day}
use bodp_app.Catalog.Gridded.{
  GridCell, Slice, Variable, Grid, find_var, map_slices, apply_envelope, where_inside, in_range,
  slice_in_range, filtered, count_cells, count_slices, sum_vars, names_of, is_wanted, selected_vars,
  wants_none, grid_counts,
}
use bodp_app.Catalog.Gridded.Cells.{
  record_of_cell, matching_cells, matching_slices, matching_values, OnlyPlaceAndTime, IsClosedBox,
  HasTimes, AllHaveTimes, box_matches, count_box, count_box-none, count-where_inside,
}

selected_none :
    (f : RecordsFilter) (names : List String)
    → is_cons (items f.parameters) ≡ true
    → any (λ n. contains (items f.parameters) n) names ≡ false
    → selected_vars f names ≡ []
unfolding filter
selected_none f [] c h = refl
selected_none f (n ∷ ns) c h = ground (arith, selected_none f ns)

wants_none-selected :
    (f : RecordsFilter) (names : List String)
    → wants_none f names ≡ true
    → selected_vars f names ≡ []
wants_none-selected f names w = selected_none f names (ground arith) (ground arith)

module _ (sp : Spatial) (stations : Table Station) (f : RecordsFilter) (only : OnlyPlaceAndTime f)
    (closed : IsClosedBox sp) where
  inside-box :
      (e : Option Envelope) (c : GridCell)
      → inside sp.postgis e (some (c.lon, c.lat)) ≡ box_matches e c
  inside-box none c = refl
  inside-box (some e) c = closed e (c.lon, c.lat)

  -- What such a filter asks of the value of a cell.
  sql_matches-cell :
      (name : String) (t : ℕ) (c : GridCell) (x : ℤ)
      → sql_matches sp stations f (record_of_cell name (some t) c x)
        ≡ (is_wanted f name && in_range f t && box_matches (envelope f) c)
  unfolding sql_matches
  sql_matches-cell name t c x = simp (
    only.quality,
    only.depth_min,
    only.depth_max,
    only.source,
    only.platform,
    only.station,
    only.format,
    only.level,
    from_day f.date_from (some t),
    until_day f.date_to (some t),
    inside-box,
    and_assoc,
  )

  abbrev selects : DatasetRecord → Bool
  selects = sql_matches sp stations f

  abbrev time_in_range : Option ℕ → Bool
  time_in_range time = elim time [ none ↦ true | some t ↦ in_range f t ]

  cells_lem :
      (name : String) (time : Option ℕ) (cs : List (GridCell × Option ℤ))
      → is_some time ≡ true
      → matching_cells selects name time cs
        ≡ (if is_wanted f name && time_in_range time then count_box (envelope f) cs else 0)
  unfolding matching_cells count_box
  cells_lem name none cs h = cc
  cells_lem name (some t) [] h = ground arith
  cells_lem name (some t) ((c, none) ∷ cs) h = ground (arith, cells_lem name (some t) cs h)
  cells_lem name (some t) ((c, some x) ∷ cs) h =
      ground (arith, sql_matches-cell name t c x, cells_lem name (some t) cs h)

  abbrev counted : Option Envelope → String → List Slice → ℕ
  counted e name ss =
      if is_wanted f name then count_slices (filter (slice_in_range f) (apply_envelope e ss)) else 0

  slice_lem :
      (e : Option Envelope) (name : String) (s t : Slice) (ss ts : List Slice)
      → envelope f ≡ e
      → is_some s.time ≡ true
      → t.time ≡ s.time
      → count_cells t.cells ≡ count_box e s.cells
      → matching_slices selects name ss
        ≡ (if is_wanted f name then count_slices (filter (slice_in_range f) ts) else 0)
      → matching_slices selects name (s ∷ ss)
        ≡ (if is_wanted f name then count_slices (filter (slice_in_range f) (t ∷ ts)) else 0)
  unfolding matching_slices count_slices filter
  slice_lem e name s t ss ts same timed times counts ih =
      let in_time = ap time_in_range times in
      elim (Bool-cases (is_wanted f name)) [
        | inr w ↦ ground (arith, w, ih, cells_lem name s.time s.cells timed)
        | inl w ↦ elim (Bool-cases (time_in_range s.time)) [
          | inl r ↦
              let here : matching_cells selects name s.time s.cells ≡ count_box e s.cells =
                cells_lem name s.time s.cells timed ∙ rw (w, r, same) refl in
              let later : matching_slices selects name ss
                  ≡ count_slices (filter (slice_in_range f) ts) =
                ih ∙ rw w refl in
              rw (in_time ∙ r, w) (omega (arith, here, later, counts))
          | inr r ↦
              let here : matching_cells selects name s.time s.cells ≡ 0 =
                cells_lem name s.time s.cells timed ∙ rw (w, r) refl in
              let later : matching_slices selects name ss
                  ≡ count_slices (filter (slice_in_range f) ts) =
                ih ∙ rw w refl in
              rw (in_time ∙ r, w) (omega (arith, here, later))
        ]
      ]

  slices_lem :
      (e : Option Envelope) (name : String) (ss : List Slice)
      → envelope f ≡ e
      → HasTimes ss
      → matching_slices selects name ss ≡ counted e name ss
  unfolding matching_slices count_slices filter map_slices HasTimes
  slices_lem none name [] same h = ground arith
  slices_lem (some e) name [] same h = ground arith
  slices_lem none name (s ∷ ss) same (timed, h) =
      slice_lem none name s s ss ss same timed refl (sym (count_box-none s.cells))
        (slices_lem none name ss same h)
  slices_lem (some e) name (s ∷ ss) same (timed, h) =
      slice_lem (some e) name s (where_inside e s) ss (apply_envelope (some e) ss) same timed refl
        (count-where_inside e s) (slices_lem (some e) name ss same h)

  module _ (g : Grid) (located : g.has_lat_lon ≡ true) where
    matching-filtered :
        (name : String) (v : Variable)
        → HasTimes v.slices
        → matching_slices selects name v.slices
          ≡ (if is_wanted f name then count_slices (filtered f g v) else 0)
    unfolding filtered
    matching-filtered name v h = slices_lem (envelope f) name v.slices refl h ∙ rw located refl

    find_var-HasTimes :
        (name : String) (vs : List Variable) (v : Variable)
        → AllHaveTimes vs
        → find_var name vs ≡ some v
        → HasTimes v.slices
    unfolding find_var AllHaveTimes
    find_var-HasTimes name [] v h e = cc
    find_var-HasTimes name (u ∷ vs) v (hu, h) e = elim (Bool-cases (str_eq u.name name)) [
      | inl t ↦ let same : u ≡ v = ground (arith, e, t) in subst (λ w. HasTimes w.slices) same hu
      | inr t ↦ find_var-HasTimes name vs v h (ground (arith, e, t))
    ]

    sum_vars_lem :
        (vs : List Variable) (names : List String)
        → AllHaveTimes vs
        → matching_values selects vs names
          ≡ sum_vars (λ v. count_slices (filtered f g v)) vs (selected_vars f names)
    unfolding matching_values sum_vars filter
    sum_vars_lem vs [] h = refl
    sum_vars_lem vs (n ∷ ns) h = elim (Option-cases (find_var n vs)) [
      | inl e ↦ ground (arith, e, sum_vars_lem vs ns h)
      | inr (v, e) ↦
          ground
            (arith, e, sum_vars_lem vs ns h, matching-filtered n v (find_var-HasTimes n vs v h e))
    ]

    -- The count of a gridded file is the number of its values, not missing, that the database would
    -- select as rows: under a filter on parameters, place and time, where the file has coordinates and
    -- each of its slices a time.
    pub grid_counts-sql_matches :
        (registered : List String)
        → AllHaveTimes g.data_vars
        → (grid_counts f registered g).0
          ≡ matching_values selects g.data_vars (names_of registered g)
    unfolding grid_counts sum_vars
    grid_counts-sql_matches registered h =
        let names = names_of registered g in
        elim (Bool-cases (wants_none f names)) [
          | inl w ↦ rw w (
              sym (
                sum_vars_lem g.data_vars names h
                ∙ ap (sum_vars (λ v. count_slices (filtered f g v)) g.data_vars)
                    (wants_none-selected f names w)))
          | inr w ↦ rw w (sym (sum_vars_lem g.data_vars names h))
        ]
