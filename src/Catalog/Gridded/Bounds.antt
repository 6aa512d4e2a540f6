-- ===== src/Catalog/Gridded/Bounds.antt =====
-- No more values match than there are.
use bodp_app.Prelude.{
  ℕ, ◌≤◌, Bool, Option, none, some, String, List, [], ◌∷◌, length, arith, Option-cases, inl, inr,
}
use bodp_app.Prelude.Int.{ℤ}
use bodp_app.Catalog.Filter.{RecordsFilter, Envelope, envelope}
use bodp_app.Catalog.Preview.{filter}
use bodp_app.Catalog.Gridded.{
  GridCell, Slice, Variable, Grid, find_var, mask_cells, map_slices, apply_envelope, apply_bbox,
  where_inside, slice_in_range, filtered, count_cells, count_slices, size_of, sum_vars, names_of,
  is_wanted, is_kept, grid_counts,
}

count_cells-le : (cs : List (GridCell × Option ℤ)) → count_cells cs ≤ length cs
unfolding count_cells
count_cells-le [] = ground arith
count_cells-le (c ∷ cs) = ground (arith, count_cells-le cs)

length-mask_cells :
    (e : Envelope) (kept : GridCell × Option ℤ → Bool) (cs : List (GridCell × Option ℤ))
    → length (mask_cells e kept cs) ≤ length cs
unfolding mask_cells
length-mask_cells e kept [] = ground arith
length-mask_cells e kept (c ∷ cs) = ground (arith, length-mask_cells e kept cs)

size_of-map_slices :
    (e : Envelope) (ss : List Slice) → size_of (map_slices (where_inside e) ss) ≤ size_of ss
unfolding size_of map_slices
size_of-map_slices e [] = ground arith
size_of-map_slices e (s ∷ ss) =
    omega (arith, size_of-map_slices e ss, length-mask_cells e (is_kept e s.cells) s.cells)

size_of-apply_envelope :
    (e : Option Envelope) (ss : List Slice) → size_of (apply_envelope e ss) ≤ size_of ss
size_of-apply_envelope none ss = omega arith
size_of-apply_envelope (some e) ss = size_of-map_slices e ss

count_slices-filter : (p : Slice → Bool) (ss : List Slice) → count_slices (filter p ss) ≤ size_of ss
unfolding count_slices size_of filter
count_slices-filter p [] = ground arith
count_slices-filter p (s ∷ ss) = ground (arith, count_slices-filter p ss, count_cells-le s.cells)

filtered-le :
    (f : RecordsFilter) (g : Grid) (v : Variable) → count_slices (filtered f g v) ≤ size_of v.slices
unfolding filtered
filtered-le f g v = ground (
  arith,
  count_slices-filter (slice_in_range f) (apply_bbox f g v.slices),
  size_of-apply_envelope (envelope f) v.slices,
)

sum_vars_mono :
    (m k : Variable → ℕ) (vs : List Variable) (p : String → Bool) (names : List String)
    → ((v : Variable) → m v ≤ k v)
    → sum_vars m vs (filter p names) ≤ sum_vars k vs names
unfolding sum_vars filter
sum_vars_mono m k vs p [] h = ground arith
sum_vars_mono m k vs p (n ∷ ns) h = elim (Option-cases (find_var n vs)) [
  | inl e ↦ ground (arith, e, sum_vars_mono m k vs p ns h)
  | inr (v, e) ↦ ground (arith, e, h v, sum_vars_mono m k vs p ns h)
]

pub grid_counts-≤ :
    (f : RecordsFilter) (registered : List String) (g : Grid)
    → (grid_counts f registered g).0 ≤ (grid_counts f registered g).1
unfolding grid_counts
grid_counts-≤ f registered g =
    ground
      (arith, sum_vars_mono _ _ g.data_vars (is_wanted f) (names_of registered g) (filtered-le f g))
