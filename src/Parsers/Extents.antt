-- ===== src/Parsers/Extents.antt =====
-- The extents that `CsvParser.parse` finds (backend/app/services/parsers/csv_parser.py).
use bodp_app.Prelude.{
  map, subst, ◌≡◌, ◌⊎◌, refl, sym, ap, ◌∙◌, inl, inr, Bool, false, Option, none, some, List, [],
  ◌∷◌, arith, All, In, Bool-cases,
}
use bodp_app.Prelude.Int.{ℤ, ltb_ℤ}
use bodp_app.Storage.{Text}
use bodp_app.Parsers.Sniff.{Parsed}
use bodp_app.Parsers.Csv.{
  dropna, Chunk, Pandas, min_ℤ, max_ℤ, merge, col_fold, Span, no_span, read_column, widen_by, Scan,
  no_scan, Axes, CsvMetadata, axes_of, scan_chunk, scan_chunks, map_option, metadata_of, parse_rows,
  parse_sample, parse,
}
use bodp_app.Parsers.Chunks.{
  cells_of, all_values-cells_of, joined, all_values, count_rows, scan_chunks-joined,
  scan_chunks-count_rows,
}

-- The least and the greatest of some values, none where there are none.
pub data IsSpan : List ℤ → Span → Type 0 where
  no_values : IsSpan [] no_span
  between_values :
      (v : ℤ) (vs : List ℤ) (low high : ℤ)
      → In low (v ∷ vs)
      → In high (v ∷ vs)
      → All (λ x. (ltb_ℤ x low ≡ false) × (ltb_ℤ high x ≡ false)) (v ∷ vs)
      → IsSpan (v ∷ vs) (record { lowest = some low; highest = some high })

-- What `f` keeps of two: one of them, which is no worse than both.
abbrev Keeps : (ℤ → ℤ → Bool) → (ℤ → ℤ → ℤ) → Type 0
Keeps worse f =
    (a b : ℤ) → ((f a b ≡ a) ⊎ (f a b ≡ b)) × (worse a (f a b) ≡ false) × (worse b (f a b) ≡ false)

All-weaken : {P Q : ℤ → Type 0} (xs : List ℤ) → ((x : ℤ) → P x → Q x) → All P xs → All Q xs
unfolding All
All-weaken [] f h = h
All-weaken (x ∷ xs) f (h, hs) = (f x h, All-weaken xs f hs)

All-both : (P Q : ℤ → Type 0) (xs : List ℤ) → All P xs → All Q xs → All (λ x. P x × Q x) xs
unfolding All
All-both P Q [] h k = tt
All-both P Q (x ∷ xs) (h, hs) (k, ks) = ((h, k), All-both P Q xs hs ks)

module _ (worse : ℤ → ℤ → Bool) (f : ℤ → ℤ → ℤ) where
  extreme :
      Keeps worse f
      → ((x : ℤ) → worse x x ≡ false)
      → ((x y z : ℤ) → worse x y ≡ false → worse y z ≡ false → worse x z ≡ false)
      → (v : ℤ) (vs : List ℤ)
      → (m : ℤ) × (col_fold f (v ∷ vs) ≡ some m)
        × In m (v ∷ vs)
        × All (λ x. worse x m ≡ false) (v ∷ vs)
  unfolding col_fold All
  extreme keeps same trans v [] = (v, refl, In.here [], (same v, tt))
  extreme keeps same trans v (w ∷ ws) =
      let (m, e, i, all) = extreme keeps same trans w ws in
      let (one, left, right) = keeps v m in
      (
        f v m,
        ap (merge f (some v)) e,
        elim one [ inl k ↦ rw k (In.here (w ∷ ws)) | inr k ↦ rw k (In.there v (w ∷ ws) i) ],
        (left, All-weaken (w ∷ ws) (λ x h. trans x m (f v m) h right) all),
      )

min-Keeps : Keeps (λ x m. ltb_ℤ x m) min_ℤ
min-Keeps a b = elim (Bool-cases (ltb_ℤ b a)) [
  | inl h ↦ (inr (ground arith), ground arith, ground arith)
  | inr h ↦ (inl (ground arith), ground arith, ground arith)
]

max-Keeps : Keeps (λ x m. ltb_ℤ m x) max_ℤ
max-Keeps a b = elim (Bool-cases (ltb_ℤ a b)) [
  | inl h ↦ (inr (ground arith), ground arith, ground arith)
  | inr h ↦ (inl (ground arith), ground arith, ground arith)
]

pub least :
    (v : ℤ) (vs : List ℤ)
    → (m : ℤ) × (col_fold min_ℤ (v ∷ vs) ≡ some m)
      × In m (v ∷ vs)
      × All (λ x. ltb_ℤ x m ≡ false) (v ∷ vs)
least = extreme (λ x m. ltb_ℤ x m) min_ℤ min-Keeps (λ x. ground arith) (λ x y z h k. ground arith)

pub greatest :
    (v : ℤ) (vs : List ℤ)
    → (m : ℤ) × (col_fold max_ℤ (v ∷ vs) ≡ some m)
      × In m (v ∷ vs)
      × All (λ x. ltb_ℤ m x ≡ false) (v ∷ vs)
greatest =
    extreme (λ x m. ltb_ℤ m x) max_ℤ max-Keeps (λ x. ground arith) (λ x y z h k. ground arith)

joined-IsSpan : (vs : List ℤ) → IsSpan vs (joined no_span vs)
unfolding col_fold
joined-IsSpan [] = IsSpan.no_values
joined-IsSpan (v ∷ vs) = go (least v vs) (greatest v vs)
  where
    go :
        (low : (m : ℤ) × (col_fold min_ℤ (v ∷ vs) ≡ some m)
          × In m (v ∷ vs)
          × All (λ x. ltb_ℤ x m ≡ false) (v ∷ vs))
        → (high : (m : ℤ) × (col_fold max_ℤ (v ∷ vs) ≡ some m)
            × In m (v ∷ vs)
            × All (λ x. ltb_ℤ m x ≡ false) (v ∷ vs))
        → IsSpan (v ∷ vs) (joined no_span (v ∷ vs))
    go (low, e, i, below) (high, k, j, above) =
        subst (IsSpan (v ∷ vs)) (λ t. record { lowest = sym e t; highest = sym k t })
          (IsSpan.between_values v vs low high i j
            (All-both (λ x. ltb_ℤ x low ≡ false) (λ x. ltb_ℤ high x ≡ false) (v ∷ vs) below above))

abbrev pub span : Option ℤ → Option ℤ → Span
span lowest highest = record { lowest = lowest; highest = highest }

-- The numbers of a column of the whole file.
abbrev pub column_values : (p : Pandas) → (name : Option Text) → List (Chunk p.Cell) → List ℤ
column_values p name chunks = dropna (map p.to_numeric (cells_of name chunks))

-- The extents of `m` are those of all values that the chunks have, and it counts all their rows.
pub record IsExtent (p : Pandas) (chunks : List (Chunk p.Cell)) (m : CsvMetadata) : Type 0 where
  pub times : Span
  pub lat :
      IsSpan (column_values p m.axes.lat_col chunks) (span m.spatial_lat_min m.spatial_lat_max)
  pub lon :
      IsSpan (column_values p m.axes.lon_col chunks) (span m.spatial_lon_min m.spatial_lon_max)
  pub depth : IsSpan (column_values p m.axes.depth_col chunks) (span m.depth_min m.depth_max)
  pub time : IsSpan (all_values p.to_datetime m.axes.time_col chunks) times
  pub first_day : m.temporal_start ≡ map_option p.date_of times.lowest
  pub last_day : m.temporal_end ≡ map_option p.date_of times.highest
  pub count : m.record_count ≡ count_rows chunks

axis-IsSpan :
    (p : Pandas) (a : Axes) (pick : Scan → Span) (read : List p.Cell → List (Option ℤ))
    (name : Option Text)
    → ((chunk : Chunk p.Cell) (s : Scan)
        → pick (scan_chunk p a chunk s) ≡ widen_by read (read_column name chunk) (pick s))
    → pick no_scan ≡ no_span
    → (chunks : List (Chunk p.Cell))
    → IsSpan (all_values read name chunks) (pick (scan_chunks p a chunks no_scan))
axis-IsSpan p a pick read name h none_yet chunks =
    let vs = all_values read name chunks in
    subst (IsSpan vs)
      (sym
        (scan_chunks-joined p a pick read name h chunks no_scan ∙ ap (λ e. joined e vs) none_yet))
      (joined-IsSpan vs)

numbers-IsSpan :
    (p : Pandas) (a : Axes) (pick : Scan → Span) (name : Option Text)
    → ((chunk : Chunk p.Cell) (s : Scan)
        → pick (scan_chunk p a chunk s)
          ≡ widen_by (map p.to_numeric) (read_column name chunk) (pick s))
    → pick no_scan ≡ no_span
    → (chunks : List (Chunk p.Cell))
    → IsSpan (column_values p name chunks) (pick (scan_chunks p a chunks no_scan))
numbers-IsSpan p a pick name h none_yet chunks =
    subst (λ vs. IsSpan vs (pick (scan_chunks p a chunks no_scan)))
      (all_values-cells_of p.to_numeric name chunks)
      (axis-IsSpan p a pick (map p.to_numeric) name h none_yet chunks)

metadata_of-IsExtent :
    (p : Pandas) (columns : List Text) (a : Axes) (chunks : List (Chunk p.Cell))
    → IsExtent p chunks (metadata_of p.date_of columns a (scan_chunks p a chunks no_scan))
unfolding metadata_of
metadata_of-IsExtent p columns a chunks = record {
  times = (scan_chunks p a chunks no_scan).time;
  lat = numbers-IsSpan p a (λ s. s.lat) a.lat_col (λ c s. refl) refl chunks;
  lon = numbers-IsSpan p a (λ s. s.lon) a.lon_col (λ c s. refl) refl chunks;
  depth = numbers-IsSpan p a (λ s. s.depth) a.depth_col (λ c s. refl) refl chunks;
  time = axis-IsSpan p a (λ s. s.time) p.to_datetime a.time_col (λ c s. refl) refl chunks;
  first_day = refl;
  last_day = refl;
  count = scan_chunks-count_rows p a chunks no_scan ∙ omega arith;
}

rows-IsExtent :
    (p : Pandas) (columns : List Text) (read : Option (List (Chunk p.Cell))) (m : CsvMetadata)
    → parse_rows p columns read ≡ Parsed.ok m
    → (chunks : List (Chunk p.Cell)) × (read ≡ some chunks) × IsExtent p chunks m
unfolding parse_rows
rows-IsExtent p columns none m h = absurd (cc)
rows-IsExtent p columns (some chunks) m h = (
  chunks,
  refl,
  subst (IsExtent p chunks) (cc) (metadata_of-IsExtent p columns (axes_of p columns) chunks),
)

sample-IsExtent :
    (p : Pandas) (sample : Option (List Text)) (m : CsvMetadata)
    → parse_sample p sample ≡ Parsed.ok m
    → (chunks : List (Chunk p.Cell)) × (p.chunks ≡ some chunks) × IsExtent p chunks m
unfolding parse_sample
sample-IsExtent p none m h = absurd (cc)
sample-IsExtent p (some []) m h = absurd (cc)
sample-IsExtent p (some (c ∷ cs)) m h = rows-IsExtent p (c ∷ cs) p.chunks m h

-- Where a CSV is parsed, the extents of latitude, longitude and depth are exactly the least and the
-- greatest of the numbers that the column has in the whole file, its cells in all chunks one after
-- the other, and absent if it has none; the dates are those of the least and the greatest of the
-- instants that the chunks, each read by itself, come to; and all rows are counted.
pub parse-IsExtent :
    (p : Pandas) (m : CsvMetadata)
    → parse p ≡ Parsed.ok m
    → (chunks : List (Chunk p.Cell)) × (p.chunks ≡ some chunks) × IsExtent p chunks m
parse-IsExtent p m h = sample-IsExtent p p.sample_columns m h
