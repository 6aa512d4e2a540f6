-- ===== src/Registry/Limits.antt =====
-- What is detected within the limits of the columns is stored within them
-- (backend/app/models/catalog.py, backend/app/worker/tasks/ingestion.py).
use bodp_app.Prelude.{
  ℕ, zero, suc, ◌≡◌, refl, Bool, true, ◌&&◌, Option, none, some, String, List, [], ◌∷◌, ◌++◌, all,
  arith, Bool-cases, inl, inr, All,
}
use bodp_app.Prelude.Int.{ℤ, ltb_ℤ}
use bodp_app.Scope.{codes, contains, lex_ltb}
use bodp_app.Catalog.{take}
use bodp_app.Parsers.Csv.{merge, min_ℤ, max_ℤ}
use bodp_app.Writer.{insert_name}
use bodp_app.Registry.{
  DatasetVariable, Detected, insert_new, sorted_set, or_empty, first_values, merged_values, new_row,
  widen_row, is_row, replace_row, max_sampled_distinct_values, fits_text, fits_bound, row_fits,
}

-- A detection that the columns hold.
abbrev pub detection_fits : Detected → Bool
detection_fits c =
    fits_text c.variable
    && (fits_bound c.range.lowest
        && (fits_bound c.range.highest && all fits_text (or_empty c.distinct)))

all-append :
    (p : String → Bool) (xs ys : List String)
    → all p xs ≡ true
    → all p ys ≡ true
    → all p (xs ++ ys) ≡ true
all-append p [] ys h k = k
all-append p (x ∷ xs) ys h k = ground (arith, all-append p xs ys)

all-take :
    (p : String → Bool) (n : ℕ) (xs : List String) → all p xs ≡ true → all p (take n xs) ≡ true
unfolding take
all-take p zero xs h = refl
all-take p (suc n) [] h = refl
all-take p (suc n) (x ∷ xs) h = ground (arith, all-take p n xs)

all-insert_name :
    (p : String → Bool) (x : String) (xs : List String)
    → p x ≡ true
    → all p xs ≡ true
    → all p (insert_name x xs) ≡ true
unfolding insert_name
all-insert_name p x [] h k = ground arith
all-insert_name p x (y ∷ ys) h k = elim (Bool-cases (lex_ltb (codes y) (codes x))) [
  | inl e ↦ rw e (ground (arith, all-insert_name p x ys h))
  | inr e ↦ rw e (ground arith)
]

all-insert_new :
    (p : String → Bool) (x : String) (xs : List String)
    → p x ≡ true
    → all p xs ≡ true
    → all p (insert_new x xs) ≡ true
unfolding insert_new
all-insert_new p x xs h k = elim (Bool-cases (contains xs x)) [
  | inl e ↦ rw e k
  | inr e ↦ rw e (all-insert_name p x xs h k)
]

all-sorted_set :
    (p : String → Bool) (xs : List String) → all p xs ≡ true → all p (sorted_set xs) ≡ true
unfolding sorted_set
all-sorted_set p [] h = refl
all-sorted_set p (x ∷ xs) h =
    all-insert_new p x (sorted_set xs) (ground arith) (all-sorted_set p xs (ground arith))

min_fits :
    (a b : Option ℤ)
    → fits_bound a ≡ true
    → fits_bound b ≡ true
    → fits_bound (merge min_ℤ a b) ≡ true
min_fits none b h k = k
min_fits (some a) none h k = h
min_fits (some a) (some b) h k = elim (Bool-cases (ltb_ℤ b a)) [ inl e ↦ rw e k | inr e ↦ rw e h ]

max_fits :
    (a b : Option ℤ)
    → fits_bound a ≡ true
    → fits_bound b ≡ true
    → fits_bound (merge max_ℤ a b) ≡ true
max_fits none b h k = k
max_fits (some a) none h k = h
max_fits (some a) (some b) h k = elim (Bool-cases (ltb_ℤ a b)) [ inl e ↦ rw e k | inr e ↦ rw e h ]

first_values_fit :
    (o : Option (List String))
    → all fits_text (or_empty o) ≡ true
    → all fits_text (or_empty (first_values o)) ≡ true
first_values_fit none h = refl
first_values_fit (some []) h = refl
first_values_fit (some (x ∷ xs)) h = all-take fits_text max_sampled_distinct_values (x ∷ xs) h

merged_values_fit :
    (o given : Option (List String))
    → all fits_text (or_empty o) ≡ true
    → all fits_text (or_empty given) ≡ true
    → all fits_text (or_empty (merged_values o given)) ≡ true
merged_values_fit o none h k = h
merged_values_fit o (some []) h k = h
merged_values_fit o (some (x ∷ xs)) h k =
    all-take fits_text max_sampled_distinct_values (sorted_set (or_empty o ++ (x ∷ xs))) (
      all-sorted_set fits_text (or_empty o ++ (x ∷ xs))
        (all-append fits_text (or_empty o) (x ∷ xs) h k))

parts :
    (a b c d : Bool)
    → (a && (b && (c && d))) ≡ true
    → (a ≡ true) × (b ≡ true) × (c ≡ true) × (d ≡ true)
parts a b c d h = (ground arith, ground arith, ground arith, ground arith)

together :
    (a b c d : Bool) → a ≡ true → b ≡ true → c ≡ true → d ≡ true → (a && (b && (c && d))) ≡ true
together a b c d h i j k = ground arith

detected_parts :
    (c : Detected)
    → detection_fits c ≡ true
    → (fits_text c.variable ≡ true)
      × (fits_bound c.range.lowest ≡ true)
      × (fits_bound c.range.highest ≡ true)
      × (all fits_text (or_empty c.distinct) ≡ true)
detected_parts c h =
    parts (fits_text c.variable) (fits_bound c.range.lowest) (fits_bound c.range.highest)
      (all fits_text (or_empty c.distinct)) h

row_parts :
    (r : DatasetVariable)
    → row_fits r ≡ true
    → (fits_text r.name ≡ true)
      × (fits_bound r.min_value ≡ true)
      × (fits_bound r.max_value ≡ true)
      × (all fits_text (or_empty r.distinct_values) ≡ true)
row_parts r h =
    parts (fits_text r.name) (fits_bound r.min_value) (fits_bound r.max_value)
      (all fits_text (or_empty r.distinct_values)) h

row_from_parts :
    (r : DatasetVariable)
    → fits_text r.name ≡ true
    → fits_bound r.min_value ≡ true
    → fits_bound r.max_value ≡ true
    → all fits_text (or_empty r.distinct_values) ≡ true
    → row_fits r ≡ true
row_from_parts r =
    together (fits_text r.name) (fits_bound r.min_value) (fits_bound r.max_value)
      (all fits_text (or_empty r.distinct_values))

pub new_row_fits : (c : Detected) → detection_fits c ≡ true → row_fits (new_row c) ≡ true
new_row_fits c h =
    let (t, lo, hi, vs) = detected_parts c h in
    row_from_parts (new_row c) t lo hi (first_values_fit c.distinct vs)

pub widen_row_fits :
    (c : Detected) (r : DatasetVariable)
    → detection_fits c ≡ true
    → row_fits r ≡ true
    → row_fits (widen_row c r) ≡ true
widen_row_fits c r h k =
    let (t, lo, hi, vs) = detected_parts c h in
    let (t', lo', hi', vs') = row_parts r k in
    row_from_parts (widen_row c r) t' (min_fits r.min_value c.range.lowest lo' lo)
      (max_fits r.max_value c.range.highest hi' hi)
      (merged_values_fit r.distinct_values c.distinct vs' vs)

abbrev pub AllFit : List DatasetVariable → Type 0
AllFit rows = All (λ r. row_fits r ≡ true) rows

pub replace_row-AllFit :
    (d : ℕ) (n : String) (c : Detected) (rows : List DatasetVariable)
    → detection_fits c ≡ true
    → AllFit rows
    → AllFit (replace_row d n (widen_row c) rows)
unfolding replace_row All
replace_row-AllFit d n c [] h k = tt
replace_row-AllFit d n c (r ∷ rs) h (k, ks) = elim (Bool-cases (is_row d n r)) [
  | inl e ↦ rw e (widen_row_fits c r h k, ks)
  | inr e ↦ rw e (k, replace_row-AllFit d n c rs h ks)
]
