-- ===== src/Registry/Ranges.antt =====
-- What the registry says of a variable after any detections (backend/app/worker/tasks/ingestion.py).
use bodp_app.Prelude.{
  ℕ, ◌==◌, ◌&&◌, ◌≡◌, refl, sym, ap, ◌∙◌, inl, inr, Bool, true, false, Option, none, some, String,
  str_eq, eq_iff, List, [], ◌∷◌, if◌then◌else◌, arith, All, Bool-cases, Option-cases,
}
use bodp_app.Catalog.{filter}
use bodp_app.Parsers.Csv.{merge, min_ℤ, max_ℤ, Span, map_option}
use bodp_app.Registry.Limits.{
  detection_fits, AllFit, new_row_fits, widen_row_fits, replace_row-AllFit,
}
use bodp_app.Registry.{
  row_fits, DatasetVariable, Detected, is_row, new_row, widen_row, replace_row,
  upsert_dataset_variable, and_then, upsert_all,
}

-- The row of a variable, if there is one.
unfoldable pub lookup : ℕ → String → List DatasetVariable → Option DatasetVariable
lookup d n [] = none
lookup d n (r ∷ rs) = if is_row d n r then some r else lookup d n rs

-- At most one row for each variable: the unique constraint.
unfoldable pub IsUnique : List DatasetVariable → Type 0
IsUnique [] = Unit
IsUnique (r ∷ rs) = (lookup r.dataset_id r.name rs ≡ none) × IsUnique rs

abbrev pub names_it : ℕ → String → Detected → Bool
names_it d n c = c.dataset == d && str_eq c.variable n

-- The span of a variable after one more detection.
abbrev pub after : ℕ → String → Detected → Option Span → Option Span
after d n c none = if names_it d n c then some c.range else none
after d n c (some s) =
    if names_it d n c
    then some (record {
      lowest = merge min_ℤ s.lowest c.range.lowest;
      highest = merge max_ℤ s.highest c.range.highest;
    })
    else some s

unfoldable pub all_after : ℕ → String → List Detected → Option Span → Option Span
all_after d n [] o = o
all_after d n (c ∷ cs) o = all_after d n cs (after d n c o)

abbrev pub span_of : Option DatasetVariable → Option Span
span_of none = none
span_of (some r) = some (record { lowest = r.min_value; highest = r.max_value })

-- The row that is selected has the key that is asked for.
is_row_key :
    (d : ℕ) (n : String) (r : DatasetVariable)
    → is_row d n r ≡ true
    → (r.dataset_id ≡ d) × (r.name ≡ n)
is_row_key d n r h = (ground arith, ground (arith, eq_iff r.name n))

names_it_key :
    (d : ℕ) (n : String) (c : Detected) → names_it d n c ≡ true → (c.dataset ≡ d) × (c.variable ≡ n)
names_it_key d n c h = is_row_key d n (new_row c) h

none_selected :
    (d : ℕ) (n : String) (rows : List DatasetVariable)
    → lookup d n rows ≡ none
    → filter (is_row d n) rows ≡ []
unfolding lookup filter
none_selected d n [] h = refl
none_selected d n (r ∷ rs) h = elim (Bool-cases (is_row d n r)) [
  | inl e ↦ absurd (ground arith)
  | inr e ↦ rw e (none_selected d n rs (ground arith))
]

one_selected :
    (d : ℕ) (n : String) (r : DatasetVariable) (rows : List DatasetVariable)
    → IsUnique rows
    → lookup d n rows ≡ some r
    → filter (is_row d n) rows ≡ r ∷ []
unfolding lookup filter IsUnique
one_selected d n r [] u h = absurd (cc)
one_selected d n r (s ∷ rs) (u, us) h = elim (Bool-cases (is_row d n s)) [
  | inl e ↦
      let (same_d, same_n) = is_row_key d n s e in
      let alone : lookup d n rs ≡ none = rw (sym same_d, sym same_n) u in
      let first : s ≡ r = ground arith in
      rw e (ap (λ l. s ∷ l) (none_selected d n rs alone) ∙ ap (λ x. x ∷ []) first)
  | inr e ↦ rw e (one_selected d n r rs us (ground arith))
]

module _ (d : ℕ) (n : String) (c : Detected) where
  lookup-replace_row :
      (rows : List DatasetVariable)
      → lookup d n (replace_row d n (widen_row c) rows) ≡ map_option (widen_row c) (lookup d n rows)
  unfolding lookup replace_row
  lookup-replace_row [] = refl
  lookup-replace_row (r ∷ rs) = elim (Bool-cases (is_row d n r)) [
    | inl e ↦ rw (e, e) refl
    | inr e ↦ rw (e, e) (lookup-replace_row rs)
  ]

  lookup_other :
      (d' : ℕ) (n' : String) (rows : List DatasetVariable)
      → ((r : DatasetVariable) → is_row d n r ≡ true → is_row d' n' r ≡ false)
      → lookup d' n' (replace_row d n (widen_row c) rows) ≡ lookup d' n' rows
  unfolding lookup replace_row
  lookup_other d' n' [] h = refl
  lookup_other d' n' (r ∷ rs) h = elim (Bool-cases (is_row d n r)) [
    | inl e ↦ rw (e, h r e) refl
    | inr e ↦ rw e (ap (λ o. if is_row d' n' r then some r else o) (lookup_other d' n' rs h))
  ]

  lookup_still_none :
      (d' : ℕ) (n' : String) (rows : List DatasetVariable)
      → lookup d' n' rows ≡ none
      → lookup d' n' (replace_row d n (widen_row c) rows) ≡ none
  unfolding lookup replace_row
  lookup_still_none d' n' [] h = refl
  lookup_still_none d' n' (r ∷ rs) h = elim (Bool-cases (is_row d' n' r)) [
    | inl e ↦ absurd (ground arith)
    | inr e ↦ elim (Bool-cases (is_row d n r)) [
      | inl k ↦ rw (k, e) (ground arith)
      | inr k ↦ rw (k, e) (lookup_still_none d' n' rs (ground arith))
    ]
  ]

  replace_row-IsUnique :
      (rows : List DatasetVariable) → IsUnique rows → IsUnique (replace_row d n (widen_row c) rows)
  unfolding replace_row IsUnique
  replace_row-IsUnique [] u = tt
  replace_row-IsUnique (r ∷ rs) (u, us) = elim (Bool-cases (is_row d n r)) [
    | inl e ↦ rw e (u, us)
    | inr e ↦ rw e (lookup_still_none r.dataset_id r.name rs u, replace_row-IsUnique rs us)
  ]

after_other :
    (d : ℕ) (n : String) (c : Detected) (o : Option Span)
    → names_it d n c ≡ false
    → after d n c o ≡ o
after_other d n c none h = rw h refl
after_other d n c (some s) h = rw h refl

-- What a call leaves: the rows are unique, and the span of each variable is widened if it is the one.
abbrev pub Widened : List Detected → (before now : List DatasetVariable) → Type 0
Widened cs before now =
    IsUnique now
    × ((d : ℕ) (n : String)
        → span_of (lookup d n now) ≡ all_after d n cs (span_of (lookup d n before)))

added-Widened :
    (c : Detected) (rows : List DatasetVariable)
    → IsUnique rows
    → lookup c.dataset c.variable rows ≡ none
    → Widened (c ∷ []) rows (new_row c ∷ rows)
unfolding IsUnique lookup all_after
added-Widened c rows u h = (
  (h, u),
  λ d n. elim (Bool-cases (names_it d n c)) [
    | inl e ↦
        let (same_d, same_n) = names_it_key d n c e in
        let absent : lookup d n rows ≡ none = rw (sym same_d, sym same_n) h in rw (absent, e) refl
    | inr e ↦ rw e (sym (after_other d n c (span_of (lookup d n rows)) e))
  ],
)

replaced-Widened :
    (c : Detected) (r : DatasetVariable) (rows : List DatasetVariable)
    → IsUnique rows
    → lookup c.dataset c.variable rows ≡ some r
    → Widened (c ∷ []) rows (replace_row c.dataset c.variable (widen_row c) rows)
unfolding all_after
replaced-Widened c r rows u h = (
  replace_row-IsUnique c.dataset c.variable c rows u,
  λ d n. elim (Bool-cases (names_it d n c)) [
    | inl e ↦
        let (same_d, same_n) = names_it_key d n c e in
        let found : lookup d n rows ≡ some r = rw (sym same_d, sym same_n) h in
        let now : lookup d n (replace_row c.dataset c.variable (widen_row c) rows)
            ≡ some (widen_row c r) =
          rw (same_d, same_n) (lookup-replace_row d n c rows)
          ∙ ap (map_option (widen_row c)) found in
        let widened : span_of (some (widen_row c r)) ≡ after d n c (span_of (some r)) = rw e refl in
        ap span_of now ∙ (widened ∙ ap (λ o. after d n c (span_of o)) (sym found))
    | inr e ↦
        ap span_of (
          lookup_other c.dataset c.variable c d n rows
            (λ s k. let (p, q) = is_row_key c.dataset c.variable s k in rw (p, q) e))
        ∙ sym (after_other d n c (span_of (lookup d n rows)) e)
  ],
)

lookup_fits :
    (d : ℕ) (n : String) (r : DatasetVariable) (rows : List DatasetVariable)
    → AllFit rows
    → lookup d n rows ≡ some r
    → row_fits r ≡ true
unfolding lookup All
lookup_fits d n r [] k h = absurd (cc)
lookup_fits d n r (s ∷ rows) (k, ks) h = elim (Bool-cases (is_row d n s)) [
  | inl e ↦ let same : s ≡ r = ground arith in ap row_fits (sym same) ∙ k
  | inr e ↦ lookup_fits d n r rows ks (ground arith)
]

upsert-Widened :
    (c : Detected) (rows : List DatasetVariable)
    → detection_fits c ≡ true
    → AllFit rows
    → IsUnique rows
    → (now : List DatasetVariable) × (upsert_dataset_variable c rows ≡ some now)
      × AllFit now
      × Widened (c ∷ []) rows now
unfolding upsert_dataset_variable All
upsert-Widened c rows fits all_fit u = elim (Option-cases (lookup c.dataset c.variable rows)) [
  | inl e ↦ (
    new_row c ∷ rows,
    rw (none_selected c.dataset c.variable rows e) (rw (new_row_fits c fits) refl),
    (new_row_fits c fits, all_fit),
    added-Widened c rows u e,
  )
  | inr (r, e) ↦
      let wide = widen_row_fits c r fits (lookup_fits c.dataset c.variable r rows all_fit e) in
      (
        replace_row c.dataset c.variable (widen_row c) rows,
        rw (one_selected c.dataset c.variable r rows u e) (rw wide refl),
        replace_row-AllFit c.dataset c.variable c rows fits all_fit,
        replaced-Widened c r rows u e,
      )
]

pub upsert_all-Widened :
    (cs : List Detected) (rows : List DatasetVariable)
    → All (λ c. detection_fits c ≡ true) cs
    → AllFit rows
    → IsUnique rows
    → (now : List DatasetVariable) × (upsert_all cs rows ≡ some now) × Widened cs rows now
unfolding upsert_all all_after All
upsert_all-Widened [] rows fits k u = (rows, refl, (u, λ d n. refl))
upsert_all-Widened (c ∷ cs) rows (fit, fits) k u =
    let (one, e, within, (v, step)) = upsert-Widened c rows fit k u in
    let (now, o, (w, rest)) = upsert_all-Widened cs one fits within v in
    (
      now,
      ap (λ o. and_then o (upsert_all cs)) e ∙ o,
      (w, λ d n. rest d n ∙ ap (all_after d n cs) (step d n)),
    )
