-- ===== src/Table/Rows.antt =====
-- The rows that a query selects, under unique keys and under writes.
use bodp_app.Prelude.{
  ◌≢◌, ℕ, ◌≡◌, Bool, true, none, some, List, [], ◌∷◌, arith, ◌==◌, Bool-cases, inl, inr,
}
use bodp_app.Table.Defs.{Table, find, update, update_where, rows_where, IsKeyed}
use bodp_app.Table.Laws.{find-update_where}

module _ {ℓ} {R : Type ℓ} where
  -- A selected row is found under its key, and satisfies the condition.
  pub rows_where-find :
      (p : R → Bool) (t : Table R) (k : ℕ) (r : R) (rest : List (ℕ × R))
      → IsKeyed t
      → rows_where p t ≡ (k, r) ∷ rest
      → (find k t ≡ some r) × (p r ≡ true)
  unfolding rows_where find
  rows_where-find p [] k r rest h e = cc
  rows_where-find p ((j, q) ∷ t) k r rest h e = elim (Bool-cases (p q)) [
    | inl chosen ↦ (ground arith, ground arith)
    | inr passed ↦
        let later = rows_where-find p t k r rest h.1 (ground arith) in
        (ground (arith, h.0, later.0), later.1)
  ]

  IsKeyed-none :
      (p : R → Bool) (f : R → R) (j : ℕ) (t : Table R)
      → find j t ≡ none
      → find j (update_where p f t) ≡ none
  IsKeyed-none p f j t e = ground (arith, find-update_where j p f t)

  pub IsKeyed-update_where :
      (p : R → Bool) (f : R → R) (t : Table R) → IsKeyed t → IsKeyed (update_where p f t)
  unfolding update_where
  IsKeyed-update_where p f [] h = tt
  IsKeyed-update_where p f ((j, r) ∷ t) h =
      (IsKeyed-none p f j t h.0, IsKeyed-update_where p f t h.1)

  -- A single selected row that is written, and is selected afterwards too, is still the only one.
  pub rows_where-update :
      (p : R → Bool) (k : ℕ) (f : R → R) (r : R) (t : Table R)
      → p r ≡ true
      → rows_where p t ≡ (k, r) ∷ []
      → find k t ≡ some r
      → p (f r) ≡ true
      → rows_where p (update k f t) ≡ (k, f r) ∷ []
  unfolding rows_where find update
  rows_where-update p k f r [] y e h z = cc
  rows_where-update p k f r ((j, q) ∷ t) y e h z = elim (Bool-cases (j == k)) [
    | inl same ↦ ground arith
    | inr other ↦ elim (Bool-cases (p q)) [
      | inl chosen ↦ ground arith
      | inr passed ↦ ground (arith, rows_where-update p k f r t y)
    ]
  ]

  rows_where-found :
      (p : R → Bool) (t : Table R) (id : ℕ) (s : R)
      → find id t ≡ some s
      → p s ≡ true
      → rows_where p t ≢ []
  unfolding rows_where find
  rows_where-found p [] id s h y e = cc
  rows_where-found p ((j, q) ∷ t) id s h y e = elim (Bool-cases (j == id)) [
    | inl same ↦ ground arith
    | inr other ↦ elim (Bool-cases (p q)) [
      | inl chosen ↦ ground arith
      | inr passed ↦ rows_where-found p t id s (ground arith) y (ground arith)
    ]
  ]

  -- Where a query selects one row, it is any row that is found and satisfies the condition.
  pub rows_where-single :
      (p : R → Bool) (t : Table R) (id k : ℕ) (s x : R)
      → find id t ≡ some s
      → p s ≡ true
      → rows_where p t ≡ (k, x) ∷ []
      → x ≡ s
  unfolding rows_where find
  rows_where-single p [] id k s x h y e = cc
  rows_where-single p ((j, q) ∷ t) id k s x h y e = elim (Bool-cases (j == id)) [
    | inl same ↦ ground arith
    | inr other ↦ elim (Bool-cases (p q)) [
      | inl chosen ↦ absurd (rows_where-found p t id s (ground arith) y (ground arith))
      | inr passed ↦ rows_where-single p t id k s x (ground arith) y (ground arith)
    ]
  ]
