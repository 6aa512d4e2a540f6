-- ===== src/Table/Keys.antt =====
-- Unique keys: which writes keep them, and that the keys a query selects are distinct and lead
-- back to selected rows.
use bodp_app.Prelude.{
  ℕ, ◌≡◌, ◌≢◌, refl, ap, ◌∙◌, Bool, true, false, none, some, List, [], ◌∷◌, arith, ◌==◌, Bool-cases,
  inl, inr,
}
use bodp_app.Table.Defs.{Table, find, insert, update, delete, delete_where, keys_where, IsKeyed}
use bodp_app.Table.Laws.{find-update}

-- `k` is none of the keys.
abbrev pub IsOther : ℕ → List ℕ → Type 0
IsOther k [] = Unit
IsOther k (j ∷ js) = (j ≢ k) × IsOther k js

module _ {ℓ} {R : Type ℓ} where
  -- Distinct keys of rows that satisfy `p`.
  abbrev pub AllFound : (R → Bool) → Table R → List ℕ → Type ℓ
  AllFound p t [] = Unit
  AllFound p t (k ∷ ks) =
      ((r : R) × (find k t ≡ some r) × (p r ≡ true)) × IsOther k ks × AllFound p t ks

  pub IsKeyed-insert :
      (k : ℕ) (r : R) (t : Table R) → find k t ≡ none → IsKeyed t → IsKeyed (insert k r t)
  unfolding insert
  IsKeyed-insert k r t e h = (e, h)

  find-update-none :
      (j k : ℕ) (f : R → R) (t : Table R) → find j t ≡ none → find j (update k f t) ≡ none
  find-update-none j k f t e = ground (arith, find-update j k f t)

  pub IsKeyed-update : (k : ℕ) (f : R → R) (t : Table R) → IsKeyed t → IsKeyed (update k f t)
  unfolding update
  IsKeyed-update k f [] h = tt
  IsKeyed-update k f ((j, r) ∷ t) h = elim (Bool-cases (j == k)) [
    | inl e ↦ rw e h
    | inr e ↦ rw e (find-update-none j k f t h.0, IsKeyed-update k f t h.1)
  ]

  AllFound-more :
      (p : R → Bool) (j : ℕ) (r : R) (t : Table R) (ks : List ℕ)
      → find j t ≡ none
      → AllFound p t ks
      → AllFound p ((j, r) ∷ t) ks × IsOther j ks
  unfolding find
  AllFound-more p j r t [] e h = (tt, tt)
  AllFound-more p j r t (k ∷ ks) e ((q, fk, pq), other, rest) =
      let ih = AllFound-more p j r t ks e rest in
      (((q, ground arith, pq), other, ih.0), ((λ x. ground arith), ih.1))

  pub keys_where-AllFound : (p : R → Bool) (t : Table R) → IsKeyed t → AllFound p t (keys_where p t)
  unfolding keys_where find
  keys_where-AllFound p [] h = tt
  keys_where-AllFound p ((j, r) ∷ t) h =
      let more = AllFound-more p j r t (keys_where p t) h.0 (keys_where-AllFound p t h.1) in
      elim (Bool-cases (p r)) [
        | inl e ↦ rw e ((r, ground arith, e), more.1, more.0)
        | inr e ↦ rw e more.0
      ]

  -- A write under one key leaves the rows of the others as they are.
  pub AllFound-update :
      (p : R → Bool) (k : ℕ) (f : R → R) (t : Table R) (ks : List ℕ)
      → IsOther k ks
      → AllFound p t ks
      → AllFound p (update k f t) ks
  AllFound-update p k f t [] o h = tt
  AllFound-update p k f t (j ∷ ks) (ne, o) ((q, fk, pq), other, rest) =
      ((q, ground (arith, find-update j k f t), pq), other, AllFound-update p k f t ks o rest)

  find-delete-none : (j k : ℕ) (t : Table R) → find j t ≡ none → find j (delete k t) ≡ none
  unfolding find delete
  find-delete-none j k [] e = refl
  find-delete-none j k ((i, r) ∷ t) e = ground (arith, find-delete-none j k t)

  pub IsKeyed-delete : (k : ℕ) (t : Table R) → IsKeyed t → IsKeyed (delete k t)
  unfolding delete
  IsKeyed-delete k [] h = tt
  IsKeyed-delete k ((j, r) ∷ t) h = elim (Bool-cases (j == k)) [
    | inl e ↦ rw e h.1
    | inr e ↦ rw e (find-delete-none j k t h.0, IsKeyed-delete k t h.1)
  ]

  find-delete_where-none :
      (j : ℕ) (p : R → Bool) (t : Table R) → find j t ≡ none → find j (delete_where p t) ≡ none
  unfolding find delete_where
  find-delete_where-none j p [] e = refl
  find-delete_where-none j p ((i, r) ∷ t) e = ground (arith, find-delete_where-none j p t)

  pub IsKeyed-delete_where : (p : R → Bool) (t : Table R) → IsKeyed t → IsKeyed (delete_where p t)
  unfolding delete_where
  IsKeyed-delete_where p [] h = tt
  IsKeyed-delete_where p ((j, r) ∷ t) h = elim (Bool-cases (p r)) [
    | inl e ↦ rw e (IsKeyed-delete_where p t h.1)
    | inr e ↦ rw e (find-delete_where-none j p t h.0, IsKeyed-delete_where p t h.1)
  ]

-- A deleted key is free.
pub find-delete_self {ℓ} :
    {R : Type ℓ} (id : ℕ) (t : Table R) → IsKeyed t → find id (delete id t) ≡ none
unfolding find delete
find-delete_self id [] k = refl
find-delete_self id ((j, r) ∷ t) k = ground (arith, find-delete_self id t)

-- A row that the condition does not select is found as before.
pub find-delete_where_kept {ℓ} :
    {R : Type ℓ} (p : R → Bool) (id : ℕ) (r : R) (t : Table R)
    → find id t ≡ some r
    → p r ≡ false
    → find id (delete_where p t) ≡ some r
unfolding find delete_where
find-delete_where_kept p id r [] h k = absurd (cc)
find-delete_where_kept p id r ((j, s) ∷ t) h k = elim (Bool-cases (j == id)) [
  | inl e ↦
      let same : s ≡ r = ground arith in
      let stays : p s ≡ false = ap p same ∙ k in rw (stays, e) (ap some same)
  | inr e ↦ elim (Bool-cases (p s)) [
    | inl q ↦ rw q (find-delete_where_kept p id r t (ground arith) k)
    | inr q ↦ rw (q, e) (find-delete_where_kept p id r t (ground arith) k)
  ]
]
