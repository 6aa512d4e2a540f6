-- ===== src/Writer/Laws.antt =====
-- What the gathering and the copying of rows keep, and what filters do to lists and tables.
use mathlib.Core.List.{append_assoc, append-nil}
use bodp_app.Prelude.{
  ℕ, suc, ◌+◌, ◌≡◌, refl, sym, ap, ◌∙◌, inl, inr, Bool, true, false, not, List, [], ◌∷◌, ◌++◌, leb,
  length, arith, All, Bool-cases,
}
use bodp_app.Table.{Table, rows_of, delete_where}
use bodp_app.Scope.{is_cons}
use bodp_app.Models.{DatasetRecord}
use bodp_app.Catalog.{filter}
use bodp_app.Writer.Melt.{Row}
use bodp_app.Writer.Copy.{Copy, Batch, keyed, flush_chunk, push, push_all, copy_rows}

pub length-append {ℓ} : {A : Type ℓ} (xs ys : List A) → length (xs ++ ys) ≡ length xs + length ys
length-append [] ys = omega arith
length-append (x ∷ xs) ys = omega (arith, length-append xs ys)

module _ {ℓ} {A : Type ℓ} (p : A → Bool) where
  pub filter-append : (xs ys : List A) → filter p (xs ++ ys) ≡ filter p xs ++ filter p ys
  unfolding filter
  filter-append [] ys = refl
  filter-append (x ∷ xs) ys = ground (arith, filter-append xs ys)

  pub filter_id : (xs : List A) → All (λ x. p x ≡ true) xs → filter p xs ≡ xs
  unfolding filter All
  filter_id [] h = refl
  filter_id (x ∷ xs) (h, hs) = rw h (ap (λ l. x ∷ l) (filter_id xs hs))

  pub filter_empty : (xs : List A) → All (λ x. p x ≡ false) xs → filter p xs ≡ []
  unfolding filter All
  filter_empty [] h = refl
  filter_empty (x ∷ xs) (h, hs) = rw h (filter_empty xs hs)

  pub filter-delete_where : (t : Table A) → filter p (rows_of (delete_where p t)) ≡ []
  unfolding filter rows_of delete_where
  filter-delete_where [] = refl
  filter-delete_where ((k, x) ∷ t) = elim (Bool-cases (p x)) [
    | inl e ↦ rw e (filter-delete_where t)
    | inr e ↦ rw (e, e) (filter-delete_where t)
  ]

  pub filter_rest-delete_where :
      (t : Table A)
      → filter (λ x. not (p x)) (rows_of (delete_where p t)) ≡ filter (λ x. not (p x)) (rows_of t)
  unfolding filter rows_of delete_where
  filter_rest-delete_where [] = refl
  filter_rest-delete_where ((k, x) ∷ t) = elim (Bool-cases (p x)) [
    | inl e ↦ rw e (filter_rest-delete_where t)
    | inr e ↦ rw (e, e) (ap (λ l. x ∷ l) (filter_rest-delete_where t))
  ]

-- The rows that a list of rows of the file melts to.
unfoldable pub melt_all : (melt : Row → List DatasetRecord) → List Row → List DatasetRecord
melt_all melt [] = []
melt_all melt (row ∷ rows) = melt row ++ melt_all melt rows

-- All rows of the batches.
unfoldable pub rows_in : List Batch → List Row
rows_in [] = []
rows_in (b ∷ bs) = b.rows ++ rows_in bs

pub melt_all-append :
    (melt : Row → List DatasetRecord) (xs ys : List Row)
    → melt_all melt (xs ++ ys) ≡ melt_all melt xs ++ melt_all melt ys
unfolding melt_all
melt_all-append melt [] ys = refl
melt_all-append melt (x ∷ xs) ys = simp (melt_all-append melt xs ys, append_assoc)

-- What is copied and what is gathered, in order.
abbrev pub gathered : Copy → List DatasetRecord
gathered c = rows_of c.table ++ c.chunk

-- How much was counted as written or is gathered.
abbrev pub counted : Copy → ℕ
counted c = c.written + length c.chunk

rows_of-keyed :
    (draw : ℕ → ℕ) (n : ℕ) (t : Table DatasetRecord) (rs : List DatasetRecord)
    → rows_of (t ++ keyed draw n rs) ≡ rows_of t ++ rs
unfolding rows_of keyed
rows_of-keyed draw n [] [] = refl
rows_of-keyed draw n [] (r ∷ rs) = ap (λ l. r ∷ l) (rows_of-keyed draw (suc n) [] rs)
rows_of-keyed draw n ((k, r) ∷ t) rs = ap (λ l. r ∷ l) (rows_of-keyed draw n t rs)

is_cons-false : (rs : List DatasetRecord) → is_cons rs ≡ false → rs ≡ []
is_cons-false [] h = refl
is_cons-false (r ∷ rs) h = cc

module _ (draw : ℕ → ℕ) (limit : ℕ) where
  -- A flush leaves nothing gathered that is not copied.
  pub flush_chunk-rows : (c : Copy) → rows_of (flush_chunk draw limit c).table ≡ gathered c
  unfolding flush_chunk
  flush_chunk-rows c = elim (Bool-cases (is_cons c.chunk)) [
    | inl e ↦ rw e (rows_of-keyed draw c.written c.table c.chunk)
    | inr e ↦ rw e (sym (ap (λ l. rows_of c.table ++ l) (is_cons-false c.chunk e) ∙ append-nil _))
  ]

  flush_chunk-gathered : (c : Copy) → gathered (flush_chunk draw limit c) ≡ gathered c
  unfolding flush_chunk
  flush_chunk-gathered c = elim (Bool-cases (is_cons c.chunk)) [
    | inl e ↦ rw e (append-nil _ ∙ rows_of-keyed draw c.written c.table c.chunk)
    | inr e ↦ rw e refl
  ]

  pub flush_chunk-written : (c : Copy) → (flush_chunk draw limit c).written ≡ counted c
  unfolding flush_chunk
  flush_chunk-written c = elim (Bool-cases (is_cons c.chunk)) [
    | inl e ↦ rw e refl
    | inr e ↦ rw e (ground (arith, is_cons-false c.chunk e))
  ]

  flush_chunk-counted : (c : Copy) → counted (flush_chunk draw limit c) ≡ counted c
  unfolding flush_chunk
  flush_chunk-counted c = ground arith

  push-gathered :
      (r : DatasetRecord) (c : Copy) → gathered (push draw limit r c) ≡ gathered c ++ (r ∷ [])
  unfolding push
  push-gathered r c =
      let longer : Copy = record c { chunk = c.chunk ++ (r ∷ []) } in
      elim (Bool-cases (leb limit (length (c.chunk ++ (r ∷ []))))) [
        | inl e ↦ rw e (flush_chunk-gathered longer ∙ sym (append_assoc _ c.chunk (r ∷ [])))
        | inr e ↦ rw e (sym (append_assoc _ c.chunk (r ∷ [])))
      ]

  push-counted : (r : DatasetRecord) (c : Copy) → counted (push draw limit r c) ≡ suc (counted c)
  unfolding push
  push-counted r c =
      let longer : Copy = record c { chunk = c.chunk ++ (r ∷ []) } in
      elim (Bool-cases (leb limit (length (c.chunk ++ (r ∷ []))))) [
        | inl e ↦
            rw e (flush_chunk-counted longer ∙ omega (arith, length-append {0} c.chunk (r ∷ [])))
        | inr e ↦ rw e (omega (arith, length-append {0} c.chunk (r ∷ [])))
      ]

  push_all-gathered :
      (rs : List DatasetRecord) (c : Copy) → gathered (push_all draw limit rs c) ≡ gathered c ++ rs
  unfolding push_all
  push_all-gathered [] c = sym (append-nil _)
  push_all-gathered (r ∷ rs) c =
      push_all-gathered rs (push draw limit r c)
      ∙ (ap (λ l. l ++ rs) (push-gathered r c) ∙ append_assoc (gathered c) (r ∷ []) rs)

  push_all-counted :
      (rs : List DatasetRecord) (c : Copy)
      → counted (push_all draw limit rs c) ≡ counted c + length rs
  unfolding push_all
  push_all-counted [] c = omega arith
  push_all-counted (r ∷ rs) c =
      omega (arith, push_all-counted rs (push draw limit r c), push-counted r c)

  module _ (melt : Row → List DatasetRecord) where
    pub copy_rows-gathered :
        (rows : List Row) (c : Copy)
        → gathered (copy_rows draw limit melt rows c) ≡ gathered c ++ melt_all melt rows
    unfolding copy_rows melt_all
    copy_rows-gathered [] c = sym (append-nil _)
    copy_rows-gathered (row ∷ rows) c =
        copy_rows-gathered rows (push_all draw limit (melt row) c)
        ∙ (ap (λ l. l ++ melt_all melt rows) (push_all-gathered (melt row) c)
            ∙ append_assoc (gathered c) (melt row) (melt_all melt rows))

    pub copy_rows-counted :
        (rows : List Row) (c : Copy)
        → counted (copy_rows draw limit melt rows c) ≡ counted c + length (melt_all melt rows)
    unfolding copy_rows melt_all
    copy_rows-counted [] c = omega arith
    copy_rows-counted (row ∷ rows) c = omega (
      arith,
      copy_rows-counted rows (push_all draw limit (melt row) c),
      push_all-counted (melt row) c,
      length-append {0} (melt row) (melt_all melt rows),
    )

pub append-cancel_left {ℓ} : {A : Type ℓ} (xs ys zs : List A) → xs ++ ys ≡ xs ++ zs → ys ≡ zs
append-cancel_left [] ys zs e = e
append-cancel_left (x ∷ xs) ys zs e = append-cancel_left xs ys zs (cc)

pub All-left {ℓ κ} : {A : Type ℓ} (P : A → Type κ) (xs ys : List A) → All P (xs ++ ys) → All P xs
unfolding All
All-left P [] ys h = tt
All-left P (x ∷ xs) ys (h, hs) = (h, All-left P xs ys hs)

-- More was copied, and nothing else changed in the table.
abbrev pub Extends : Copy → Copy → Type 0
Extends c d = (copied : List DatasetRecord) × (rows_of d.table ≡ rows_of c.table ++ copied)

pub Extends-trans : (c d e : Copy) → Extends c d → Extends d e → Extends c e
Extends-trans c d e (xs, p) (ys, q) =
    (xs ++ ys, q ∙ (ap (λ l. l ++ ys) p ∙ append_assoc (rows_of c.table) xs ys))

module _ (draw : ℕ → ℕ) (limit : ℕ) where
  pub flush_chunk-Extends : (c : Copy) → Extends c (flush_chunk draw limit c)
  flush_chunk-Extends c = (c.chunk, flush_chunk-rows draw limit c)

  push-Extends : (r : DatasetRecord) (c : Copy) → Extends c (push draw limit r c)
  unfolding push
  push-Extends r c = elim (Bool-cases (leb limit (length (c.chunk ++ (r ∷ []))))) [
    | inl e ↦ rw e (flush_chunk-Extends (record c { chunk = c.chunk ++ (r ∷ []) }))
    | inr e ↦ rw e ([], sym (append-nil _))
  ]

  push_all-Extends : (rs : List DatasetRecord) (c : Copy) → Extends c (push_all draw limit rs c)
  unfolding push_all
  push_all-Extends [] c = ([], sym (append-nil _))
  push_all-Extends (r ∷ rs) c =
      let next = push draw limit r c in
      Extends-trans c next (push_all draw limit rs next) (push-Extends r c)
        (push_all-Extends rs next)

  pub copy_rows-Extends :
      (melt : Row → List DatasetRecord) (rows : List Row) (c : Copy)
      → Extends c (copy_rows draw limit melt rows c)
  unfolding copy_rows
  copy_rows-Extends melt [] c = ([], sym (append-nil _))
  copy_rows-Extends melt (row ∷ rows) c =
      let next = push_all draw limit (melt row) c in
      Extends-trans c next (copy_rows draw limit melt rows next) (push_all-Extends (melt row) c)
        (copy_rows-Extends melt rows next)
