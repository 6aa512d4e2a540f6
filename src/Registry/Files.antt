-- ===== src/Registry/Files.antt =====
-- The registry after any files, against a description that does not know their order
-- (backend/app/worker/tasks/ingestion.py).
use bodp_app.Prelude.{
  ℕ, ◌≡◌, refl, sym, ap, ◌∙◌, subst, inl, inr, true, false, any, Option, none, some, String, List,
  [], ◌∷◌, ◌++◌, if◌then◌else◌, arith, All, In, Bool-cases, length,
}
use bodp_app.Prelude.Int.{ℤ, ltb_ℤ}
use bodp_app.Parsers.Csv.{merge, min_ℤ, max_ℤ, Span, col_fold}
use bodp_app.Parsers.Chunks.{IsAssociative, merge-none, merge_assoc, min_assoc, max_assoc}
use bodp_app.Parsers.Extents.{span, least, greatest}
use bodp_app.Registry.Limits.{detection_fits}
use bodp_app.Registry.{
  DatasetVariable, Detected, Shape, and_then, upsert_dataset_variable, upsert_all,
  detected_variables, with_count, write_variable_registry, register_files,
}
use bodp_app.Registry.Ranges.{lookup, IsUnique, names_it, all_after, span_of, upsert_all-Widened}

-- What the detections of a variable give on one side of its range.
abbrev pub cons_given : Option ℤ → List ℤ → List ℤ
cons_given none vs = vs
cons_given (some v) vs = v ∷ vs

unfoldable pub given : (Span → Option ℤ) → ℕ → String → List Detected → List ℤ
given side d n [] = []
given side d n (c ∷ cs) =
    let rest = given side d n cs in if names_it d n c then cons_given (side c.range) rest else rest

abbrev pub lows : ℕ → String → List Detected → List ℤ
lows d n cs = given (λ s. s.lowest) d n cs

abbrev pub highs : ℕ → String → List Detected → List ℤ
highs d n cs = given (λ s. s.highest) d n cs

col_fold-cons_given :
    (f : ℤ → ℤ → ℤ) (o : Option ℤ) (vs : List ℤ)
    → merge f o (col_fold f vs) ≡ col_fold f (cons_given o vs)
unfolding col_fold
col_fold-cons_given f none vs = refl
col_fold-cons_given f (some v) vs = refl

merge-cons_given :
    (f : ℤ → ℤ → ℤ)
    → IsAssociative f
    → (a o : Option ℤ) (vs : List ℤ)
    → merge f (merge f a o) (col_fold f vs) ≡ merge f a (col_fold f (cons_given o vs))
merge-cons_given f h a o vs =
    merge_assoc f h a o (col_fold f vs) ∙ ap (merge f a) (col_fold-cons_given f o vs)

module _ (d : ℕ) (n : String) where
  abbrev whole : List Detected → Span
  whole cs = span (col_fold min_ℤ (lows d n cs)) (col_fold max_ℤ (highs d n cs))

  abbrev widened : Span → List Detected → Span
  widened s cs =
      span (merge min_ℤ s.lowest (col_fold min_ℤ (lows d n cs)))
        (merge max_ℤ s.highest (col_fold max_ℤ (highs d n cs)))

  all_after-widened :
      (cs : List Detected) (s : Span) → all_after d n cs (some s) ≡ some (widened s cs)
  unfolding all_after given col_fold
  all_after-widened [] s =
      λ i. some (span (sym (merge-none min_ℤ s.lowest) i) (sym (merge-none max_ℤ s.highest) i))
  all_after-widened (c ∷ cs) s = elim (Bool-cases (names_it d n c)) [
    | inl e ↦ rw e (
        all_after-widened cs _ ∙ (λ i. some (
          span (merge-cons_given min_ℤ min_assoc s.lowest c.range.lowest (lows d n cs) i)
            (merge-cons_given max_ℤ max_assoc s.highest c.range.highest (highs d n cs) i))))
    | inr e ↦ rw e (all_after-widened cs s)
  ]

  all_after-whole :
      (cs : List Detected)
      → all_after d n cs none ≡ (if any (names_it d n) cs then some (whole cs) else none)
  unfolding all_after given
  all_after-whole [] = refl
  all_after-whole (c ∷ cs) = elim (Bool-cases (names_it d n c)) [
    | inl e ↦ rw e (
        all_after-widened cs c.range ∙ (λ i. some (
          span (col_fold-cons_given min_ℤ c.range.lowest (lows d n cs) i)
            (col_fold-cons_given max_ℤ c.range.highest (highs d n cs) i))))
    | inr e ↦ rw e (all_after-whole cs)
  ]

-- The least of some values, or nothing where there are none; and the greatest.
unfoldable pub IsLeast : List ℤ → Option ℤ → Type 0
IsLeast [] o = o ≡ none
IsLeast (v ∷ vs) o = (m : ℤ) × (o ≡ some m) × In m (v ∷ vs) × All (λ x. ltb_ℤ x m ≡ false) (v ∷ vs)

unfoldable pub IsGreatest : List ℤ → Option ℤ → Type 0
IsGreatest [] o = o ≡ none
IsGreatest (v ∷ vs) o =
    (m : ℤ) × (o ≡ some m) × In m (v ∷ vs) × All (λ x. ltb_ℤ m x ≡ false) (v ∷ vs)

col_fold-IsLeast : (vs : List ℤ) → IsLeast vs (col_fold min_ℤ vs)
unfolding IsLeast col_fold
col_fold-IsLeast [] = refl
col_fold-IsLeast (v ∷ vs) = least v vs

col_fold-IsGreatest : (vs : List ℤ) → IsGreatest vs (col_fold max_ℤ vs)
unfolding IsGreatest col_fold
col_fold-IsGreatest [] = refl
col_fold-IsGreatest (v ∷ vs) = greatest v vs

-- The row of a variable, told by all its detections and not by their order.
unfoldable pub Describes : ℕ → String → List Detected → Option DatasetVariable → Type 0
Describes d n cs none = any (names_it d n) cs ≡ false
Describes d n cs (some r) =
    (any (names_it d n) cs ≡ true)
    × IsLeast (lows d n cs) r.min_value
    × IsGreatest (highs d n cs) r.max_value

abbrev side_of : (Span → Option ℤ) → Option Span → Option ℤ
side_of side none = none
side_of side (some s) = side s

span-Describes :
    (d : ℕ) (n : String) (cs : List Detected) (o : Option DatasetVariable)
    → span_of o ≡ (if any (names_it d n) cs then some (whole d n cs) else none)
    → Describes d n cs o
unfolding Describes
span-Describes d n cs none h = ground arith
span-Describes d n cs (some r) h = elim (Bool-cases (any (names_it d n) cs)) [
  | inl e ↦
      let same : some (span r.min_value r.max_value) ≡ some (whole d n cs) =
        h ∙ ap (λ b. if b then some (whole d n cs) else none) e in
      (
        e,
        subst (IsLeast (lows d n cs)) (sym (ap (side_of (λ s. s.lowest)) same))
            (col_fold-IsLeast (lows d n cs)),
        subst (IsGreatest (highs d n cs)) (sym (ap (side_of (λ s. s.highest)) same))
            (col_fold-IsGreatest (highs d n cs)),
      )
  | inr e ↦ absurd (ground arith)
]

-- All detections of some files.
unfoldable pub detections : List (ℕ × Shape) → List Detected
detections [] = []
detections ((d, shape) ∷ files) = detected_variables d shape ++ detections files

and_then-and_then :
    {A B C : Type 0} (o : Option A) (f : A → Option B) (g : B → Option C)
    → and_then (and_then o f) g ≡ and_then o (λ a. and_then (f a) g)
and_then-and_then none f g = refl
and_then-and_then (some a) f g = refl

and_then-with_count :
    (k : ℕ) (o : Option (List DatasetVariable))
    (g : List DatasetVariable → Option (List DatasetVariable))
    → and_then (with_count k o) (λ (n, rs). g rs) ≡ and_then o g
and_then-with_count k none g = refl
and_then-with_count k (some rows) g = refl

upsert_all-append :
    (xs ys : List Detected) (rows : List DatasetVariable)
    → upsert_all (xs ++ ys) rows ≡ and_then (upsert_all xs rows) (upsert_all ys)
unfolding upsert_all
upsert_all-append [] ys rows = refl
upsert_all-append (x ∷ xs) ys rows =
    ap (and_then (upsert_dataset_variable x rows)) (λ i r. upsert_all-append xs ys r i)
    ∙ sym (and_then-and_then (upsert_dataset_variable x rows) (upsert_all xs) (upsert_all ys))

register_files-detections :
    (files : List (ℕ × Shape)) (rows : List DatasetVariable)
    → register_files files rows ≡ upsert_all (detections files) rows
unfolding register_files detections write_variable_registry upsert_all
register_files-detections [] rows = refl
register_files-detections ((d, shape) ∷ files) rows =
    let calls = detected_variables d shape in
    and_then-with_count (length calls) (upsert_all calls rows) (register_files files)
    ∙ (ap (and_then (upsert_all calls rows)) (λ i r. register_files-detections files r i)
        ∙ sym (upsert_all-append calls (detections files) rows))

-- After the ingestion of any files of any datasets into an empty registry, where all that is detected
-- is within the limits of the columns: nothing raises, each variable has at most one row, it has one
-- exactly if some file names it, and its minimum and maximum are then the least and the greatest of
-- those that the files give, in whatever order the files came.
pub register_files-Describes :
    (files : List (ℕ × Shape))
    → All (λ c. detection_fits c ≡ true) (detections files)
    → (rows : List DatasetVariable) × (register_files files [] ≡ some rows)
      × IsUnique rows
      × ((d : ℕ) (n : String) → Describes d n (detections files) (lookup d n rows))
unfolding lookup IsUnique All
register_files-Describes files fits =
    let (rows, e, (u, at)) = upsert_all-Widened (detections files) [] fits tt tt in
    (
      rows,
      register_files-detections files [] ∙ e,
      u,
      λ d n.
          span-Describes d n (detections files) (lookup d n rows)
            (at d n ∙ all_after-whole d n (detections files)),
    )
