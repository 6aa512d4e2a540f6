-- ===== src/Catalog/Gridded/Missing.antt =====
-- What the preview of a gridded file shows: its times, and values that are missing.
use mathlib.Core.List.{append_assoc, append-nil}
use bodp_app.Prelude.{
  ℕ, suc, ◌≡◌, refl, sym, ap, ◌∙◌, true, false, Option, none, some, String, List, [], ◌∷◌, ◌++◌,
  length, leb, is_some, arith, All, All-append, Option-cases, Bool-cases, inl, inr,
}
use bodp_app.Prelude.Int.{ℤ}
use bodp_app.Catalog.Filter.{RecordsFilter}
use bodp_app.Catalog.Preview.{PreviewRow, take}
use bodp_app.Catalog.Gridded.{
  Variable, Grid, find_var, filtered, flat_values, row_time, is_skipped, grid_row, add_values,
  preview_rows, grid_records, names_of, selected_vars,
}

unfoldable pub AllFloat64 : List Variable → Type 0
AllFloat64 [] = Unit
AllFloat64 (v ∷ vs) = (v.is_float32 ≡ false) × AllFloat64 vs

find_var-float64 :
    (name : String) (vs : List Variable) (v : Variable)
    → AllFloat64 vs
    → find_var name vs ≡ some v
    → v.is_float32 ≡ false
unfolding find_var AllFloat64
find_var-float64 name [] v h e = cc
find_var-float64 name (u ∷ vs) v (hu, h) e = ground (arith, find_var-float64 name vs v h)

module _ (units : Option String) (format : String) (limit : ℕ) (time : Option ℕ)
    (P : PreviewRow → Type 0) where
  -- A property of every row that the loops may add holds of every row of the preview.
  add_values-All :
      (v : Variable) (xs : List (Option ℤ)) (acc : List PreviewRow)
      → ((x : Option ℤ)
          → is_skipped v.is_float32 x ≡ false
          → P (grid_row units format limit time v.name x))
      → All P acc
      → All P (add_values units format limit time v xs acc)
  unfolding add_values All
  add_values-All v [] acc rows h = h
  add_values-All v (x ∷ xs) acc rows h = elim (Bool-cases (leb limit (length acc))) [
    | inl full ↦ rw full h
    | inr room ↦ elim (Bool-cases (is_skipped v.is_float32 x)) [
      | inl skip ↦ rw (room, skip) (add_values-All v xs acc rows h)
      | inr keep ↦
          rw (room, keep)
            (add_values-All v xs (acc ++ (grid_row units format limit time v.name x ∷ [])) rows
              (All-append P acc _ h (rows x keep, tt)))
    ]
  ]

  preview_rows-All :
      (f : RecordsFilter) (g : Grid)
      → ((n : String) (v : Variable) (x : Option ℤ)
          → find_var n g.data_vars ≡ some v
          → is_skipped v.is_float32 x ≡ false
          → P (grid_row units format limit time v.name x))
      → (names : List String) (acc : List PreviewRow) → All P acc
      → All P (preview_rows units format limit time f g names acc)
  unfolding preview_rows
  preview_rows-All f g rows [] acc h = h
  preview_rows-All f g rows (n ∷ ns) acc h = elim (Option-cases (find_var n g.data_vars)) [
    | inl e ↦ rw (e, preview_rows) h
    | inr (v, e) ↦ elim (Bool-cases (leb limit (length acc))) [
      | inl full ↦ rw (e, preview_rows) (rw full h)
      | inr room ↦
          rw (e, preview_rows)
            (rw room (
              preview_rows-All f g rows ns _ (
                add_values-All v (flat_values (take 3 (filtered f g v))) acc (λ x k. rows n v x e k)
                  h)))
    ]
  ]

-- Where every variable is of float64, every row of the preview has a value.
pub grid_records-have_values :
    (f : RecordsFilter) (registered : List String) (units : Option String) (format : String)
    (limit : ℕ) (g : Grid)
    → AllFloat64 g.data_vars
    → All (λ r. is_some r.value ≡ true) (grid_records f registered units format limit g).preview
unfolding grid_records All
grid_records-have_values f registered units format limit g h =
    preview_rows-All units format limit _ _ f g
      (λ n v x e k. ground (arith, find_var-float64 n g.data_vars v h e))
      (selected_vars f (names_of registered g)) [] tt

-- All rows of the preview have the time of the first instant, though values of three instants are shown.
pub grid_records-one_time :
    (f : RecordsFilter) (registered : List String) (units : Option String) (format : String)
    (limit : ℕ) (g : Grid)
    → All
        (λ r. r.time ≡ row_time f g.times)
        (grid_records f registered units format limit g).preview
unfolding grid_records All
grid_records-one_time f registered units format limit g =
    preview_rows-All units format limit _ _ f g (λ n v x e k. refl)
      (selected_vars f (names_of registered g)) [] tt

-- A file whose first wanted variable is of float32 and begins with a missing value.
pub record BeginsMissing (f : RecordsFilter) (registered : List String) (g : Grid) : Type 0 where
  pub name : String
  pub others : List String
  pub wanted : selected_vars f (names_of registered g) ≡ name ∷ others
  pub variable : Variable
  pub found : find_var name g.data_vars ≡ some variable
  pub single : variable.is_float32 ≡ true
  pub later : List (Option ℤ)
  pub begins : flat_values (take 3 (filtered f g variable)) ≡ none ∷ later

module _ (units : Option String) (format : String) (limit : ℕ) (time : Option ℕ) where
  add_values-extends :
      (v : Variable) (xs : List (Option ℤ)) (acc : List PreviewRow)
      → (more : List PreviewRow) × (add_values units format limit time v xs acc ≡ acc ++ more)
  unfolding add_values
  add_values-extends v [] acc = ([], sym (append-nil acc))
  add_values-extends v (x ∷ xs) acc = elim (Bool-cases (leb limit (length acc))) [
    | inl full ↦ ([], rw full (sym (append-nil acc)))
    | inr room ↦ elim (Bool-cases (is_skipped v.is_float32 x)) [
      | inl skip ↦ rw (room, skip) (add_values-extends v xs acc)
      | inr keep ↦
          let row = grid_row units format limit time v.name x in
          let (more, e) = add_values-extends v xs (acc ++ (row ∷ [])) in
          (row ∷ more, rw (room, keep) (e ∙ append_assoc acc (row ∷ []) more))
    ]
  ]

  preview_rows-extends :
      (f : RecordsFilter) (g : Grid) (names : List String) (acc : List PreviewRow)
      → (more : List PreviewRow) × (preview_rows units format limit time f g names acc
          ≡ acc ++ more)
  unfolding preview_rows
  preview_rows-extends f g [] acc = ([], sym (append-nil acc))
  preview_rows-extends f g (n ∷ ns) acc = elim (Option-cases (find_var n g.data_vars)) [
    | inl e ↦ ([], rw (e, preview_rows) (sym (append-nil acc)))
    | inr (v, e) ↦ elim (Bool-cases (leb limit (length acc))) [
      | inl full ↦ ([], rw (e, preview_rows) (rw full (sym (append-nil acc))))
      | inr room ↦
          let values = flat_values (take 3 (filtered f g v)) in
          let (first, p) = add_values-extends v values acc in
          let (rest, q) =
            preview_rows-extends f g ns (add_values units format limit time v values acc) in
          (
            first ++ rest,
            rw (e, preview_rows)
                (rw room (q ∙ (ap (λ l. l ++ rest) p ∙ append_assoc acc first rest))),
          )
    ]
  ]

module _ (units : Option String) (format : String) (n : ℕ) (time : Option ℕ) where
  has_room : leb (suc n) 0 ≡ false
  has_room = ground arith

  preview_rows-first :
      (f : RecordsFilter) (g : Grid) (name : String) (others : List String) (v : Variable)
      → find_var name g.data_vars ≡ some v
      → preview_rows units format (suc n) time f g (name ∷ others) []
        ≡ preview_rows units format
            (suc n)
            time
            f
            g
            others
            (add_values units format (suc n) time v (flat_values (take 3 (filtered f g v))) [])
  unfolding preview_rows
  preview_rows-first f g name others v e = rw (e, preview_rows) (rw has_room refl)

  -- A missing value of float32 is shown.
  add_values-missing :
      (v : Variable) (xs : List (Option ℤ))
      → v.is_float32 ≡ true
      → add_values units format (suc n) time v (none ∷ xs) []
        ≡ add_values units format
            (suc n)
            time
            v
            xs
            (grid_row units format (suc n) time v.name none ∷ [])
  unfolding add_values
  add_values-missing v xs single =
      let shown : is_skipped v.is_float32 none ≡ false = ap (λ b. is_skipped b none) single in
      rw (has_room, shown) refl

-- Where the first wanted variable is of float32 and begins with a missing value, every preview of one
-- row or more begins with a row that has no value.
pub grid_records-shows_missing :
    (f : RecordsFilter) (registered : List String) (units : Option String) (format : String) (n : ℕ)
    (g : Grid)
    → BeginsMissing f registered g
    → (row : PreviewRow) × (rest : List PreviewRow) × ((grid_records f registered units format
          (suc n)
          g).preview
        ≡ row ∷ rest)
      × (row.value ≡ none)
unfolding grid_records
grid_records-shows_missing f registered units format n g b =
    let time = row_time f g.times in
    let row = grid_row units format (suc n) time b.variable.name none in
    let (more, p) = add_values-extends units format (suc n) time b.variable b.later (row ∷ []) in
    let (rest, q) =
      preview_rows-extends units format (suc n) time f g b.others
        (add_values units format (suc n) time b.variable (none ∷ b.later) []) in
    (
      row,
      more ++ rest,
      ap (λ names. preview_rows units format (suc n) time f g names []) b.wanted
          ∙ (preview_rows-first units format n time f g b.name b.others b.variable b.found
              ∙ (ap
                    (λ xs.
                      preview_rows units format (suc n) time f g b.others
                        (add_values units format (suc n) time b.variable xs []))
                    b.begins
                  ∙ (q
                      ∙ ap (λ l. l ++ rest)
                          (add_values-missing units format n time b.variable b.later b.single
                            ∙ p)))),
      refl,
    )
