-- ===== src/Catalog/Totals.antt =====
-- The counts of a request's matches (`get_matching_record_counts`) against the counts that come
-- with the rows (`get_filtered_records`), over all three stores of a dataset.
use bodp_app.Prelude.{
  ℕ, ◌≤◌, ◌≡◌, refl, sym, ap, ◌∙◌, subst, zero, suc, Bool, true, List, [], ◌∷◌, length, arith,
  Bool-cases, inl, inr, ◌==◌,
}
use bodp_app.Table.{rows_of}
use bodp_app.Models.{DatasetFile, DatasetRecord}
use bodp_app.Database.{Db}
use bodp_app.Catalog.Filter.{RecordsFilter, Spatial, apply_record_filters}
use bodp_app.Catalog.Preview.{FilteredRecords, take, count, filter}
use bodp_app.Catalog.Tabular.{build_where}
use bodp_app.Catalog.Gridded.{grid_records}
use bodp_app.Catalog.Gridded.Bounds.{grid_counts-≤}
use bodp_app.Catalog.Records.{
  Lake, gridded_counts, gridded_records, tabular_counts, tabular_records, add_counts, add_records,
  sql_counts, sql_records, get_matching_record_counts, get_filtered_records,
}

-- The two counts of a result.
abbrev pub counts_of : FilteredRecords → ℕ × ℕ
counts_of r = (r.matching, r.total)

length-take {ℓ} : {A : Type ℓ} (n : ℕ) (xs : List A) → length (take n xs) ≤ n
unfolding take
length-take zero xs = ground arith
length-take (suc n) [] = ground arith
length-take (suc n) (x ∷ xs) = ground (arith, length-take n xs)

count-length {ℓ} : {A : Type ℓ} (p : A → Bool) (xs : List A) → count p xs ≤ length xs
unfolding count
count-length p [] = ground arith
count-length p (x ∷ xs) = ground (arith, count-length p xs)

count-filter {ℓ} : {A : Type ℓ} (p : A → Bool) (xs : List A) → count p xs ≡ length (filter p xs)
unfolding count filter
count-filter p [] = refl
count-filter p (x ∷ xs) = elim (Bool-cases (p x)) [
  | inl e ↦ ground (arith, count-filter p xs, e)
  | inr e ↦ ground (arith, count-filter p xs, e)
]

-- A test that implies another one counts no more.
count_mono {ℓ} :
    {A : Type ℓ} (p q : A → Bool) (xs : List A)
    → ((x : A) → p x ≡ true → q x ≡ true)
    → count p xs ≤ count q xs
unfolding count
count_mono p q [] h = ground arith
count_mono p q (x ∷ xs) h = elim (Bool-cases (p x)) [
  | inl e ↦ ground (arith, count_mono p q xs h, h x e)
  | inr e ↦ ground (arith, count_mono p q xs h)
]

add_records-add_counts :
    (g : DatasetFile → ℕ × ℕ) (h : DatasetFile → FilteredRecords) (files : List DatasetFile)
    (acc : FilteredRecords)
    → ((file : DatasetFile) → g file ≡ counts_of (h file))
    → counts_of (add_records h files acc) ≡ add_counts g files (counts_of acc)
unfolding add_records add_counts
add_records-add_counts g h [] acc agree = refl
add_records-add_counts g h (file ∷ files) acc agree =
    simp (add_records-add_counts g h files _ agree, agree file)

add_counts-≤ :
    (g : DatasetFile → ℕ × ℕ) (files : List DatasetFile) (acc : ℕ × ℕ)
    → ((file : DatasetFile) → (g file).0 ≤ (g file).1)
    → acc.0 ≤ acc.1
    → (add_counts g files acc).0 ≤ (add_counts g files acc).1
unfolding add_counts
add_counts-≤ g [] acc h k = k
add_counts-≤ g (file ∷ files) acc h k = add_counts-≤ g files _ h (omega (arith, h file))

module _ (sp : Spatial) (lake : Lake) (f : RecordsFilter) (dataset_id : ℕ) (db : Db) where
  sql_counts-≤ : (sql_counts sp lake f dataset_id db).0 ≤ (sql_counts sp lake f dataset_id db).1
  unfolding sql_counts apply_record_filters
  sql_counts-≤ = count_mono _ _ (rows_of db.dataset_records) (λ r h. ground arith)

  -- Each store counts for itself what its rows come to.
  tabular_counts-tabular_records :
      (limit : ℕ) (file : DatasetFile)
      → tabular_counts sp lake f file ≡ counts_of (tabular_records sp lake f limit file)
  unfolding tabular_counts tabular_records
  tabular_counts-tabular_records limit file =
      ap (λ n. (n, length (lake.rows file)))
        (count-filter (build_where sp (lake.columns file) f) (lake.rows file))

  sql_counts-sql_records :
      (limit : ℕ)
      → sql_counts sp lake f dataset_id db ≡ counts_of (sql_records sp lake f dataset_id db limit)
  unfolding sql_counts sql_records
  sql_counts-sql_records limit =
      let rows = rows_of db.dataset_records in
      λ i. (
        count-filter (apply_record_filters sp db.stations dataset_id f) rows i,
        count-filter (λ (r : DatasetRecord). r.dataset_id == dataset_id) rows i,
      )

  counts_bounded :
      (get_matching_record_counts sp lake f dataset_id db).0
      ≤ (get_matching_record_counts sp lake f dataset_id db).1
  unfolding get_matching_record_counts tabular_counts
  counts_bounded =
      add_counts-≤ _ _ _ (λ file. grid_counts-≤ f (lake.registered file) (lake.grid file))
        (add_counts-≤ _ _ _ (λ file. count-length _ _) sql_counts-≤)

  -- The counts alone are the counts that come with the rows.
  pub get_matching_record_counts-get_filtered_records :
      (limit : ℕ)
      → get_matching_record_counts sp lake f dataset_id db
        ≡ counts_of (get_filtered_records sp lake f dataset_id db limit)
  unfolding get_matching_record_counts get_filtered_records grid_records
  get_matching_record_counts-get_filtered_records limit = sym (
      add_records-add_counts (gridded_counts lake f) (gridded_records lake f limit) _ _
        (λ file. refl)
      ∙ ap (add_counts (gridded_counts lake f) _) (
          add_records-add_counts (tabular_counts sp lake f) (tabular_records sp lake f limit) _ _
            (tabular_counts-tabular_records limit)
          ∙ ap (add_counts (tabular_counts sp lake f) _) (sym (sql_counts-sql_records limit))))

  -- However many rows there are, a preview has at most as many as asked for, and no more rows match
  -- than there are.
  pub get_filtered_records-bounds :
      (limit : ℕ)
      → (length (get_filtered_records sp lake f dataset_id db limit).preview ≤ limit)
        × ((get_filtered_records sp lake f dataset_id db limit).matching
            ≤ (get_filtered_records sp lake f dataset_id db limit).total)
  unfolding get_filtered_records
  get_filtered_records-bounds limit = (
    length-take limit _,
    subst (λ c. c.0 ≤ c.1) (get_matching_record_counts-get_filtered_records limit) counts_bounded,
  )
