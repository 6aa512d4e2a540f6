-- ===== src/Table/Counts.antt =====
-- How the number of rows that a query selects moves with each write.
use bodp_app.Prelude.{
  ℕ, ◌+◌, ◌≡◌, refl, Bool, true, false, length, some, [], ◌∷◌, arith, if◌then◌else◌,
}
use bodp_app.Table.Defs.{Table, find, insert, update, delete, delete_where, rows_where, count_where}

module _ {ℓ} {R : Type ℓ} (p : R → Bool) where
  pub count_where-insert :
      (k : ℕ) (r : R) (t : Table R)
      → count_where p (insert k r t) ≡ (if p r then 1 else 0) + count_where p t
  unfolding count_where insert
  count_where-insert k r t = refl

  -- The row that is written counts as it is afterwards in place of as it was before.
  pub count_where-update :
      (k : ℕ) (f : R → R) (r : R) (t : Table R)
      → find k t ≡ some r
      → count_where p (update k f t) + (if p r then 1 else 0)
        ≡ count_where p t + (if p (f r) then 1 else 0)
  unfolding count_where update find
  count_where-update k f r [] h = ground arith
  count_where-update k f r ((i, q) ∷ t) h = ground (arith, count_where-update k f r t)

  -- A row that is deleted no longer counts.
  pub count_where-delete :
      (k : ℕ) (r : R) (t : Table R)
      → find k t ≡ some r
      → count_where p (delete k t) + (if p r then 1 else 0) ≡ count_where p t
  unfolding count_where delete find
  count_where-delete k r [] h = ground arith
  count_where-delete k r ((i, q) ∷ t) h = ground (arith, count_where-delete k r t)

  -- Deleting only rows that do not count leaves the number as it is.
  pub count_where-delete_where :
      (q : R → Bool) (t : Table R)
      → ((r : R) → q r ≡ true → p r ≡ false)
      → count_where p (delete_where q t) ≡ count_where p t
  unfolding count_where delete_where
  count_where-delete_where q [] h = refl
  count_where-delete_where q ((i, r) ∷ t) h = ground (arith, h r, count_where-delete_where q t h)

  -- Deleting every row that counts leaves none.
  pub count_where-delete_where_all :
      (q : R → Bool) (t : Table R)
      → ((r : R) → p r ≡ true → q r ≡ true)
      → count_where p (delete_where q t) ≡ 0
  unfolding count_where delete_where
  count_where-delete_where_all q [] h = refl
  count_where-delete_where_all q ((i, r) ∷ t) h =
      ground (arith, h r, count_where-delete_where_all q t h)

  pub length-rows_where : (t : Table R) → length (rows_where p t) ≡ count_where p t
  unfolding count_where rows_where
  length-rows_where [] = refl
  length-rows_where ((i, r) ∷ t) = ground (arith, length-rows_where t)
