-- ===== src/Table/Defs.antt =====
-- Tables and the queries that the program runs on them.
use bodp_app.Prelude.{ℕ, ◌+◌, ◌≡◌, Bool, Option, none, some, List, [], ◌∷◌, ◌==◌, if◌then◌else◌}

abbrev pub Table {ℓ} : Type ℓ → Type ℓ
Table R = List (ℕ × R)

module _ {ℓ} {R : Type ℓ} where
  -- `db.get(Model, key)`
  unfoldable pub find : ℕ → Table R → Option R
  find k [] = none
  find k ((j, r) ∷ t) = if j == k then some r else find k t

  -- `db.add(row)`; a fresh row comes first
  unfoldable pub insert : ℕ → R → Table R → Table R
  insert k r t = (k, r) ∷ t

  -- assignments to the attributes of the row with this key
  unfoldable pub update : ℕ → (R → R) → Table R → Table R
  update k f [] = []
  update k f ((j, r) ∷ t) = if j == k then (j, f r) ∷ t else (j, r) ∷ update k f t

  -- assignments to every row that a query selects
  unfoldable pub update_where : (R → Bool) → (R → R) → Table R → Table R
  update_where p f [] = []
  update_where p f ((j, r) ∷ t) = (j, if p r then f r else r) ∷ update_where p f t

  -- `delete(Model).where(p)`
  unfoldable pub delete_where : (R → Bool) → Table R → Table R
  delete_where p [] = []
  delete_where p ((j, r) ∷ t) = let rest = delete_where p t in if p r then rest else (j, r) ∷ rest

  -- the keys of the rows that a query selects
  unfoldable pub keys_where : (R → Bool) → Table R → List ℕ
  keys_where p [] = []
  keys_where p ((j, r) ∷ t) = let rest = keys_where p t in if p r then j ∷ rest else rest

  -- `select(func.count()).where(p)`
  unfoldable pub count_where : (R → Bool) → Table R → ℕ
  count_where p [] = 0
  count_where p ((j, r) ∷ t) = (if p r then 1 else 0) + count_where p t

  -- the rows that a query selects, with their keys
  unfoldable pub rows_where : (R → Bool) → Table R → List (ℕ × R)
  rows_where p [] = []
  rows_where p ((j, r) ∷ t) = let rest = rows_where p t in if p r then (j, r) ∷ rest else rest

  -- `db.delete(row)`
  unfoldable pub delete : ℕ → Table R → Table R
  delete k [] = []
  delete k ((j, r) ∷ t) = if j == k then t else (j, r) ∷ delete k t

  -- the first row that a query selects
  unfoldable pub find_where : (R → Bool) → Table R → Option (ℕ × R)
  find_where p [] = none
  find_where p ((j, r) ∷ t) = if p r then some (j, r) else find_where p t

  -- No key is used twice: the primary key constraint.
  abbrev pub IsKeyed : Table R → Type ℓ
  IsKeyed [] = Unit
  IsKeyed ((j, r) ∷ t) = (find j t ≡ none) × IsKeyed t

-- The rows without their keys.
unfoldable pub rows_of {ℓ} : {R : Type ℓ} → Table R → List R
rows_of [] = []
rows_of ((k, r) ∷ t) = r ∷ rows_of t
