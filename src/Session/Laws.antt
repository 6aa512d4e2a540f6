-- ===== src/Session/Laws.antt =====
-- Splitting on how a call ended.
use bodp_app.Prelude.{◌≡◌, refl, ◌⊎◌, inl, inr, none, some, List, [], ◌∷◌}
use bodp_app.Session.Defs.{Error, Result, ok, err, scalar_one_or_none}

pub Result-cases {ℓ} :
    {A : Type ℓ} (r : Result A) → ((a : A) × (r ≡ ok a)) ⊎ ((e : Error) × (r ≡ err e))
Result-cases (ok a) = inl (a, refl)
Result-cases (err e) = inr (e, refl)

-- A row comes from a query that selects one.
pub scalar-one-row {ℓ} :
    {A : Type ℓ} (xs : List A) (x : A) → scalar_one_or_none xs ≡ ok (some x) → xs ≡ x ∷ []
unfolding scalar_one_or_none
scalar-one-row [] x e = cc
scalar-one-row (y ∷ []) x e = cc
scalar-one-row (y ∷ z ∷ xs) x e = cc

pub scalar-no-row {ℓ} : {A : Type ℓ} (xs : List A) → scalar_one_or_none xs ≡ ok none → xs ≡ []
unfolding scalar_one_or_none
scalar-no-row [] e = refl
scalar-no-row (y ∷ []) e = cc
scalar-no-row (y ∷ z ∷ xs) e = cc
