-- ===== src/Session/Defs.antt =====
-- Sessions, errors and the monad of handlers.
use bodp_app.Prelude.{ℕ, Bool, true, false, Option, none, some, List, [], ◌∷◌}

-- `http c` is an HTTPException (or AuthError) with status code `c`; `crash` is any other
-- exception that reaches the framework.
pub data Error : Type 0 where
  http : ℕ → Error
  crash : Error

pub data Result {ℓ} (A : Type ℓ) : Type ℓ where
  ok : A → Result A
  err : Error → Result A

pub record Session {ℓ} (S : Type ℓ) : Type ℓ where
  pub committed : S
  pub working : S

abbrev pub Txn {ℓ} : Type ℓ → Type ℓ → Type ℓ
Txn S A = Session S → Result A × Session S

module _ {ℓ} {S A : Type ℓ} where
  abbrev pub pure : A → Txn S A
  pure a s = (ok a, s)

  abbrev pub raise : Error → Txn S A
  raise e s = (err e, s)

  -- an error of a pure helper
  abbrev pub lift : Result A → Txn S A
  lift r s = (r, s)

  abbrev pub gets : (S → A) → Txn S A
  gets f s = (ok (f s.working), s)

  abbrev pub or_raise : Option A → Error → Txn S A
  or_raise none e s = (err e, s)
  or_raise (some a) e s = (ok a, s)

module _ {ℓ} {S : Type ℓ} where
  abbrev pub modify : (S → S) → Txn S (Unit {ℓ})
  modify f s = (ok tt, record s { working = f s.working })

  abbrev pub commit : Txn S (Unit {ℓ})
  commit s = (ok tt, record s { committed = s.working })

  abbrev pub raise_if : Bool → Error → Txn S (Unit {ℓ})
  raise_if true e s = (err e, s)
  raise_if false e s = (ok tt, s)

module _ {ℓ} {S A B : Type ℓ} where
  abbrev pub continue : Result A → (A → Txn S B) → Txn S B
  continue (ok a) f s = f a s
  continue (err e) f s = (err e, s)

  infixl 5 ◌>>=◌ ◌>>◌
  abbrev pub ◌>>=◌ : Txn S A → (A → Txn S B) → Txn S B
  ◌>>=◌ m f s = let (r, s') = m s in continue r f s'

  abbrev pub ◌>>◌ : Txn S A → Txn S B → Txn S B
  m >> n = m >>= λ _. n

-- `scalar_one_or_none` of a query's rows: more than one is an exception.
unfoldable pub scalar_one_or_none {ℓ} : {A : Type ℓ} → List A → Result (Option A)
scalar_one_or_none [] = ok none
scalar_one_or_none (x ∷ []) = ok (some x)
scalar_one_or_none (x ∷ y ∷ xs) = err crash

-- One handler call: a fresh session over the database, whose pending writes are dropped at the
-- end.
abbrev pub run {ℓ} : {S A : Type ℓ} → Txn S A → S → Result A × S
run m db = let (r, s) = m (record { committed = db; working = db }) in (r, s.committed)

-- The database after a handler call.
abbrev pub exec {ℓ} : {S A : Type ℓ} → Txn S A → S → S
exec m db = (run m db).1

-- The response of a handler call.
abbrev pub reply {ℓ} : {S A : Type ℓ} → Txn S A → S → Result A
reply m db = (run m db).0
