-- ===== src/Prelude/Lists.antt =====
-- Lists and optional values with Boolean tests: Python's `any`, `all`, `in` and the truth of an
-- optional value.
use Prim.Native.Nat.{ℕ, suc}
use mathlib.Core.Bool.{Bool, true, false, ◌&&◌, ◌||◌}
use mathlib.Core.List.{List, [], ◌∷◌, ◌++◌}
use mathlib.Core.Option.{Option, none, some}
use mathlib.Core.Path.{◌≡◌}
use native.Mathlib.Omega.{arith}

module _ {ℓ} {A : Type ℓ} where
  abbrev pub length : List A → ℕ
  length [] = 0
  length (x ∷ xs) = suc (length xs)

  abbrev pub any : (A → Bool) → List A → Bool
  any p [] = false
  any p (x ∷ xs) = p x || any p xs

  abbrev pub all : (A → Bool) → List A → Bool
  all p [] = true
  all p (x ∷ xs) = p x && all p xs

  -- `x is not None`
  abbrev pub is_some : Option A → Bool
  is_some none = false
  is_some (some _) = true

-- `a && b` holds where each part is implied by a part that holds.
pub &&-mono :
    (a b c d : Bool)
    → (a ≡ true → c ≡ true)
    → (b ≡ true → d ≡ true)
    → (a && b) ≡ true
    → (c && d) ≡ true
&&-mono true true c d f g h = ground arith
&&-mono true false c d f g h = cc
&&-mono false b c d f g h = cc

pub &&-intro : (a b : Bool) → a ≡ true → b ≡ true → (a && b) ≡ true
&&-intro a b h k = ground arith

pub ||-true : (a : Bool) → (a || true) ≡ true
||-true a = ground arith

pub &&-false : (a : Bool) → (a && false) ≡ false
&&-false a = ground arith

-- Membership, and what holds of all elements, as types.
pub data In {ℓ} {A : Type ℓ} (x : A) : List A → Type ℓ where
  here : (xs : List A) → In x (x ∷ xs)
  there : (y : A) (xs : List A) → In x xs → In x (y ∷ xs)

unfoldable pub All {ℓ κ} : {A : Type ℓ} → (A → Type κ) → List A → Type κ
All P [] = Unit
All P (x ∷ xs) = P x × All P xs

pub In-append_left {ℓ} : {A : Type ℓ} {x : A} (xs ys : List A) → In x xs → In x (xs ++ ys)
In-append_left [] ys m = elim m [ ]
In-append_left (x ∷ xs) ys (In.here _) = In.here (xs ++ ys)
In-append_left (y ∷ xs) ys (In.there _ _ m) = In.there y (xs ++ ys) (In-append_left xs ys m)

pub In-append_right {ℓ} : {A : Type ℓ} {x : A} (xs ys : List A) → In x ys → In x (xs ++ ys)
In-append_right [] ys m = m
In-append_right (y ∷ xs) ys m = In.there y (xs ++ ys) (In-append_right xs ys m)

pub All-append {ℓ κ} :
    {A : Type ℓ} (P : A → Type κ) (xs ys : List A) → All P xs → All P ys → All P (xs ++ ys)
unfolding All
All-append P [] ys h k = k
All-append P (x ∷ xs) ys (p, h) k = (p, All-append P xs ys h k)
