-- ===== src/Scope/Fields.antt =====
-- One lemma for each kind of criterion: where the check passes and the request sets what the grant
-- sets, the rows that the request's criterion keeps are kept by the grant's.
use bodp_app.Prelude.{
  ℕ, ◌≡◌, refl, Bool, true, false, not, any, Option, none, some, String, eq_iff, List, [], ◌∷◌, map,
  arith,
}
use bodp_app.Prelude.Int.{ℤ, ltb_ℤ}
use bodp_app.Scope.Criteria.{Bounds, truthy, is_cons, contains, is_iso_date}
use bodp_app.Scope.Validate.{
  text_outside, parameters_outside, starts_before, ends_after, depth_ltb, bounds_outside,
}
use bodp_app.Scope.Mask

abbrev pub Given : Bool → Bool → Type 0
Given g r = g ≡ true → r ≡ true

abbrev pub is_given {ℓ} : {A : Type ℓ} → Option A → Bool
is_given none = false
is_given (some x) = true

-- A date that is set has the form of an ISO date.
abbrev pub IsIso : Option String → Type 0
IsIso none = Unit
IsIso (some s) = truthy (some s) ≡ true → is_iso_date s ≡ true

contains-lower :
    (lower : String → String) (p : String) (gs : List String)
    → contains gs p ≡ true
    → contains (map lower gs) (lower p) ≡ true
contains-lower lower p [] h = cc
contains-lower lower p (g ∷ gs) h =
    ground (arith, eq_iff g p, eq_iff (lower g) (lower p), contains-lower lower p gs)

contains-narrows :
    (lower : String → String) (gs rs : List String) (y : String)
    → any (λ p. not (contains gs p)) rs ≡ false
    → contains (map lower rs) y ≡ true
    → contains (map lower gs) y ≡ true
contains-narrows lower gs [] y inside h = cc
contains-narrows lower gs (r ∷ rs) y inside h =
    ground (arith, eq_iff (lower r) y, contains-lower lower r gs, contains-narrows lower gs rs y)

module _ (pd : Mask.Pandas) where
  open pd use {Cell, to_datetime, to_numeric, to_str, timestamp, timestamp_mono, lower}

  pub text_ok-narrows :
      (g r : Option String) (x : Option Cell)
      → text_outside g r ≡ false
      → Given (truthy g) (truthy r)
      → Mask.text_ok pd r x ≡ true
      → Mask.text_ok pd g x ≡ true
  unfolding text_outside
  text_ok-narrows g r none inside given h = refl
  text_ok-narrows none r (some x) inside given h = refl
  text_ok-narrows (some g) none (some x) inside given h = ground arith
  text_ok-narrows (some g) (some r) (some x) inside given h = ground (arith, eq_iff r g)

  pub from_ok-narrows :
      (g r : Option String) (t : Option ℕ)
      → starts_before g r ≡ false
      → Given (truthy g) (truthy r)
      → IsIso g
      → IsIso r
      → Mask.from_ok pd r t ≡ true
      → Mask.from_ok pd g t ≡ true
  unfolding starts_before
  from_ok-narrows none r t inside given ig ir h = refl
  from_ok-narrows (some g) none t inside given ig ir h = ground arith
  from_ok-narrows (some g) (some r) t inside given ig ir h = ground (arith, timestamp_mono g r)

  pub until_ok-narrows :
      (g r : Option String) (t : Option ℕ)
      → ends_after g r ≡ false
      → Given (truthy g) (truthy r)
      → IsIso g
      → IsIso r
      → Mask.until_ok pd r t ≡ true
      → Mask.until_ok pd g t ≡ true
  unfolding ends_after
  until_ok-narrows none r t inside given ig ir h = refl
  until_ok-narrows (some g) none t inside given ig ir h = ground arith
  until_ok-narrows (some g) (some r) t inside given ig ir h = ground (arith, timestamp_mono r g)

  pub min_ok-narrows :
      (g r x : Option ℤ)
      → depth_ltb r g ≡ false
      → Given (is_given g) (is_given r)
      → Mask.min_ok pd r x ≡ true
      → Mask.min_ok pd g x ≡ true
  unfolding depth_ltb
  min_ok-narrows g r x inside given h = ground arith

  pub max_ok-narrows :
      (g r x : Option ℤ)
      → depth_ltb g r ≡ false
      → Given (is_given g) (is_given r)
      → Mask.max_ok pd r x ≡ true
      → Mask.max_ok pd g x ≡ true
  unfolding depth_ltb
  max_ok-narrows g r x inside given h = ground arith

  pub axis_ok-narrows :
      (glo ghi rlo rhi : ℤ) (x : Option Cell)
      → ltb_ℤ rlo glo ≡ false
      → ltb_ℤ ghi rhi ≡ false
      → Mask.axis_ok pd rlo rhi x ≡ true
      → Mask.axis_ok pd glo ghi x ≡ true
  axis_ok-narrows glo ghi rlo rhi x lo hi h = ground arith

  pub bounds_ok-narrows :
      (g r : Option Bounds) (lat lon : Option Cell)
      → bounds_outside g r ≡ false
      → Given (is_given g) (is_given r)
      → Mask.bounds_ok pd r lat lon ≡ true
      → Mask.bounds_ok pd g lat lon ≡ true
  unfolding bounds_outside
  bounds_ok-narrows none r lat lon inside given h = refl
  bounds_ok-narrows (some g) none lat lon inside given h = ground arith
  bounds_ok-narrows (some g) (some r) lat lon inside given h = ground (
    arith,
    axis_ok-narrows g.lat_min g.lat_max r.lat_min r.lat_max lat,
    axis_ok-narrows g.lon_min g.lon_max r.lon_min r.lon_max lon,
  )

  pub parameters_ok-narrows :
      (gs rs : List String) (x : Option Cell)
      → parameters_outside gs rs ≡ false
      → Given (is_cons gs) (is_cons rs)
      → Mask.parameters_ok pd rs x ≡ true
      → Mask.parameters_ok pd gs x ≡ true
  unfolding parameters_outside
  parameters_ok-narrows gs rs none inside given h = refl
  parameters_ok-narrows [] rs (some x) inside given h = refl
  parameters_ok-narrows (g ∷ gs) [] (some x) inside given h = ground arith
  parameters_ok-narrows (g ∷ gs) (r ∷ rs) (some x) inside given h =
      contains-narrows lower (g ∷ gs) (r ∷ rs) (lower (to_str x)) inside h
