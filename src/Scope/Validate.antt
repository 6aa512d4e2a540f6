-- ===== src/Scope/Validate.antt =====
-- `validate_scope_within_grant`: an extraction may not ask for more than its grant allows.
use bodp_app.Prelude.{
  Bool, true, false, not, ◌&&◌, ◌||◌, Option, none, some, String, str_eq, List, [], ◌∷◌, any,
  if◌then◌else◌,
}
use bodp_app.Prelude.Int.{ℤ, ltb_ℤ}
use bodp_app.Session.{Result, ok, err, http}
use bodp_app.Scope.Criteria.{Bounds, SearchCriteria, truthy, items, is_cons, contains, text_ltb}

-- `requested != grant`, for values that are both there
abbrev pub text_ne : Option String → Option String → Bool
text_ne none none = false
text_ne none (some t) = true
text_ne (some s) none = true
text_ne (some s) (some t) = not (str_eq s t)

unfoldable pub text_outside : Option String → Option String → Bool
text_outside grant requested = truthy grant && truthy requested && text_ne requested grant

-- The fields that are compared for equality, in the order of the source.
abbrev pub text_fields : List (SearchCriteria → Option String)
text_fields =
    (λ c. c.category)
    ∷ (λ c. c.source)
    ∷ (λ c. c.quality)
    ∷ (λ c. c.platform)
    ∷ (λ c. c.station)
    ∷ (λ c. c.format)
    ∷ (λ c. c.processing_level)
    ∷ []

unfoldable pub parameters_outside : List String → List String → Bool
parameters_outside grant requested =
    is_cons grant && is_cons requested && any (λ p. not (contains grant p)) requested

-- `a < b` for optional texts that are both there
abbrev pub date_ltb : Option String → Option String → Bool
date_ltb (some s) (some t) = text_ltb s t
date_ltb (some s) none = false
date_ltb none t = false

-- The tests of `date_from` and of `date_to`, the grant's value first.
unfoldable pub starts_before : Option String → Option String → Bool
starts_before grant requested = truthy grant && truthy requested && date_ltb requested grant

unfoldable pub ends_after : Option String → Option String → Bool
ends_after grant requested = truthy grant && truthy requested && date_ltb grant requested

unfoldable pub depth_ltb : Option ℤ → Option ℤ → Bool
depth_ltb (some a) (some b) = ltb_ℤ a b
depth_ltb (some a) none = false
depth_ltb none b = false

unfoldable pub bounds_outside : Option Bounds → Option Bounds → Bool
bounds_outside none r = false
bounds_outside (some g) none = false
bounds_outside (some g) (some r) =
    ltb_ℤ r.lat_min g.lat_min
    || ltb_ℤ g.lat_max r.lat_max
    || ltb_ℤ r.lon_min g.lon_min
    || ltb_ℤ g.lon_max r.lon_max

-- The checks against a grant that has a scope, in order; every violation is a 422.
unfoldable pub validate_against : SearchCriteria → SearchCriteria → Result (Unit {0})
validate_against requested grant =
    if any (λ field. text_outside (field grant) (field requested)) text_fields
    then err (http 422)
    else if parameters_outside (items grant.parameters) (items requested.parameters)
    then err (http 422)
    else if starts_before grant.date_from requested.date_from
    then err (http 422)
    else if ends_after grant.date_to requested.date_to
    then err (http 422)
    else if depth_ltb requested.depth_min grant.depth_min
    then err (http 422)
    else if depth_ltb grant.depth_max requested.depth_max
    then err (http 422)
    else if bounds_outside grant.bounds requested.bounds
    then err (http 422)
    else ok tt

unfoldable pub validate_scope_within_grant :
    SearchCriteria → Option SearchCriteria → Result (Unit {0})
unfolding validate_against
validate_scope_within_grant requested none = ok tt
validate_scope_within_grant requested (some grant) = validate_against requested grant
