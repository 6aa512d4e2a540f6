-- ===== src/Scope/Extent.antt =====
-- What the check of an extraction's scope guarantees of the rows that the extraction delivers, and
-- what it leaves open.
use bodp_app.Prelude.{
  ◌≡◌, refl, true, false, ◌&&◌, not, any, &&-intro, Option, none, some, String, eq_refl, List, [],
  ◌∷◌, arith, ℕ,
}
use bodp_app.Session.{ok}
use bodp_app.Scope.Criteria.{SearchCriteria, no_criteria, truthy, items, contains, lex_ltb, codes}
use bodp_app.Scope.Validate.{
  text_outside, parameters_outside, date_ltb, starts_before, ends_after, depth_ltb, bounds_outside,
  validate_against, validate_scope_within_grant,
}
use bodp_app.Scope.Mask.{
  Pandas, Row, keeps, time_ok, depth_ok, text_ok, parameters_ok, apply_scope_mask,
}
use bodp_app.Scope.Soundness.{
  IsWithin, Covers, HasIsoDates, validate_against-IsWithin, keeps-narrows,
}

mask_idem :
    (pd : Pandas) (g r : SearchCriteria) (columns : List String) (rows : List (Row pd))
    → ((row : Row pd) → keeps pd r columns row ≡ true → keeps pd g columns row ≡ true)
    → apply_scope_mask pd g columns (apply_scope_mask pd r columns rows)
      ≡ apply_scope_mask pd r columns rows
unfolding apply_scope_mask
mask_idem pd g r columns [] h = refl
mask_idem pd g r columns (row ∷ rows) h = ground (arith, h row, mask_idem pd g r columns rows h)

-- Where the check accepts a scope that sets a value for every column filter that the grant sets,
-- and all dates are ISO dates, filtering the extracted rows once more by the grant's scope
-- removes none: each of them is one that the grant allows.
pub accepted_scope_within_grant :
    (pd : Pandas) (g r : SearchCriteria) (columns : List String) (rows : List (Row pd))
    → validate_scope_within_grant r (some g) ≡ ok tt
    → Covers g r
    → HasIsoDates g
    → HasIsoDates r
    → apply_scope_mask pd g columns (apply_scope_mask pd r columns rows)
      ≡ apply_scope_mask pd r columns rows
unfolding validate_scope_within_grant
accepted_scope_within_grant pd g r columns rows h c ig ir =
    mask_idem pd g r columns rows
      λ row. keeps-narrows pd g r columns row (validate_against-IsWithin g r h) c ig ir

module _ (pd : Pandas) where
  text_ok-unset : (x : Option pd.Cell) → text_ok pd none x ≡ true
  text_ok-unset none = refl
  text_ok-unset (some x) = refl

  time_ok-unset : (x : Option pd.Cell) → time_ok pd no_criteria x ≡ true
  time_ok-unset none = refl
  time_ok-unset (some x) = refl

  depth_ok-unset : (x : Option pd.Cell) → depth_ok pd no_criteria x ≡ true
  depth_ok-unset none = refl
  depth_ok-unset (some x) = refl

  parameters_ok-unset : (x : Option pd.Cell) → parameters_ok pd [] x ≡ true
  parameters_ok-unset none = refl
  parameters_ok-unset (some x) = refl

  keeps-no_criteria :
      (columns : List String) (row : Row pd) → keeps pd no_criteria columns row ≡ true
  unfolding keeps
  keeps-no_criteria columns row =
      &&-intro _ _
        (&&-intro _ _
          (&&-intro _ _
            (&&-intro _ _
              (&&-intro _ _
                (&&-intro _ _
                  (&&-intro _ _
                    (&&-intro _ _ (&&-intro _ _ (time_ok-unset _) refl) (depth_ok-unset _))
                    (text_ok-unset _))
                  (text_ok-unset _))
                (text_ok-unset _))
              (text_ok-unset _))
            (text_ok-unset _))
          (text_ok-unset _))
        (parameters_ok-unset _)

  mask-no_criteria :
      (columns : List String) (rows : List (Row pd))
      → apply_scope_mask pd no_criteria columns rows ≡ rows
  unfolding apply_scope_mask
  mask-no_criteria columns [] = refl
  mask-no_criteria columns (row ∷ rows) =
      ground (arith, keeps-no_criteria columns row, mask-no_criteria columns rows)

IsWithin-validate_against :
    (g r : SearchCriteria)
    → text_outside g.category r.category ≡ false
    → IsWithin g r
    → validate_against r g ≡ ok tt
unfolding validate_against
IsWithin-validate_against g r c w = ground arith

text_outside-unset : (v : Option String) → text_outside v none ≡ false
unfolding text_outside
text_outside-unset v = ground arith

no_criteria-IsWithin : (g : SearchCriteria) → IsWithin g no_criteria
unfolding parameters_outside starts_before ends_after depth_ltb bounds_outside
no_criteria-IsWithin g = record {
  source = text_outside-unset g.source;
  quality = text_outside-unset g.quality;
  platform = text_outside-unset g.platform;
  station = text_outside-unset g.station;
  format = text_outside-unset g.format;
  processing_level = text_outside-unset g.processing_level;
  parameters = ground arith;
  date_from = ground arith;
  date_to = ground arith;
  depth_min = refl;
  depth_max = ground arith;
  bounds = ground arith;
}

-- Whatever scope the grant has, an extraction that sets no criteria at all is accepted, and it
-- keeps every row of the file.
pub empty_scope_escapes_grant :
    (pd : Pandas) (g : Option SearchCriteria) (columns : List String) (rows : List (Row pd))
    → (validate_scope_within_grant no_criteria g ≡ ok tt)
      × (apply_scope_mask pd no_criteria columns rows ≡ rows)
unfolding validate_scope_within_grant
empty_scope_escapes_grant pd none columns rows = (refl, mask-no_criteria pd columns rows)
empty_scope_escapes_grant pd (some g) columns rows = (
  IsWithin-validate_against g no_criteria (text_outside-unset g.category) (no_criteria-IsWithin g),
  mask-no_criteria pd columns rows,
)

lex_ltb_irrefl : (xs : List ℕ) → lex_ltb xs xs ≡ false
unfolding lex_ltb
lex_ltb_irrefl [] = refl
lex_ltb_irrefl (x ∷ xs) = ground (arith, lex_ltb_irrefl xs)

text_outside_self : (v : Option String) → text_outside v v ≡ false
unfolding text_outside
text_outside_self none = refl
text_outside_self (some s) = ground (arith, eq_refl s)

date_not_before_self : (v : Option String) → (truthy v && truthy v && date_ltb v v) ≡ false
date_not_before_self none = refl
date_not_before_self (some s) = ground (arith, lex_ltb_irrefl (codes s))

contains-head :
    (x y : String) (xs : List String) → contains xs y ≡ true → contains (x ∷ xs) y ≡ true
contains-head x y xs h = ground arith

none_missing :
    (gs rs : List String)
    → ((p : String) → contains rs p ≡ true → contains gs p ≡ true)
    → any (λ p. not (contains gs p)) rs ≡ false
none_missing gs [] h = refl
none_missing gs (r ∷ rs) h =
    ground (arith, h r, eq_refl r, none_missing gs rs (λ p k. h p (contains-head r p rs k)))

self-IsWithin : (g : SearchCriteria) → IsWithin g g
unfolding parameters_outside starts_before ends_after depth_ltb bounds_outside
self-IsWithin g = record {
  source = text_outside_self g.source;
  quality = text_outside_self g.quality;
  platform = text_outside_self g.platform;
  station = text_outside_self g.station;
  format = text_outside_self g.format;
  processing_level = text_outside_self g.processing_level;
  parameters = ground (arith, none_missing (items g.parameters) (items g.parameters) (λ p h. h));
  date_from = date_not_before_self g.date_from;
  date_to = date_not_before_self g.date_to;
  depth_min = ground arith;
  depth_max = ground arith;
  bounds = ground arith;
}

-- The scope of a grant is itself an accepted scope, for every grant.
pub grant_scope_accepted : (g : SearchCriteria) → validate_scope_within_grant g (some g) ≡ ok tt
unfolding validate_scope_within_grant
grant_scope_accepted g =
    IsWithin-validate_against g g (text_outside_self g.category) (self-IsWithin g)
