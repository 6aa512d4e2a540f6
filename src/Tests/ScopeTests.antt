-- ===== src/Tests/ScopeTests.antt =====
-- Scopes: a grant for January, and requests inside, outside and beside it.
use bodp_app.Prelude.{str_eq, if◌then◌else◌, length, ◌≡◌, refl, some, String, List, [], ◌∷◌, arith}
use bodp_app.Session.{ok, err, http}
use bodp_app.Scope.{
  SearchCriteria, no_criteria, validate_scope_within_grant, apply_scope_mask, keeps, find_column,
  Row, is_iso_date, text_outside, parameters_outside, starts_before, lex_ltb, ends_after, depth_ltb,
  bounds_outside,
}
use bodp_app.Scope.Soundness.{Covers, HasIsoDates}
use bodp_app.Scope.Extent.{accepted_scope_within_grant, empty_scope_escapes_grant}
use bodp_app.Tests.Fixtures.{pandas}

abbrev january : SearchCriteria
january = record no_criteria {
  parameters = some ("salinity" ∷ "temperature" ∷ []);
  date_from = some "2024-01-01";
  date_to = some "2024-01-31";
}

abbrev one_week : SearchCriteria
one_week = record no_criteria {
  parameters = some ("salinity" ∷ []);
  date_from = some "2024-01-08";
  date_to = some "2024-01-14";
}

inside : validate_scope_within_grant one_week (some january) ≡ ok tt
unfolding validate_scope_within_grant text_outside parameters_outside starts_before lex_ltb
    ends_after depth_ltb bounds_outside
inside = refl

too_early :
    validate_scope_within_grant (record one_week { date_from = some "2023-12-31" }) (some january)
    ≡ err (http 422)
unfolding validate_scope_within_grant text_outside parameters_outside starts_before lex_ltb
    ends_after depth_ltb bounds_outside
too_early = refl

other_parameter :
    validate_scope_within_grant
      (record one_week { parameters = some ("oxygen" ∷ []) })
      (some january)
    ≡ err (http 422)
unfolding validate_scope_within_grant text_outside parameters_outside starts_before lex_ltb
    ends_after depth_ltb bounds_outside
other_parameter = refl

abbrev columns : List String
columns = "time" ∷ "parameter" ∷ []

abbrev rows : List (Row pandas)
rows =
    (λ c. if str_eq c "time" then "2024-01-09" else "salinity")
    ∷ (λ c. if str_eq c "time" then "2024-01-09" else "oxygen")
    ∷ []

one_row_kept : length (apply_scope_mask pandas one_week columns rows) ≡ 1
unfolding apply_scope_mask keeps find_column
one_row_kept = refl

one_week-Covers : Covers january one_week
one_week-Covers = ground arith

january-HasIsoDates : HasIsoDates january
unfolding is_iso_date
january-HasIsoDates = record { from = λ h. refl; until = λ h. refl }

one_week-HasIsoDates : HasIsoDates one_week
unfolding is_iso_date
one_week-HasIsoDates = record { from = λ h. refl; until = λ h. refl }

accepted_scope_within_grant_example :
    apply_scope_mask pandas january columns (apply_scope_mask pandas one_week columns rows)
    ≡ apply_scope_mask pandas one_week columns rows
accepted_scope_within_grant_example =
    accepted_scope_within_grant pandas january one_week columns rows inside one_week-Covers
      january-HasIsoDates one_week-HasIsoDates

empty_scope_escapes_grant_example :
    (validate_scope_within_grant no_criteria (some january) ≡ ok tt)
    × (apply_scope_mask pandas no_criteria columns rows ≡ rows)
empty_scope_escapes_grant_example = empty_scope_escapes_grant pandas (some january) columns rows
