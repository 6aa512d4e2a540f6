-- ===== src/Tests/RegistryTests.antt =====
-- Two files of one dataset in the registry of variables.
use bodp_app.Prelude.{
  ℕ, ◌≡◌, refl, Bool, true, false, str_eq, Option, none, some, String, List, [], ◌∷◌, All,
}
use bodp_app.Prelude.Int.{pos}
use bodp_app.Scope.{lex_ltb}
use bodp_app.Storage.{text_eq}
use bodp_app.Catalog.{take, filter}
use bodp_app.Writer.{Columns, ends_with, variable_columns, insert_name, sorted_names}
use bodp_app.Registry.{
  VariableDataType, DatasetVariable, Processed, Shape, range_from, insert_new, sorted_set,
  sample_from, replace_row, upsert_dataset_variable, upsert_all, detected_variables,
  write_variable_registry, register_files,
}
use bodp_app.Registry.Ranges.{IsUnique, lookup}
use bodp_app.Registry.Limits.{detection_fits}
use bodp_app.Registry.Files.{Describes, detections, register_files-Describes}

abbrev profile_columns : Columns
profile_columns = record {
  lat_col = some "lat";
  lon_col = none;
  time_col = none;
  depth_col = none;
  variables = "temp" ∷ "site" ∷ [];
}

abbrev file_with_temp : (low high : ℕ) → Shape
file_with_temp low high = Shape.table profile_columns (
    Processed.parquet (record {
      names = "temp" ∷ "lat" ∷ "site" ∷ [];
      type_is_numeric = λ c. str_eq c "temp";
      row_groups = λ c. some (pos low, pos high) ∷ none ∷ [];
      texts = λ c. some "B" ∷ none ∷ some "A" ∷ some "B" ∷ [];
    }))

abbrev two_files : List (ℕ × Shape)
two_files = (4, file_with_temp 7 9) ∷ (4, file_with_temp 3 8) ∷ []

abbrev variable : String → VariableDataType → Bool → Option (List String) → DatasetVariable
variable n kind dimension values = record {
  dataset_id = 4;
  name = n;
  data_type = kind;
  is_dimension = dimension;
  min_value = none;
  max_value = none;
  distinct_values = values;
}

two_files_run :
    register_files two_files []
    ≡ some (
        record (variable "temp" VariableDataType.numeric false none) {
          min_value = some (pos 3);
          max_value = some (pos 9);
        }
        ∷ variable "site" VariableDataType.categorical false (some ("A" ∷ "B" ∷ []))
        ∷ variable "lat" VariableDataType.numeric true none
        ∷ [])
unfolding register_files write_variable_registry detected_variables upsert_all
    upsert_dataset_variable replace_row sample_from sorted_set insert_new range_from
    variable_columns sorted_names insert_name ends_with text_eq lex_ltb take filter
two_files_run = refl

two_files_fit : All (λ c. detection_fits c ≡ true) (detections two_files)
unfolding All detections detected_variables sample_from insert_new range_from variable_columns
    sorted_names insert_name ends_with text_eq lex_ltb filter
two_files_fit = (refl, (refl, (refl, (refl, (refl, (refl, tt))))))

-- A number that Numeric(18, 6) does not hold is refused.
too_large : register_files ((4, file_with_temp 7 1000000000000000000) ∷ []) [] ≡ none
unfolding register_files write_variable_registry detected_variables upsert_all
    upsert_dataset_variable replace_row sample_from sorted_set insert_new range_from
    variable_columns sorted_names insert_name ends_with text_eq lex_ltb take filter
too_large = refl

register_files-Describes_example :
    (rows : List DatasetVariable) × (register_files two_files [] ≡ some rows)
    × IsUnique rows
    × ((d : ℕ) (n : String) → Describes d n (detections two_files) (lookup d n rows))
register_files-Describes_example = register_files-Describes two_files two_files_fit
