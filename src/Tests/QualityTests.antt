-- ===== src/Tests/QualityTests.antt =====
-- A scan of a dataset that holds one row twice and declares more rows than it has.
use bodp_app.Prelude.{ℕ, ◌+◌, ◌≡◌, refl, false, some, none, List, [], ◌∷◌}
use bodp_app.Prelude.Int.{pos}
use bodp_app.Table.{find, insert, rows_of}
use bodp_app.Session.{ok, exec, reply}
use bodp_app.Models.{DatasetRecord, QualityIssue, QualityIssueType}
use bodp_app.Database.{Db}
use bodp_app.Catalog.{filter, count}
use bodp_app.Quality.{
  Statistics, run_qc_scan, add_issues, new_issues, new_issue, issues_for, has_open_issue,
  duplicates, outliers, missing_values, file_duplicates, record_duplicates, file_outliers_of,
  record_outliers, group_outliers, values_of, actual_count, file_rows_of, parquet_files,
}
use bodp_app.Quality.Rescan.{run_qc_scan-once}
use bodp_app.Tests.Fixtures.{db, dataset}

abbrev statistics : Statistics
statistics = record {
  is_far = λ vs v. false;
  file_has_duplicates = λ f. false;
  file_outliers = λ f. 0;
  file_rows = λ f. 0;
}

abbrev row : DatasetRecord
row = record {
  dataset_id = 5;
  dataset_file_id = none;
  time = some 3;
  depth_m = none;
  location = none;
  station_id = none;
  parameter = "salinity";
  value = pos 35;
  unit = none;
  quality_flag = "normal";
  processing_level = none;
  format = none;
  source = none;
  platform = none;
  geom = none;
}

abbrev repeated_db : Db
repeated_db = record db {
  datasets = (5, record dataset { record_count = 3 }) ∷ [];
  dataset_records = (70, row) ∷ (71, row) ∷ [];
}

abbrev draw : ℕ → ℕ
draw n = 80 + n

abbrev two_issues : List QualityIssue
two_issues =
    new_issue QualityIssueType.duplicate_records 5 1
    ∷ new_issue QualityIssueType.missing_values 5 1
    ∷ []

opens_two : reply (run_qc_scan statistics draw 2) repeated_db ≡ ok two_issues
unfolding run_qc_scan add_issues new_issues issues_for has_open_issue duplicates outliers
    missing_values file_duplicates record_duplicates file_outliers_of record_outliers group_outliers
    values_of actual_count file_rows_of parquet_files filter count rows_of find insert
opens_two = refl

run_qc_scan-once_example :
    new_issues statistics (exec (run_qc_scan statistics draw 2) repeated_db) ≡ []
run_qc_scan-once_example = run_qc_scan-once statistics draw 2 repeated_db two_issues opens_two
