-- ===== src/Tests/CatalogTests.antt =====
-- Runs of the record filters, and the witnesses of their theorems.
use bodp_app.Prelude.{◌≡◌, refl, true, false, Option, none, some, String, List, [], ◌∷◌}
use bodp_app.Prelude.Int.{pos}
use bodp_app.Models.{DatasetRecord, DatasetFile, StorageKind}
use bodp_app.Database.{Db}
use bodp_app.Table.{rows_of}
use bodp_app.Catalog.{
  RecordsFilter, Spatial, Lake, MeltedRow, sql_matches, build_where, filter, count,
  get_matching_record_counts, get_filtered_records, tabular_counts, add_counts, sql_counts,
  apply_record_filters, files_of_kind,
}
use bodp_app.Catalog.Agreement.{sql_matches-build_where}
use bodp_app.Catalog.Totals.{counts_of, get_matching_record_counts-get_filtered_records}
use bodp_app.Tests.Fixtures.{db}

abbrev pub no_filter : RecordsFilter
no_filter = record {
  parameters = some ("temperature" ∷ "salinity" ∷ []);
  quality = none;
  date_from = none;
  date_to = some 3;
  lat_min = none;
  lat_max = none;
  lon_min = none;
  lon_max = none;
  depth_min = none;
  depth_max = some (pos 100);
  source = some "CTD";
  platform = none;
  station = none;
  format = none;
  processing_level = none;
}

abbrev spatial : Spatial
spatial = record { postgis = λ e p. true; duckdb = λ e p. true; agree = λ e p. refl }

abbrev pub observation : Option String → DatasetRecord
observation source = record {
  dataset_id = 5;
  dataset_file_id = none;
  time = some 3;
  depth_m = some (pos 10);
  location = none;
  station_id = none;
  parameter = "salinity";
  value = pos 35;
  unit = some "psu";
  quality_flag = "normal";
  processing_level = none;
  format = some "CSV";
  source = source;
  platform = none;
  geom = none;
}

-- In the last second of day 3.
abbrev melted : Option String → MeltedRow
melted source = record {
  parameter = "salinity";
  value = pos 35;
  time = some 345599;
  point = none;
  depth_m = some (pos 10);
  unit = some "psu";
  station = none;
  quality_flag = some "normal";
  source = source;
  platform = none;
  format = some "CSV";
  processing_level = none;
  location = none;
}

abbrev all_columns : List String
all_columns =
    "quality_flag" ∷ "time" ∷ "source" ∷ "platform" ∷ "format" ∷ "processing_level" ∷ "depth_m"
    ∷ "station" ∷ "lat" ∷ "lon" ∷ []

abbrev file : DatasetFile
file = record {
  dataset_id = 5;
  file_name = "a.csv";
  storage_backend = "vps_minio";
  storage_bucket = "ocean";
  storage_key = "raw/5/a.csv";
  file_format = "CSV";
  file_size_bytes = 10;
  uploaded_by = none;
  storage_kind = some StorageKind.parquet;
  processed_bucket = some "ocean";
  processed_key = some "processed/5/a.parquet";
  processed_prefix = none;
}

abbrev catalog_db : Db
catalog_db = record db {
  dataset_files = (50, file) ∷ [];
  dataset_records = (70, observation (some "CTD")) ∷ (71, observation none) ∷ [];
}

abbrev lake : Lake
lake = record {
  source_columns = λ f. all_columns;
  columns = λ f. all_columns;
  rows = λ f. melted (some "CTD") ∷ melted none ∷ [];
  newest_records = λ rs. rs;
  newest_rows = λ rs. rs;
  grid = λ file. record { has_lat_lon = false; times = none; data_vars = [] };
  registered = λ file. [];
  units = λ file. none;
}

two_of_four : get_matching_record_counts spatial lake no_filter 5 catalog_db ≡ (2, 4)
unfolding get_matching_record_counts tabular_counts add_counts sql_counts build_where
    apply_record_filters sql_matches count rows_of files_of_kind filter
two_of_four = refl

get_matching_record_counts-get_filtered_records_example :
    get_matching_record_counts spatial lake no_filter 5 catalog_db
    ≡ counts_of (get_filtered_records spatial lake no_filter 5 catalog_db 1)
get_matching_record_counts-get_filtered_records_example =
    get_matching_record_counts-get_filtered_records spatial lake no_filter 5 catalog_db 1

sql_matches-build_where_example :
    sql_matches spatial [] no_filter (observation (some "CTD"))
    ≡ build_where spatial all_columns no_filter (melted (some "CTD"))
sql_matches-build_where_example =
    sql_matches-build_where spatial [] all_columns no_filter (observation (some "CTD"))
      (melted (some "CTD"))
      (record {
        quality = refl;
        time = refl;
        source = refl;
        platform = refl;
        format = refl;
        level = refl;
        depth = refl;
        station = refl;
        lat = refl;
        lon = refl;
      })
      (record {
        parameter = refl;
        quality = refl;
        day = refl;
        source = refl;
        platform = refl;
        format = refl;
        level = refl;
        depth = refl;
        station = refl;
        point = refl;
      })
