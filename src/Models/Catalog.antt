-- ===== src/Models/Catalog.antt =====
-- Datasets and their files (backend/app/models/catalog.py).
use bodp_app.Prelude.{ℕ, Bool, true, false, Option, String, List}
use bodp_app.Prelude.Int.{ℤ}

pub data DatasetStatus : Type 0 where
  published draft archived : DatasetStatus

-- `code` is its code points.
pub record Dataset : Type 0 where
  pub code : List ℕ
  pub title : String
  pub status : DatasetStatus
  pub version : ℕ
  pub record_count : ℕ

pub data StorageKind : Type 0 where
  row_records parquet chunked_array raster : StorageKind

-- `processed_*` are entries of `file_metadata`.
pub record DatasetFile : Type 0 where
  pub dataset_id : ℕ
  pub file_name : String
  pub storage_backend : String
  pub storage_bucket : String
  pub storage_key : String
  pub file_format : String
  pub file_size_bytes : ℕ
  pub uploaded_by : Option ℕ
  pub storage_kind : Option StorageKind
  pub processed_bucket : Option String
  pub processed_key : Option String
  pub processed_prefix : Option String

pub data QualityFlag : Type 0 where
  normal caution alert : QualityFlag

pub record Station : Type 0 where
  pub name : String
  pub code : String

-- An observation. `time` is a day; `geom` is longitude and latitude.
pub record DatasetRecord : Type 0 where
  pub dataset_id : ℕ
  pub dataset_file_id : Option ℕ
  pub time : Option ℕ
  pub depth_m : Option ℤ
  pub location : Option String
  pub station_id : Option ℕ
  pub parameter : String
  pub value : ℤ
  pub unit : Option String
  pub quality_flag : String
  pub processing_level : Option String
  pub format : Option String
  pub source : Option String
  pub platform : Option String
  pub geom : Option (ℤ × ℤ)

abbrev pub is_published : DatasetStatus → Bool
is_published DatasetStatus.published = true
is_published DatasetStatus.draft = false
is_published DatasetStatus.archived = false

abbrev pub is_archived : DatasetStatus → Bool
is_archived DatasetStatus.archived = true
is_archived DatasetStatus.published = false
is_archived DatasetStatus.draft = false
