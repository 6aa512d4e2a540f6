-- ===== src/Catalog/Filter.antt =====
-- `RecordsFilter`, and `_apply_record_filters` as a test of a row. A comparison with NULL selects
-- nothing. Days are counted from a fixed day; geometry is the parameter `Spatial`.
use bodp_app.Prelude.{
  ℕ, ◌≡◌, Bool, true, false, not, ◌&&◌, ◌||◌, Option, none, some, String, str_eq, List, leb, ◌==◌,
}
use bodp_app.Prelude.Int.{ℤ, ltb_ℤ}
use bodp_app.Table.{Table, find}
use bodp_app.Scope.{contains, items, truthy, is_cons}
use bodp_app.Models.{DatasetRecord, Station}

pub record RecordsFilter : Type 0 where
  pub parameters : Option (List String)
  pub quality : Option String
  pub date_from : Option ℕ
  pub date_to : Option ℕ
  pub lat_min : Option ℤ
  pub lat_max : Option ℤ
  pub lon_min : Option ℤ
  pub lon_max : Option ℤ
  pub depth_min : Option ℤ
  pub depth_max : Option ℤ
  pub source : Option String
  pub platform : Option String
  pub station : Option String
  pub format : Option String
  pub processing_level : Option String

-- West, south, east, north.
pub record Envelope : Type 0 where
  pub lon_min : ℤ
  pub lat_min : ℤ
  pub lon_max : ℤ
  pub lat_max : ℤ

-- `ST_Intersects` of a point with an envelope, in PostGIS and in DuckDB's spatial extension: the
-- same predicate.
pub record Spatial : Type 0 where
  pub postgis : Envelope → ℤ × ℤ → Bool
  pub duckdb : Envelope → ℤ × ℤ → Bool
  pub agree : (e : Envelope) (p : ℤ × ℤ) → postgis e p ≡ duckdb e p

-- `column = value`
abbrev pub sql_eq : Option String → Option String → Bool
sql_eq none v = false
sql_eq (some c) none = false
sql_eq (some c) (some v) = str_eq c v

-- A filter on a text is applied if it is set and not empty.
abbrev pub text_matches : Option String → Option String → Bool
text_matches wanted column = not (truthy wanted) || sql_eq column wanted

abbrev pub parameter_matches : Option (List String) → String → Bool
parameter_matches wanted p = not (is_cons (items wanted)) || contains (items wanted) p

-- `column >= n` and `column <= n` for days
abbrev pub day_ge : Option ℕ → ℕ → Bool
day_ge none n = false
day_ge (some t) n = leb n t

abbrev pub day_le : Option ℕ → ℕ → Bool
day_le none n = false
day_le (some t) n = leb t n

abbrev pub from_matches : Option ℕ → Option ℕ → Bool
from_matches none t = true
from_matches (some d) t = day_ge t d

abbrev pub to_matches : Option ℕ → Option ℕ → Bool
to_matches none t = true
to_matches (some d) t = day_le t d

abbrev pub depth_ge : Option ℤ → Option ℤ → Bool
depth_ge none column = true
depth_ge (some d) none = false
depth_ge (some d) (some c) = not (ltb_ℤ c d)

abbrev pub depth_le : Option ℤ → Option ℤ → Bool
depth_le none column = true
depth_le (some d) none = false
depth_le (some d) (some c) = not (ltb_ℤ d c)

-- The envelope of the filter, if all four sides are given.
abbrev pub envelope : RecordsFilter → Option Envelope
envelope f = elim f.lat_min [
  | none ↦ none
  | some a ↦ elim f.lat_max [
    | none ↦ none
    | some b ↦ elim f.lon_min [
      | none ↦ none
      | some c ↦ elim f.lon_max [
        | none ↦ none
        | some d ↦ some (record { lon_min = c; lat_min = a; lon_max = d; lat_max = b })
      ]
    ]
  ]
]

abbrev pub inside : (Envelope → ℤ × ℤ → Bool) → Option Envelope → Option (ℤ × ℤ) → Bool
inside intersects none p = true
inside intersects (some e) none = false
inside intersects (some e) (some p) = intersects e p

-- The code of the station that a row joins.
abbrev pub station_code : Table Station → Option ℕ → Option String
station_code stations none = none
station_code stations (some id) = elim (find id stations) [ none ↦ none | some s ↦ some s.code ]

-- `_apply_record_filters`, without the test on the dataset.
unfoldable pub sql_matches : Spatial → Table Station → RecordsFilter → DatasetRecord → Bool
sql_matches sp stations f r =
    parameter_matches f.parameters r.parameter
    && text_matches f.quality (some r.quality_flag)
    && from_matches f.date_from r.time
    && to_matches f.date_to r.time
    && text_matches f.source r.source
    && text_matches f.platform r.platform
    && text_matches f.format r.format
    && text_matches f.processing_level r.processing_level
    && depth_ge f.depth_min r.depth_m
    && depth_le f.depth_max r.depth_m
    && text_matches f.station (station_code stations r.station_id)
    && inside sp.postgis (envelope f) r.geom

unfoldable pub apply_record_filters :
    Spatial → Table Station → (dataset_id : ℕ) → RecordsFilter → DatasetRecord → Bool
apply_record_filters sp stations dataset_id f r =
    r.dataset_id == dataset_id && sql_matches sp stations f r
