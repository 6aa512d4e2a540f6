-- ===== src/Catalog/Agreement.antt =====
-- The same observation as a row of the database and as a row of a Parquet file: where the filters
-- of `_apply_record_filters` and `_build_where` agree, and where they do not.
use bodp_app.Prelude.{
  ℕ, ◌≡◌, refl, sym, true, false, Option, none, some, String, List, arith, &&-false,
}
use bodp_app.Prelude.Int.{ℤ}
use bodp_app.Table.{Table}
use bodp_app.Scope.{contains, truthy}
use bodp_app.Models.{DatasetRecord, Station}
use bodp_app.Catalog.Filter.{
  RecordsFilter, Spatial, sql_matches, station_code, from_matches, to_matches, inside,
}
use bodp_app.Catalog.Tabular.{MeltedRow, build_where, time_ge, time_lt}
use bodp_app.Catalog.Preview.{day_of}

-- A row of the database and a melted row hold the same observation.
pub record SameObservation (stations : Table Station) (r : DatasetRecord) (m : MeltedRow)
    : Type 0 where
  pub parameter : m.parameter ≡ r.parameter
  pub quality : m.quality_flag ≡ some r.quality_flag
  pub day : day_of m.time ≡ r.time
  pub source : m.source ≡ r.source
  pub platform : m.platform ≡ r.platform
  pub format : m.format ≡ r.format
  pub level : m.processing_level ≡ r.processing_level
  pub depth : m.depth_m ≡ r.depth_m
  pub station : m.station ≡ station_code stations r.station_id
  pub point : m.point ≡ r.geom

-- A file that has every column that a filter can name.
pub record HasAllColumns (columns : List String) : Type 0 where
  pub quality : contains columns "quality_flag" ≡ true
  pub time : contains columns "time" ≡ true
  pub source : contains columns "source" ≡ true
  pub platform : contains columns "platform" ≡ true
  pub format : contains columns "format" ≡ true
  pub level : contains columns "processing_level" ≡ true
  pub depth : contains columns "depth_m" ≡ true
  pub station : contains columns "station" ≡ true
  pub lat : contains columns "lat" ≡ true
  pub lon : contains columns "lon" ≡ true

pub from_day : (d : Option ℕ) (t : Option ℕ) → from_matches d (day_of t) ≡ time_ge d t
from_day none t = refl
from_day (some d) none = refl
from_day (some d) (some t) = ground arith

pub until_day : (d : Option ℕ) (t : Option ℕ) → to_matches d (day_of t) ≡ time_lt d t
until_day none t = refl
until_day (some d) none = refl
until_day (some d) (some t) = ground arith

inside_agree :
    (sp : Spatial) (e : Option _) (p : Option (ℤ × ℤ))
    → inside sp.postgis e p ≡ inside sp.duckdb e p
inside_agree sp none p = refl
inside_agree sp (some e) none = refl
inside_agree sp (some e) (some p) = sp.agree e p

-- A filter selects a row of the database exactly where it selects the same observation in a
-- Parquet file that has every column.
pub sql_matches-build_where :
    (sp : Spatial) (stations : Table Station) (columns : List String) (f : RecordsFilter)
    (r : DatasetRecord) (m : MeltedRow)
    → HasAllColumns columns
    → SameObservation stations r m
    → sql_matches sp stations f r ≡ build_where sp columns f m
unfolding sql_matches build_where
sql_matches-build_where sp stations columns f r m has same = simp (
  has.quality,
  has.time,
  has.source,
  has.platform,
  has.format,
  has.level,
  has.depth,
  has.station,
  has.lat,
  has.lon,
  sym same.parameter,
  sym same.quality,
  sym same.day,
  sym same.source,
  sym same.platform,
  sym same.format,
  sym same.level,
  sym same.depth,
  sym same.station,
  sym same.point,
  from_day,
  until_day,
  inside_agree,
)

-- Where a filter names a source and the file has no column for it, the filter selects the rows that
-- it would select without the source; a row of the database that has no source is never selected.
pub missing_column_is_ignored :
    (sp : Spatial) (stations : Table Station) (columns : List String) (f : RecordsFilter)
    (r : DatasetRecord) (m : MeltedRow)
    → truthy f.source ≡ true
    → contains columns "source" ≡ false
    → r.source ≡ none
    → (build_where sp columns f m ≡ build_where sp columns (record f { source = none }) m)
      × (sql_matches sp stations f r ≡ false)
unfolding sql_matches build_where
missing_column_is_ignored sp stations columns f r m named absent empty =
    (simp (named, absent), simp (named, empty, &&-false))
