-- ===== src/Catalog/Tabular.antt =====
-- `_build_where` (backend/app/services/tabular_query_service.py) as a test of a row of the melted
-- view of a Parquet file. A filter on a column that the view has not is left out.
use bodp_app.Prelude.{
  ℕ, ◌+◌, ◌*◌, Bool, true, false, not, ◌&&◌, ◌||◌, Option, none, some, String, List, leb, ltb,
}
use bodp_app.Prelude.Int.{ℤ}
use bodp_app.Scope.{contains}
use bodp_app.Catalog.Filter.{
  RecordsFilter, Spatial, text_matches, parameter_matches, depth_ge, depth_le, envelope, inside,
}

-- A row: a column that the view has not is NULL. `time` is an instant in seconds.
pub record MeltedRow : Type 0 where
  pub parameter : String
  pub value : ℤ
  pub time : Option ℕ
  pub point : Option (ℤ × ℤ)
  pub depth_m : Option ℤ
  pub unit : Option String
  pub station : Option String
  pub quality_flag : Option String
  pub source : Option String
  pub platform : Option String
  pub format : Option String
  pub processing_level : Option String
  pub location : Option String

abbrev pub seconds_per_day : ℕ
seconds_per_day = 86400

-- `time >= date_from`: from midnight.
abbrev pub time_ge : Option ℕ → Option ℕ → Bool
time_ge none t = true
time_ge (some d) none = false
time_ge (some d) (some t) = leb (d * seconds_per_day) t

-- `time < date_to + 1 day`
abbrev pub time_lt : Option ℕ → Option ℕ → Bool
time_lt none t = true
time_lt (some d) none = false
time_lt (some d) (some t) = ltb t ((d + 1) * seconds_per_day)

-- A clause that is there only if the view has the column.
abbrev pub clause : List String → String → Bool → Bool
clause columns name test = not (contains columns name) || test

unfoldable pub build_where : Spatial → (columns : List String) → RecordsFilter → MeltedRow → Bool
build_where sp columns f r =
    parameter_matches f.parameters r.parameter
    && clause columns "quality_flag" (text_matches f.quality r.quality_flag)
    && clause columns "time" (time_ge f.date_from r.time)
    && clause columns "time" (time_lt f.date_to r.time)
    && clause columns "source" (text_matches f.source r.source)
    && clause columns "platform" (text_matches f.platform r.platform)
    && clause columns "format" (text_matches f.format r.format)
    && clause columns "processing_level" (text_matches f.processing_level r.processing_level)
    && clause columns "depth_m" (depth_ge f.depth_min r.depth_m)
    && clause columns "depth_m" (depth_le f.depth_max r.depth_m)
    && clause columns "station" (text_matches f.station r.station)
    && (not (contains columns "lat" && contains columns "lon")
        || inside sp.duckdb (envelope f) r.point)
