-- ===== src/Scope/Soundness.antt =====
-- What an accepted extraction scope can reach.
use bodp_app.Prelude.{◌≡◌, refl, true, false, &&-mono, Option, none, some, String, List, arith}
use bodp_app.Session.{ok}
use bodp_app.Scope.Criteria.{SearchCriteria, truthy, items, is_cons}
use bodp_app.Scope.Mask.{Pandas, Row, time_ok, depth_ok, keeps}
use bodp_app.Scope.Fields.{
  Given, is_given, IsIso, from_ok-narrows, until_ok-narrows, min_ok-narrows, max_ok-narrows,
  bounds_ok-narrows, text_ok-narrows, parameters_ok-narrows,
}
use bodp_app.Scope.Validate.{
  text_outside, parameters_outside, starts_before, ends_after, depth_ltb, bounds_outside,
  validate_against,
}

-- No check found the request outside the grant.
pub record IsWithin (g r : SearchCriteria) : Type 0 where
  pub source : text_outside g.source r.source ≡ false
  pub quality : text_outside g.quality r.quality ≡ false
  pub platform : text_outside g.platform r.platform ≡ false
  pub station : text_outside g.station r.station ≡ false
  pub format : text_outside g.format r.format ≡ false
  pub processing_level : text_outside g.processing_level r.processing_level ≡ false
  pub parameters : parameters_outside (items g.parameters) (items r.parameters) ≡ false
  pub date_from : starts_before g.date_from r.date_from ≡ false
  pub date_to : ends_after g.date_to r.date_to ≡ false
  pub depth_min : depth_ltb r.depth_min g.depth_min ≡ false
  pub depth_max : depth_ltb g.depth_max r.depth_max ≡ false
  pub bounds : bounds_outside g.bounds r.bounds ≡ false

pub validate_against-IsWithin : (g r : SearchCriteria) → validate_against r g ≡ ok tt → IsWithin g r
unfolding validate_against
validate_against-IsWithin g r h = ground arith

-- The request restricts whatever the grant restricts (`category` is not a column of a file).
pub record Covers (g r : SearchCriteria) : Type 0 where
  pub source : Given (truthy g.source) (truthy r.source)
  pub quality : Given (truthy g.quality) (truthy r.quality)
  pub platform : Given (truthy g.platform) (truthy r.platform)
  pub station : Given (truthy g.station) (truthy r.station)
  pub format : Given (truthy g.format) (truthy r.format)
  pub processing_level : Given (truthy g.processing_level) (truthy r.processing_level)
  pub parameters : Given (is_cons (items g.parameters)) (is_cons (items r.parameters))
  pub date_from : Given (truthy g.date_from) (truthy r.date_from)
  pub date_to : Given (truthy g.date_to) (truthy r.date_to)
  pub depth_min : Given (is_given g.depth_min) (is_given r.depth_min)
  pub depth_max : Given (is_given g.depth_max) (is_given r.depth_max)
  pub bounds : Given (is_given g.bounds) (is_given r.bounds)

pub record HasIsoDates (c : SearchCriteria) : Type 0 where
  pub from : IsIso c.date_from
  pub until : IsIso c.date_to

module _ (pd : Pandas) (g r : SearchCriteria) where
  time_ok-narrows :
      (x : Option pd.Cell)
      → IsWithin g r
      → Covers g r
      → HasIsoDates g
      → HasIsoDates r
      → time_ok pd r x ≡ true
      → time_ok pd g x ≡ true
  time_ok-narrows none w c ig ir h = refl
  time_ok-narrows (some x) w c ig ir h =
      let t = pd.to_datetime x in
      ground (
        arith,
        from_ok-narrows pd g.date_from r.date_from t w.date_from c.date_from ig.from ir.from,
        until_ok-narrows pd g.date_to r.date_to t w.date_to c.date_to ig.until ir.until,
      )

  depth_ok-narrows :
      (x : Option pd.Cell)
      → IsWithin g r
      → Covers g r
      → depth_ok pd r x ≡ true
      → depth_ok pd g x ≡ true
  depth_ok-narrows none w c h = refl
  depth_ok-narrows (some x) w c h =
      let n = pd.to_numeric x in
      ground (
        arith,
        min_ok-narrows pd g.depth_min r.depth_min n w.depth_min c.depth_min,
        max_ok-narrows pd g.depth_max r.depth_max n w.depth_max c.depth_max,
      )

  pub keeps-narrows :
      (columns : List String) (row : Row pd)
      → IsWithin g r
      → Covers g r
      → HasIsoDates g
      → HasIsoDates r
      → keeps pd r columns row ≡ true
      → keeps pd g columns row ≡ true
  unfolding keeps
  keeps-narrows columns row w c ig ir =
      &&-mono _ _ _ _
        (&&-mono _ _ _ _
          (&&-mono _ _ _ _
            (&&-mono _ _ _ _
              (&&-mono _ _ _ _
                (&&-mono _ _ _ _
                  (&&-mono _ _ _ _
                    (&&-mono _ _ _ _
                      (&&-mono _ _ _ _ (time_ok-narrows _ w c ig ir)
                        (bounds_ok-narrows pd g.bounds r.bounds _ _ w.bounds c.bounds))
                      (depth_ok-narrows _ w c))
                    (text_ok-narrows pd g.source r.source _ w.source c.source))
                  (text_ok-narrows pd g.quality r.quality _ w.quality c.quality))
                (text_ok-narrows pd g.platform r.platform _ w.platform c.platform))
              (text_ok-narrows pd g.station r.station _ w.station c.station))
            (text_ok-narrows pd g.format r.format _ w.format c.format))
          (text_ok-narrows pd g.processing_level r.processing_level _ w.processing_level
            c.processing_level))
        (parameters_ok-narrows pd (items g.parameters) (items r.parameters) _ w.parameters
          c.parameters)
