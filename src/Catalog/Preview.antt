-- ===== src/Catalog/Preview.antt =====
-- The rows and the counts of a response, and Python's slices and counts.
use bodp_app.Prelude.{
  ℕ, ◌+◌, ◌/◌, zero, suc, Bool, Option, none, some, String, List, [], ◌∷◌, if◌then◌else◌,
}
use bodp_app.Prelude.Int.{ℤ}
use bodp_app.Catalog.Tabular.{seconds_per_day}

-- A row of the response; the fields that all sources have. A NaN is a value that is `none`.
pub record PreviewRow : Type 0 where
  pub time : Option ℕ
  pub location : Option String
  pub depth_m : Option ℤ
  pub parameter : String
  pub value : Option ℤ
  pub unit : Option String
  pub platform : Option String
  pub format : Option String
  pub processing_level : Option String
  pub quality_flag : String

pub record Breakdown : Type 0 where
  pub normal : ℕ
  pub caution : ℕ
  pub alert : ℕ

pub record FilteredRecords : Type 0 where
  pub preview : List PreviewRow
  pub matching : ℕ
  pub total : ℕ
  pub breakdown : Breakdown

abbrev pub add_breakdown : Breakdown → Breakdown → Breakdown
add_breakdown a b = record {
  normal = a.normal + b.normal;
  caution = a.caution + b.caution;
  alert = a.alert + b.alert;
}

-- `xs[:n]` and `LIMIT n`
unfoldable pub take {ℓ} : {A : Type ℓ} → ℕ → List A → List A
take zero xs = []
take (suc n) [] = []
take (suc n) (x ∷ xs) = x ∷ take n xs

module _ {ℓ} {A : Type ℓ} (p : A → Bool) where
  unfoldable pub filter : List A → List A
  filter [] = []
  filter (x ∷ xs) = let rest = filter xs in if p x then x ∷ rest else rest

  unfoldable pub count : List A → ℕ
  count [] = 0
  count (x ∷ xs) = (if p x then 1 else 0) + count xs

abbrev pub day_of : Option ℕ → Option ℕ
day_of none = none
day_of (some t) = some (t / seconds_per_day)
