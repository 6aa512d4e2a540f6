-- ===== src/Scope/Criteria.antt =====
-- `SearchCriteriaSchema`, its parts, and Python's truth value of an optional part. Dates are ISO
-- texts; depths and coordinates are whole numbers of a fixed small unit.
use Prim.Native.Char.{code}
use bodp_app.Prelude.{
  ℕ, Bool, true, false, not, ◌&&◌, Option, none, some, String, str_eq, List, [], ◌∷◌, ◌==◌, leb,
  ltb, if◌then◌else◌,
}
use bodp_app.Prelude.Int.{ℤ}

pub record Bounds : Type 0 where
  pub lat_min : ℤ
  pub lat_max : ℤ
  pub lon_min : ℤ
  pub lon_max : ℤ

pub record SearchCriteria : Type 0 where
  pub category : Option String
  pub parameters : Option (List String)
  pub quality : Option String
  pub source : Option String
  pub platform : Option String
  pub station : Option String
  pub format : Option String
  pub processing_level : Option String
  pub date_from : Option String
  pub date_to : Option String
  pub depth_min : Option ℤ
  pub depth_max : Option ℤ
  pub bounds : Option Bounds

-- The criteria with nothing set.
abbrev pub no_criteria : SearchCriteria
no_criteria = record {
  category = none;
  parameters = none;
  quality = none;
  source = none;
  platform = none;
  station = none;
  format = none;
  processing_level = none;
  date_from = none;
  date_to = none;
  depth_min = none;
  depth_max = none;
  bounds = none;
}

-- An optional text is true if it is there and not empty.
abbrev pub truthy : Option String → Bool
truthy none = false
truthy (some s) = not (str_eq s "")

-- `None` and an empty list are both false: the items, if any.
abbrev pub items : Option (List String) → List String
items none = []
items (some xs) = xs

abbrev pub is_cons {ℓ} : {A : Type ℓ} → List A → Bool
is_cons [] = false
is_cons (x ∷ xs) = true

-- `x in xs` for texts
abbrev pub contains : List String → String → Bool
contains [] x = false
contains (y ∷ ys) x = if str_eq y x then true else contains ys x

-- Python compares texts by their code points.
abbrev pub codes : String → List ℕ
codes String.[] = []
codes (String.◌∷◌ c s) = code c ∷ codes s

unfoldable pub lex_ltb : List ℕ → List ℕ → Bool
lex_ltb [] [] = false
lex_ltb [] (y ∷ ys) = true
lex_ltb (x ∷ xs) [] = false
lex_ltb (x ∷ xs) (y ∷ ys) = if x == y then lex_ltb xs ys else ltb x y

-- `s < t` for texts
abbrev pub text_ltb : String → String → Bool
text_ltb s t = lex_ltb (codes s) (codes t)

-- A text of the form `dddd-dd-dd`.
abbrev is_digit : ℕ → Bool
is_digit c = leb b'0' c && leb c b'9'

abbrev fits : List ℕ → List Bool → Bool
fits [] [] = true
fits [] (d ∷ ds) = false
fits (c ∷ cs) [] = false
fits (c ∷ cs) (true ∷ ds) = is_digit c && fits cs ds
fits (c ∷ cs) (false ∷ ds) = c == b'-' && fits cs ds

unfoldable pub is_iso_date : String → Bool
is_iso_date s =
    fits (codes s) (true ∷ true ∷ true ∷ true ∷ false ∷ true ∷ true ∷ false ∷ true ∷ true ∷ [])
