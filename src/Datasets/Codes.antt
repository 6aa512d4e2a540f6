-- ===== src/Datasets/Codes.antt =====
-- `_generate_code`: the codes BD-0000 to BD-9999, and the next one.
use bodp_app.Prelude.{
  ℕ, zero, suc, ◌+◌, ◌-◌, ◌*◌, ◌/◌, ◌%◌, max, Bool, false, ◌&&◌, List, [], ◌∷◌, ◌++◌, leb, ltb,
  ◌==◌, if◌then◌else◌, any,
}
use bodp_app.Scope.{codes}
use bodp_app.Models.{Dataset}
use bodp_app.Storage.{Text, text_eq}

unfoldable pub is_digit : ℕ → Bool
is_digit c = leb b'0' c && leb c b'9'

-- `^BD-\d{4}$`
unfoldable pub is_auto_code : Text → Bool
is_auto_code (a ∷ b ∷ c ∷ p ∷ q ∷ r ∷ s ∷ []) =
    a == b'B' && b == b'D' && c == b'-' && is_digit p && is_digit q && is_digit r && is_digit s
is_auto_code code = false

-- `int(code.split("-")[1])` of such a code
unfoldable pub number_of : Text → ℕ
number_of (a ∷ b ∷ c ∷ p ∷ q ∷ r ∷ s ∷ []) =
    (p - b'0') * 1000 + (q - b'0') * 100 + (r - b'0') * 10 + (s - b'0')
number_of code = 0

abbrev pub digit : ℕ → ℕ
digit n = b'0' + n % 10

-- Decimal digits; the fuel `suc n` is enough for `n`.
unfoldable pub decimal : (fuel n : ℕ) → Text
decimal zero n = []
decimal (suc fuel) n =
    let front = decimal fuel (n / 10) in if ltb n 10 then digit n ∷ [] else front ++ (digit n ∷ [])

-- `f"BD-{n:04d}"`
unfoldable pub code_of : ℕ → Text
code_of n =
    codes "BD-"
    ++ (if ltb n 10000
        then digit (n / 1000) ∷ digit (n / 100) ∷ digit (n / 10) ∷ digit n ∷ []
        else decimal (suc n) n)

-- `max(existing_numbers, default=0)`
unfoldable pub highest_number : List Dataset → ℕ
highest_number [] = 0
highest_number (d ∷ ds) =
    let rest = highest_number ds in
    if is_auto_code d.code then max (number_of d.code) rest else rest

abbrev pub generate_code : List Dataset → Text
generate_code ds = code_of (highest_number ds + 1)

-- Whether a dataset has the code: the unique constraint.
unfoldable pub is_taken : Text → List Dataset → Bool
is_taken code ds = any (λ (d : Dataset). text_eq d.code code) ds
