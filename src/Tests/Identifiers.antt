-- ===== src/Tests/Identifiers.antt =====
-- A stand-in for UUIDs and their texts.
use bodp_app.Prelude.{arith, ℕ, zero, suc, ◌≡◌, refl, ap, false, [], ◌∷◌, any, ◌==◌}
use bodp_app.Storage.{Text, Uuids}

-- A stand-in for the texts of UUIDs: as many ones as the number says.
abbrev pub ones : ℕ → Text
ones zero = []
ones (suc n) = b'1' ∷ ones n

pub ones-lacks : (c n : ℕ) → (b'1' == c) ≡ false → any (λ d. d == c) (ones n) ≡ false
ones-lacks c zero h = refl
ones-lacks c (suc n) h = ground (arith, ones-lacks c n h)

abbrev pub tail : Text → Text
tail [] = []
tail (c ∷ s) = s

pub ones_injective : (a b : ℕ) → ones a ≡ ones b → a ≡ b
ones_injective zero zero e = refl
ones_injective zero (suc b) e = absurd (ground arith)
ones_injective (suc a) zero e = absurd (ground arith)
ones_injective (suc a) (suc b) e = ap suc (ones_injective a b (ap tail e))

abbrev pub uuids : Uuids
uuids = record {
  text = ones;
  no_slash = λ n. ones-lacks b'/' n refl;
  no_underscore = λ n. ones-lacks b'_' n refl;
  text_injective = ones_injective;
}
