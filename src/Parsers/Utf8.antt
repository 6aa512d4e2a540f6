-- ===== src/Parsers/Utf8.antt =====
-- Texts in UTF-8, and where a decoder stands after a part of one.
use mathlib.Core.List.{append_assoc}
use bodp_app.Prelude.{
  ℕ, zero, suc, ◌+◌, ◌/◌, ◌%◌, ◌<◌, ◌≤◌, ◌≡◌, ◌⊎◌, refl, ap, ◌∙◌, inl, inr, true, false, some, List,
  [], ◌∷◌, ◌++◌, ltb, if◌then◌else◌, length, arith, All, Bool-cases,
}
use bodp_app.Catalog.{take}
use bodp_app.Parsers.Sniff.{Bytes, Pending, pending, between, first_byte, decodes_from}

-- A code point that a text can have.
abbrev pub IsScalar : ℕ → Type 0
IsScalar c = (c < 55296) ⊎ ((57344 ≤ c) × (c < 1114112))

unfoldable pub encode : ℕ → Bytes
encode c =
    if ltb c 128
    then c ∷ []
    else if ltb c 2048
    then (192 + c / 64) ∷ (128 + c % 64) ∷ []
    else if ltb c 65536
    then (224 + c / 4096) ∷ (128 + c / 64 % 64) ∷ (128 + c % 64) ∷ []
    else (240 + c / 262144) ∷ (128 + c / 4096 % 64) ∷ (128 + c / 64 % 64) ∷ (128 + c % 64) ∷ []

unfoldable pub encode_all : List ℕ → Bytes
encode_all [] = []
encode_all (c ∷ cs) = encode c ++ encode_all cs

abbrev start : Pending
start = pending 0 0 0

decodes_from-ready :
    (lo hi : ℕ) (bs : Bytes) → decodes_from (pending 0 lo hi) bs ≡ decodes_from start bs
unfolding decodes_from
decodes_from-ready lo hi [] = refl
decodes_from-ready lo hi (b ∷ bs) = refl

decodes_from-lead :
    (a : ℕ) (q : Pending) (bs : Bytes)
    → first_byte a ≡ some q
    → decodes_from start (a ∷ bs) ≡ decodes_from q bs
unfolding decodes_from
decodes_from-lead a q bs e = rw e refl

decodes_from-continues :
    (n lo hi b : ℕ) (bs : Bytes)
    → between lo hi b ≡ true
    → decodes_from (pending (suc n) lo hi) (b ∷ bs) ≡ decodes_from (pending n 128 191) bs
unfolding decodes_from
decodes_from-continues n lo hi b bs e = rw e refl

-- What the first byte of a character asks of the second.
abbrev Leads : (need a b : ℕ) → Type 0
Leads need a b =
    (lo : ℕ) × (hi : ℕ) × (first_byte a ≡ some (pending need lo hi)) × (between lo hi b ≡ true)

lead_two : (c : ℕ) → 128 ≤ c → c < 2048 → Leads 1 (192 + c / 64) (128 + c % 64)
unfolding first_byte
lead_two c h k = (128, 191, ground arith, ground arith)

lead_three :
    (c : ℕ) → 2048 ≤ c → c < 65536 → IsScalar c → Leads 2 (224 + c / 4096) (128 + c / 64 % 64)
unfolding first_byte
lead_three c h k s = elim (Bool-cases (ltb c 4096)) [
  | inl a ↦ (160, 191, ground arith, ground arith)
  | inr a ↦ elim (Bool-cases (ltb c 53248)) [
    | inl b ↦ (128, 191, ground arith, ground arith)
    | inr b ↦ elim (Bool-cases (ltb c 57344)) [
      | inl d ↦ (128, 159, ground arith, ground arith)
      | inr d ↦ (128, 191, ground arith, ground arith)
    ]
  ]
]

lead_four : (c : ℕ) → 65536 ≤ c → c < 1114112 → Leads 3 (240 + c / 262144) (128 + c / 4096 % 64)
unfolding first_byte
lead_four c h k = elim (Bool-cases (ltb c 262144)) [
  | inl a ↦ (144, 191, ground arith, ground arith)
  | inr a ↦ elim (Bool-cases (ltb c 1048576)) [
    | inl b ↦ (128, 191, ground arith, ground arith)
    | inr b ↦ (128, 143, ground arith, ground arith)
  ]
]

continues : (x : ℕ) → between 128 191 (128 + x % 64) ≡ true
continues x = ground arith

-- A character is read to its end.
decodes_from-encode :
    (c : ℕ) (bs : Bytes) → IsScalar c → decodes_from start (encode c ++ bs) ≡ decodes_from start bs
unfolding encode first_byte
decodes_from-encode c bs h = elim (Bool-cases (ltb c 128)) [
  | inl a ↦ rw a (decodes_from-lead c start bs (ground arith))
  | inr a ↦ elim (Bool-cases (ltb c 2048)) [
    | inl b ↦
        let (lo, hi, e, m) = lead_two c (ground arith) (ground arith) in
        rw (a, b)
          (decodes_from-lead (192 + c / 64) (pending 1 lo hi) ((128 + c % 64) ∷ bs) e
            ∙ (decodes_from-continues 0 lo hi (128 + c % 64) bs m ∙ decodes_from-ready 128 191 bs))
    | inr b ↦ elim (Bool-cases (ltb c 65536)) [
      | inl d ↦
          let (lo, hi, e, m) = lead_three c (ground arith) (ground arith) h in
          rw (a, b, d)
            (decodes_from-lead (224 + c / 4096) (pending 2 lo hi) _ e
              ∙ (decodes_from-continues 1 lo hi (128 + c / 64 % 64) _ m
                  ∙ (decodes_from-continues 0 128 191 (128 + c % 64) bs (continues c)
                      ∙ decodes_from-ready 128 191 bs)))
      | inr d ↦
          let (lo, hi, e, m) = lead_four c (ground arith) (ground arith) in
          rw (a, b, d)
            (decodes_from-lead (240 + c / 262144) (pending 3 lo hi) _ e
              ∙ (decodes_from-continues 2 lo hi (128 + c / 4096 % 64) _ m
                  ∙ (decodes_from-continues 1 128 191 (128 + c / 64 % 64) _ (continues (c / 64))
                      ∙ (decodes_from-continues 0 128 191 (128 + c % 64) bs (continues c)
                          ∙ decodes_from-ready 128 191 bs))))
    ]
  ]
]

-- So a text is read up to whatever follows it.
pub decodes_from-encode_all :
    (cs : List ℕ) (bs : Bytes)
    → All IsScalar cs
    → decodes_from start (encode_all cs ++ bs) ≡ decodes_from start bs
unfolding encode_all All
decodes_from-encode_all [] bs h = refl
decodes_from-encode_all (c ∷ cs) bs (h, hs) =
    ap (decodes_from start) (append_assoc (encode c) (encode_all cs) bs)
    ∙ (decodes_from-encode c (encode_all cs ++ bs) h ∙ decodes_from-encode_all cs bs hs)

part_of_two :
    (a b k : ℕ) → Leads 1 a b → 0 < k → k < 2 → decodes_from start (take k (a ∷ b ∷ [])) ≡ false
unfolding take decodes_from
part_of_two a b zero l h k = absurd (omega arith)
part_of_two a b (suc zero) (lo, hi, e, m) h k = decodes_from-lead a (pending 1 lo hi) [] e
part_of_two a b (suc (suc n)) l h k = absurd (omega arith)

part_of_three :
    (a b c k : ℕ)
    → Leads 2 a b
    → 0 < k
    → k < 3
    → decodes_from start (take k (a ∷ b ∷ c ∷ [])) ≡ false
unfolding take decodes_from
part_of_three a b c zero l h k = absurd (omega arith)
part_of_three a b c (suc zero) (lo, hi, e, m) h k = decodes_from-lead a (pending 2 lo hi) [] e
part_of_three a b c (suc (suc zero)) (lo, hi, e, m) h k =
    decodes_from-lead a (pending 2 lo hi) (b ∷ []) e ∙ decodes_from-continues 1 lo hi b [] m
part_of_three a b c (suc (suc (suc n))) l h k = absurd (omega arith)

part_of_four :
    (a b c d k : ℕ)
    → Leads 3 a b
    → between 128 191 c ≡ true
    → 0 < k
    → k < 4
    → decodes_from start (take k (a ∷ b ∷ c ∷ d ∷ [])) ≡ false
unfolding take decodes_from
part_of_four a b c d zero l n h k = absurd (omega arith)
part_of_four a b c d (suc zero) (lo, hi, e, m) n h k = decodes_from-lead a (pending 3 lo hi) [] e
part_of_four a b c d (suc (suc zero)) (lo, hi, e, m) n h k =
    decodes_from-lead a (pending 3 lo hi) (b ∷ []) e ∙ decodes_from-continues 2 lo hi b [] m
part_of_four a b c d (suc (suc (suc zero))) (lo, hi, e, m) n h k =
    decodes_from-lead a (pending 3 lo hi) (b ∷ c ∷ []) e
    ∙ (decodes_from-continues 2 lo hi b (c ∷ []) m ∙ decodes_from-continues 1 128 191 c [] n)
part_of_four a b c d (suc (suc (suc (suc j)))) l n h k = absurd (omega arith)

-- A character that is cut short is refused.
pub decodes_from-part :
    (c k : ℕ)
    → IsScalar c
    → 0 < k
    → k < length (encode c)
    → decodes_from start (take k (encode c)) ≡ false
unfolding encode
decodes_from-part c k s h j = elim (Bool-cases (ltb c 128)) [
  | inl a ↦ absurd (ground arith)
  | inr a ↦ elim (Bool-cases (ltb c 2048)) [
    | inl b ↦
        rw (a, b)
          (part_of_two (192 + c / 64) (128 + c % 64) k (lead_two c (ground arith) (ground arith)) h
            (ground arith))
    | inr b ↦ elim (Bool-cases (ltb c 65536)) [
      | inl d ↦
          rw (a, b, d)
            (part_of_three _ _ _ k (lead_three c (ground arith) (ground arith) s) h (ground arith))
      | inr d ↦
          rw (a, b, d)
            (part_of_four _ _ _ _ k (lead_four c (ground arith) (ground arith)) (continues (c / 64))
              h (ground arith))
    ]
  ]
]
