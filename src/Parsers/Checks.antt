-- ===== src/Parsers/Checks.antt =====
-- What the check of a file's first bytes lets through, and a text that it refuses.
use mathlib.Core.List.{append_assoc}
use bodp_app.Prelude.{
  ℕ, zero, suc, ◌+◌, ◌-◌, ◌≤◌, ◌<◌, ◌≡◌, refl, sym, ap, ◌∙◌, inl, inr, Bool, true, false, ◌||◌,
  some, List, [], ◌∷◌, ◌++◌, ◌==◌, any, length, is_some, arith, All, Bool-cases, Option-cases,
}
use bodp_app.Scope.{codes}
use bodp_app.Storage.{Text, text_eq, lstrip}
use bodp_app.Catalog.{take}
use bodp_app.Parsers.Sniff.{
  FileParser, Parsed, Bytes, lower, extension_of, extension_map, parser_or_error,
  get_parser_for_format, decodes, header_of, is_hdf5, is_classic_netcdf, is_tiff, is_legacy_mat,
  is_mismatch, sniff_format,
}
use bodp_app.Parsers.Utf8.{IsScalar, encode, encode_all, decodes_from-encode_all, decodes_from-part}

take-append {ℓ} :
    {A : Type ℓ} (k : ℕ) (xs ys : List A) → take (length xs + k) (xs ++ ys) ≡ xs ++ take k ys
unfolding take
take-append k [] ys = ap (λ n. take n ys) (omega arith)
take-append k (x ∷ xs) ys =
    let step : length (x ∷ xs) + k ≡ suc (length xs + k) = omega arith in
    ap (λ n. take n (x ∷ (xs ++ ys))) step ∙ ap (λ l. x ∷ l) (take-append k xs ys)

take_prefix {ℓ} :
    {A : Type ℓ} (k : ℕ) (xs ys : List A) → k ≤ length xs → take k (xs ++ ys) ≡ take k xs
unfolding take
take_prefix zero xs ys h = refl
take_prefix (suc k) [] ys h = absurd (omega arith)
take_prefix (suc k) (x ∷ xs) ys h = ap (λ l. x ∷ l) (take_prefix k xs ys (omega arith))

module _ (p : List ℕ) (c : ℕ) (rest : Bytes) where
  abbrev left : ℕ
  left = 8 - length (encode_all p)

  header_of-split :
      length (encode_all p) ≤ 8
      → left ≤ length (encode c)
      → header_of (encode_all p ++ (encode c ++ rest)) ≡ encode_all p ++ take left (encode c)
  header_of-split h k =
      let whole : 8 ≡ length (encode_all p) + left = omega arith in
      ap (λ n. take n (encode_all p ++ (encode c ++ rest))) whole
      ∙ (take-append left (encode_all p) (encode c ++ rest)
          ∙ ap (λ l. encode_all p ++ l) (take_prefix left (encode c) rest k))

encode_all-append : (p cs : List ℕ) → encode_all (p ++ cs) ≡ encode_all p ++ encode_all cs
unfolding encode_all
encode_all-append [] cs = refl
encode_all-append (x ∷ p) cs =
    ap (λ l. encode x ++ l) (encode_all-append p cs)
    ∙ sym (append_assoc (encode x) (encode_all p) (encode_all cs))

encode_all_parts :
    (p : List ℕ) (c : ℕ) (rest : List ℕ)
    → encode_all (p ++ (c ∷ rest)) ≡ encode_all p ++ (encode c ++ encode_all rest)
unfolding encode_all
encode_all_parts p c rest = encode_all-append p (c ∷ rest)

or_is_true : (b : Bool) → (b || true) ≡ true
or_is_true true = refl
or_is_true false = refl

-- A header that is no text is refused for ".csv".
is_mismatch_no_text : (h : Bytes) → decodes h ≡ false → is_mismatch (codes "csv") h ≡ true
unfolding is_mismatch text_eq
is_mismatch_no_text h e = simp (e, or_is_true)

-- A file of ".csv" that is a valid text in UTF-8 is refused where a character of it stands on both
-- sides of the end of the eighth byte.
pub sniff_format-splits :
    (p : List ℕ) (c : ℕ) (rest : List ℕ) (extension : Text)
    → extension_of extension ≡ codes "csv"
    → All IsScalar p
    → IsScalar c
    → length (encode_all p) < 8
    → 8 < length (encode_all p) + length (encode c)
    → sniff_format (encode_all (p ++ (c ∷ rest))) extension ≡ Parsed.parser_error
unfolding sniff_format
sniff_format-splits p c rest extension csv hp hc h k =
    let bytes : encode_all (p ++ (c ∷ rest)) ≡ encode_all p ++ (encode c ++ encode_all rest) =
      encode_all_parts p c rest in
    let header : header_of (encode_all (p ++ (c ∷ rest)))
        ≡ encode_all p ++ take (left p c []) (encode c) =
      ap header_of bytes ∙ header_of-split p c (encode_all rest) (omega arith) (omega arith) in
    let bad : decodes (header_of (encode_all (p ++ (c ∷ rest)))) ≡ false =
      ap decodes header
      ∙ (decodes_from-encode_all p (take (left p c []) (encode c)) hp
          ∙ decodes_from-part c (left p c []) hc (omega arith) (omega arith)) in
    rw (csv, is_mismatch_no_text _ bad, or_is_true) refl

lower-lstrip : (s : Text) → lower (lstrip (λ c. c == b'.') s) ≡ lstrip (λ c. c == b'.') (lower s)
unfolding lower lstrip
lower-lstrip [] = refl
lower-lstrip (c ∷ s) = ground (arith, lower-lstrip s)

lower-lower : (s : Text) → lower (lower s) ≡ lower s
unfolding lower
lower-lower [] = refl
lower-lower (c ∷ s) = ground (arith, lower-lower s)

lstrip-lstrip : (p : ℕ → Bool) (s : Text) → lstrip p (lstrip p s) ≡ lstrip p s
unfolding lstrip
lstrip-lstrip p [] = refl
lstrip-lstrip p (c ∷ s) = elim (Bool-cases (p c)) [
  | inl e ↦ rw e (lstrip-lstrip p s)
  | inr e ↦ rw (e, e) refl
]

extension_of-extension_of : (s : Text) → extension_of (extension_of s) ≡ extension_of s
unfolding extension_of
extension_of-extension_of s =
    ap (lstrip (λ c. c == b'.'))
      (lower-lstrip (lower s) ∙ ap (lstrip (λ c. c == b'.')) (lower-lower s))
    ∙ lstrip-lstrip (λ c. c == b'.') (lower s)

-- What the parser of a file relies on in its first bytes.
unfoldable pub HeaderFits : FileParser → Bytes → Type 0
HeaderFits FileParser.csv_parser h =
    (decodes h ≡ true)
    × (any (λ b. b == 0) h ≡ false)
    × ((is_hdf5 h || is_classic_netcdf h || is_tiff h) ≡ false)
HeaderFits FileParser.netcdf_parser h = (is_hdf5 h || is_classic_netcdf h) ≡ true
HeaderFits FileParser.mat_parser h = (is_hdf5 h || is_legacy_mat h) ≡ true
HeaderFits FileParser.geotiff_parser h = is_tiff h ≡ true

no_mismatch-HeaderFits :
    (e : Text) (h : Bytes) (p : FileParser)
    → extension_map e ≡ some p
    → is_mismatch e h ≡ false
    → HeaderFits p h
unfolding is_mismatch extension_map HeaderFits
no_mismatch-HeaderFits e h FileParser.csv_parser k m = (ground arith, ground arith, ground arith)
no_mismatch-HeaderFits e h FileParser.netcdf_parser k m = ground arith
no_mismatch-HeaderFits e h FileParser.mat_parser k m = ground arith
no_mismatch-HeaderFits e h FileParser.geotiff_parser k m = ground arith

sniff_format_passes :
    (bytes : Bytes) (extension e : Text)
    → sniff_format bytes extension ≡ Parsed.ok e
    → (e ≡ extension_of extension)
      × (is_some (extension_map e) ≡ true)
      × (is_mismatch e (header_of bytes) ≡ false)
unfolding sniff_format
sniff_format_passes bytes extension e h = (ground arith, ground arith, ground arith)

-- An extension that passes has a parser, and the first bytes of the file are such as that parser
-- reads: those of a text without NUL for CSV, else a signature of the format.
pub sniff_format-get_parser_for_format :
    (bytes : Bytes) (extension e : Text)
    → sniff_format bytes extension ≡ Parsed.ok e
    → (p : FileParser) × (get_parser_for_format e ≡ Parsed.ok p) × HeaderFits p (header_of bytes)
unfolding sniff_format get_parser_for_format
sniff_format-get_parser_for_format bytes extension e h =
    let (ext, known, fits) = sniff_format_passes bytes extension e h in
    let same : extension_of e ≡ e =
      ap extension_of ext ∙ (extension_of-extension_of extension ∙ sym ext) in
    elim (Option-cases (extension_map e)) [
      | inl b ↦ absurd (cc)
      | inr (p, b) ↦ (
        p,
        ap parser_or_error (ap extension_map same ∙ b),
        no_mismatch-HeaderFits e (header_of bytes) p b fits,
      )
    ]
