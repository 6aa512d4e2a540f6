-- ===== src/Parsers/Sniff.antt =====
-- `get_parser_for_format` and `sniff_format`. The opening of the file is left out: the bytes are those
-- that it has. An extension is its code points, in ASCII.
use bodp_app.Prelude.{
  ℕ, zero, suc, Bool, true, false, not, ◌&&◌, ◌||◌, Option, none, some, String, List, [], ◌∷◌, leb,
  ◌+◌, ◌==◌, if◌then◌else◌, any, is_some,
}
use bodp_app.Scope.{codes}
use bodp_app.Storage.{Text, text_eq, lstrip}
use bodp_app.Catalog.{take}

pub data FileParser : Type 0 where
  csv_parser netcdf_parser mat_parser geotiff_parser : FileParser

-- `ParserError`, or the result.
pub data Parsed {ℓ} (A : Type ℓ) : Type ℓ where
  ok : A → Parsed A
  parser_error : Parsed A

abbrev pub Bytes : Type 0
Bytes = List ℕ

-- `str.lower` on ASCII
unfoldable pub lower : Text → Text
lower [] = []
lower (c ∷ s) = (if leb b'A' c && leb c b'Z' then c + 32 else c) ∷ lower s

-- `extension.lower().lstrip(".")`
unfoldable pub extension_of : Text → Text
extension_of s = lstrip (λ c. c == b'.') (lower s)

abbrev pub is_one_of : Text → List String → Bool
is_one_of ext names = any (λ n. text_eq (codes n) ext) names

abbrev pub netcdf_extensions : List String
netcdf_extensions = "nc" ∷ "netcdf" ∷ "nc4" ∷ []

abbrev pub tiff_extensions : List String
tiff_extensions = "tif" ∷ "tiff" ∷ "geotiff" ∷ []

-- `_EXTENSION_MAP.get(ext)`
unfoldable pub extension_map : Text → Option FileParser
extension_map ext =
    if is_one_of ext ("csv" ∷ [])
    then some FileParser.csv_parser
    else if is_one_of ext netcdf_extensions
    then some FileParser.netcdf_parser
    else if is_one_of ext ("mat" ∷ [])
    then some FileParser.mat_parser
    else if is_one_of ext tiff_extensions
    then some FileParser.geotiff_parser
    else none

abbrev pub parser_or_error : Option FileParser → Parsed FileParser
parser_or_error none = Parsed.parser_error
parser_or_error (some p) = Parsed.ok p

unfoldable pub get_parser_for_format : Text → Parsed FileParser
get_parser_for_format extension = parser_or_error (extension_map (extension_of extension))

-- `bytes.startswith`, which is what `header[:n] == prefix` asks for a prefix of `n` bytes.
unfoldable pub starts_with : Bytes → Bytes → Bool
starts_with [] bytes = true
starts_with (p ∷ ps) [] = false
starts_with (p ∷ ps) (b ∷ bs) = p == b && starts_with ps bs

-- `part in bytes`
unfoldable pub occurs_in : Bytes → Bytes → Bool
occurs_in part [] = starts_with part []
occurs_in part (b ∷ bs) = starts_with part (b ∷ bs) || occurs_in part bs

-- What a decoder has read: how many bytes of a character are to come, and between which the next is.
pub record Pending : Type 0 where
  pub need : ℕ
  pub lowest : ℕ
  pub highest : ℕ

abbrev pub pending : (need lowest highest : ℕ) → Pending
pending n lo hi = record { need = n; lowest = lo; highest = hi }

abbrev pub between : (lo hi : ℕ) → ℕ → Bool
between lo hi b = leb lo b && leb b hi

-- The first byte of a character: neither overlong forms nor surrogates, up to U+10FFFF.
unfoldable pub first_byte : ℕ → Option Pending
first_byte b =
    if leb b 127
    then some (pending 0 0 0)
    else if between 194 223 b
    then some (pending 1 128 191)
    else if b == 224
    then some (pending 2 160 191)
    else if b == 237
    then some (pending 2 128 159)
    else if between 225 239 b
    then some (pending 2 128 191)
    else if b == 240
    then some (pending 3 144 191)
    else if between 241 243 b
    then some (pending 3 128 191)
    else if b == 244
    then some (pending 3 128 143)
    else none

abbrev pub next_of : (need : ℕ) → Pending → ℕ → Option Pending
next_of zero p b = first_byte b
next_of (suc n) p b = if between p.lowest p.highest b then some (pending n 128 191) else none

abbrev pub and_then : Option Pending → (Pending → Bool) → Bool
and_then none rest = false
and_then (some p) rest = rest p

-- `header.decode("utf-8")` succeeds: no byte is wrong, and no character is incomplete at the end.
unfoldable pub decodes_from : Pending → Bytes → Bool
decodes_from p [] = p.need == 0
decodes_from p (b ∷ bs) = and_then (next_of p.need p b) (λ q. decodes_from q bs)

abbrev pub decodes : Bytes → Bool
decodes bytes = decodes_from (pending 0 0 0) bytes

abbrev pub hdf5_magic : Bytes
hdf5_magic = 137 ∷ 72 ∷ 68 ∷ 70 ∷ 13 ∷ 10 ∷ 26 ∷ 10 ∷ []

-- The eight bytes that are read.
abbrev pub header_of : Bytes → Bytes
header_of bytes = take 8 bytes

abbrev pub is_hdf5 : Bytes → Bool
is_hdf5 h = starts_with hdf5_magic h

abbrev pub is_classic_netcdf : Bytes → Bool
is_classic_netcdf h = starts_with (codes "CDF") h

abbrev pub is_legacy_mat : Bytes → Bool
is_legacy_mat h = starts_with (codes "MATL") h || occurs_in (codes "MATLAB") h

abbrev pub is_tiff : Bytes → Bool
is_tiff h = starts_with (73 ∷ 73 ∷ 42 ∷ 0 ∷ []) h || starts_with (77 ∷ 77 ∷ 0 ∷ 42 ∷ []) h

-- Whether one of the tests on the header raises.
unfoldable pub is_mismatch : Text → Bytes → Bool
is_mismatch ext h =
    is_one_of ext netcdf_extensions && not (is_hdf5 h || is_classic_netcdf h)
    || is_one_of ext ("mat" ∷ []) && not (is_hdf5 h || is_legacy_mat h)
    || is_one_of ext ("csv" ∷ []) && (is_hdf5 h || is_classic_netcdf h || is_tiff h)
    || is_one_of ext ("csv" ∷ []) && (not (decodes h) || any (λ b. b == 0) h)
    || is_one_of ext tiff_extensions && not (is_tiff h)

unfoldable pub sniff_format : Bytes → (declared_extension : Text) → Parsed Text
sniff_format bytes declared_extension =
    let ext = extension_of declared_extension in
    if not (is_some (extension_map ext)) || is_mismatch ext (header_of bytes)
    then Parsed.parser_error
    else Parsed.ok ext
