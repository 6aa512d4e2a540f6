-- ===== src/Tests/ParserTests.antt =====
-- Runs of the check of a file's first bytes.
use bodp_app.Prelude.{◌≡◌, refl, inl, [], ◌∷◌, ◌++◌, arith, All}
use bodp_app.Scope.{codes}
use bodp_app.Storage.{text_eq, lstrip}
use bodp_app.Catalog.{take}
use bodp_app.Parsers.Sniff.{
  FileParser, Parsed, lower, extension_of, extension_map, first_byte, decodes_from, starts_with,
  occurs_in, is_mismatch, get_parser_for_format, sniff_format, header_of,
}
use bodp_app.Parsers.Utf8.{encode, encode_all}
use bodp_app.Parsers.Checks.{HeaderFits, sniff_format-splits, sniff_format-get_parser_for_format}

csv_extension : extension_of (codes ".CSV") ≡ codes "csv"
unfolding extension_of lower lstrip
csv_extension = refl

-- "Station" and U+00E9
sniff_format-splits_example :
    sniff_format (encode_all (codes "Station" ++ (233 ∷ codes "e,value"))) (codes ".CSV")
    ≡ Parsed.parser_error
unfolding All encode_all encode
sniff_format-splits_example =
    sniff_format-splits (codes "Station") 233 (codes "e,value") (codes ".CSV") csv_extension
      (
        inl (omega arith),
        (
          inl (omega arith),
          (
            inl (omega arith),
            (inl (omega arith), (inl (omega arith), (inl (omega arith), (inl (omega arith), tt)))),
          ),
        ),
      )
      (inl (omega arith)) (omega arith) (omega arith)

plain_text_passes : sniff_format (codes "time,value") (codes ".CSV") ≡ Parsed.ok (codes "csv")
unfolding sniff_format is_mismatch extension_map extension_of lower lstrip text_eq starts_with
    occurs_in take decodes_from first_byte
plain_text_passes = refl

renamed_binary :
    sniff_format (127 ∷ codes "ELF" ++ (2 ∷ 1 ∷ 1 ∷ 0 ∷ [])) (codes ".csv") ≡ Parsed.parser_error
unfolding sniff_format is_mismatch extension_map extension_of lower lstrip text_eq starts_with
    occurs_in take decodes_from first_byte
renamed_binary = refl

sniff_format-get_parser_for_format_example :
    (p : FileParser) × (get_parser_for_format (codes "csv") ≡ Parsed.ok p)
    × HeaderFits p (header_of (codes "time,value"))
sniff_format-get_parser_for_format_example =
    sniff_format-get_parser_for_format (codes "time,value") (codes ".CSV") (codes "csv")
      plain_text_passes
