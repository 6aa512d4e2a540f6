-- ===== src/Parsers/Cuts.antt =====
-- A CSV that is cut into chunks in two ways (backend/app/services/parsers/csv_parser.py).
use bodp_app.Prelude.{◌≡◌, refl, sym, ap, ◌∙◌, subst, Option, some, List, map, ◌+◌}
use bodp_app.Storage.{Text}
use bodp_app.Parsers.Sniff.{Parsed}
use bodp_app.Parsers.Csv.{
  Chunk, Pandas, dropna, Span, Scan, no_scan, Axes, CsvMetadata, axes_of, scan_chunk, scan_chunks,
  read_column, widen_by, depth_convention_of, metadata_of, parse_rows,
}
use bodp_app.Parsers.Chunks.{
  joined, cells_of, all_values, all_values-cells_of, count_rows, scan_chunks-joined,
  scan_chunks-count_rows,
}

-- The same cells in every column, and as many rows.
pub record SameFile {Cell : Type 0} (cs ds : List (Chunk Cell)) : Type 0 where
  pub cells : (name : Option Text) → cells_of name cs ≡ cells_of name ds
  pub rows : count_rows cs ≡ count_rows ds

-- The same results, except the dates.
pub record AgreesWith (m n : CsvMetadata) : Type 0 where
  pub variables : m.variables ≡ n.variables
  pub record_count : m.record_count ≡ n.record_count
  pub lat_min : m.spatial_lat_min ≡ n.spatial_lat_min
  pub lat_max : m.spatial_lat_max ≡ n.spatial_lat_max
  pub lon_min : m.spatial_lon_min ≡ n.spatial_lon_min
  pub lon_max : m.spatial_lon_max ≡ n.spatial_lon_max
  pub depth_min : m.depth_min ≡ n.depth_min
  pub depth_max : m.depth_max ≡ n.depth_max
  pub depth_convention : m.depth_convention ≡ n.depth_convention

module _ (p : Pandas) (a : Axes) (cs ds : List (Chunk p.Cell)) where
  numbers_agree :
      (pick : Scan → Span) (name : Option Text)
      → ((chunk : Chunk p.Cell) (s : Scan)
          → pick (scan_chunk p a chunk s)
            ≡ widen_by (map p.to_numeric) (read_column name chunk) (pick s))
      → SameFile cs ds
      → pick (scan_chunks p a cs no_scan) ≡ pick (scan_chunks p a ds no_scan)
  numbers_agree pick name h same =
      let values : all_values (map p.to_numeric) name cs ≡ all_values (map p.to_numeric) name ds =
        all_values-cells_of p.to_numeric name cs
        ∙ (ap (λ cells. dropna (map p.to_numeric cells)) (same.cells name)
            ∙ sym (all_values-cells_of p.to_numeric name ds)) in
      scan_chunks-joined p a pick (map p.to_numeric) name h cs no_scan
      ∙ (ap (joined (pick no_scan)) values
          ∙ sym (scan_chunks-joined p a pick (map p.to_numeric) name h ds no_scan))

  rows_agree :
      SameFile cs ds
      → (scan_chunks p a cs no_scan).row_count ≡ (scan_chunks p a ds no_scan).row_count
  rows_agree same =
      scan_chunks-count_rows p a cs no_scan
      ∙ (ap (λ n. 0 + n) same.rows ∙ sym (scan_chunks-count_rows p a ds no_scan))

  metadata_of-AgreesWith :
      (columns : List Text)
      → SameFile cs ds
      → AgreesWith
          (metadata_of p.date_of columns a (scan_chunks p a cs no_scan))
          (metadata_of p.date_of columns a (scan_chunks p a ds no_scan))
  unfolding metadata_of
  metadata_of-AgreesWith columns same =
      let lat = numbers_agree (λ s. s.lat) a.lat_col (λ c s. refl) same in
      let lon = numbers_agree (λ s. s.lon) a.lon_col (λ c s. refl) same in
      let depth = numbers_agree (λ s. s.depth) a.depth_col (λ c s. refl) same in
      record {
        variables = refl;
        record_count = rows_agree same;
        lat_min = ap (λ e. e.lowest) lat;
        lat_max = ap (λ e. e.highest) lat;
        lon_min = ap (λ e. e.lowest) lon;
        lon_max = ap (λ e. e.highest) lon;
        depth_min = ap (λ e. e.lowest) depth;
        depth_max = ap (λ e. e.highest) depth;
        depth_convention = ap (λ e. depth_convention_of a.depth_col e.lowest) depth;
      }

-- Two ways to cut a file into chunks, which give every column the same cells in the same order and
-- the file as many rows, give the same result, the dates excepted.
pub parse_rows-AgreesWith :
    (p : Pandas) (columns : List Text) (cs ds : List (Chunk p.Cell)) (m n : CsvMetadata)
    → SameFile cs ds
    → parse_rows p columns (some cs) ≡ Parsed.ok m
    → parse_rows p columns (some ds) ≡ Parsed.ok n
    → AgreesWith m n
unfolding parse_rows
parse_rows-AgreesWith p columns cs ds m n same h k =
    let first : metadata_of p.date_of columns (axes_of p columns)
          (scan_chunks p (axes_of p columns) cs no_scan)
        ≡ m =
      cc in
    let second : metadata_of p.date_of columns (axes_of p columns)
          (scan_chunks p (axes_of p columns) ds no_scan)
        ≡ n =
      cc in
    subst (λ x. AgreesWith x n) first
      (subst (AgreesWith _) second
        (metadata_of-AgreesWith p (axes_of p columns) cs ds columns same))
