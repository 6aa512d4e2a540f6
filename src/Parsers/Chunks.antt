-- ===== src/Parsers/Chunks.antt =====
-- The scan of a CSV chunk by chunk is that of all its values (backend/app/services/parsers/csv_parser.py).
use bodp_app.Prelude.{
  map, Option-cases, inl, inr, ℕ, ◌+◌, ◌≡◌, refl, sym, ap, ◌∙◌, Option, none, some, List, [], ◌∷◌,
  ◌++◌, arith,
}
use bodp_app.Prelude.Int.{ℤ}
use bodp_app.Storage.{Text}
use bodp_app.Parsers.Csv.{
  Chunk, Pandas, dropna, min_ℤ, max_ℤ, merge, col_fold, Span, read_column, widen_by, Scan, Axes,
  scan_chunk, scan_chunks,
}

pub min_assoc : (a b c : ℤ) → min_ℤ (min_ℤ a b) c ≡ min_ℤ a (min_ℤ b c)
min_assoc a b c = ground arith

pub max_assoc : (a b c : ℤ) → max_ℤ (max_ℤ a b) c ≡ max_ℤ a (max_ℤ b c)
max_assoc a b c = ground arith

abbrev pub IsAssociative : (ℤ → ℤ → ℤ) → Type 0
IsAssociative f = (a b c : ℤ) → f (f a b) c ≡ f a (f b c)

pub merge_assoc :
    (f : ℤ → ℤ → ℤ)
    → IsAssociative f
    → (a b c : Option ℤ) → merge f (merge f a b) c ≡ merge f a (merge f b c)
merge_assoc f h none b c = refl
merge_assoc f h (some a) none c = refl
merge_assoc f h (some a) (some b) none = refl
merge_assoc f h (some a) (some b) (some c) = ap some (h a b c)

pub merge-none : (f : ℤ → ℤ → ℤ) (a : Option ℤ) → merge f a none ≡ a
merge-none f none = refl
merge-none f (some a) = refl

col_fold-append :
    (f : ℤ → ℤ → ℤ)
    → IsAssociative f
    → (xs ys : List ℤ) → col_fold f (xs ++ ys) ≡ merge f (col_fold f xs) (col_fold f ys)
unfolding col_fold
col_fold-append f h [] ys = refl
col_fold-append f h (x ∷ xs) ys =
    ap (merge f (some x)) (col_fold-append f h xs ys)
    ∙ sym (merge_assoc f h (some x) (col_fold f xs) (col_fold f ys))

-- What a column holds in all chunks, without the missing values.
unfoldable pub present_values :
    {Cell : Type 0} → (List Cell → List (Option ℤ)) → Option (List Cell) → List ℤ
present_values read none = []
present_values read (some cells) = dropna (read cells)

unfoldable pub all_values :
    {Cell : Type 0}
    → (List Cell → List (Option ℤ))
    → (name : Option Text) → List (Chunk Cell)
    → List ℤ
all_values read name [] = []
all_values read name (chunk ∷ chunks) =
    present_values read (read_column name chunk) ++ all_values read name chunks

-- A column of the whole file: the cells of its chunks, one after the other.
abbrev pub or_no_cells : {Cell : Type 0} → Option (List Cell) → List Cell
or_no_cells none = []
or_no_cells (some cells) = cells

unfoldable pub cells_of : {Cell : Type 0} → (name : Option Text) → List (Chunk Cell) → List Cell
cells_of name [] = []
cells_of name (chunk ∷ chunks) = or_no_cells (read_column name chunk) ++ cells_of name chunks

unfoldable pub count_rows : {Cell : Type 0} → List (Chunk Cell) → ℕ
count_rows [] = 0
count_rows (chunk ∷ chunks) = chunk.length_of_chunk + count_rows chunks

-- A span joined with values, at once.
abbrev pub joined : Span → List ℤ → Span
joined e vs = record {
  lowest = merge min_ℤ e.lowest (col_fold min_ℤ vs);
  highest = merge max_ℤ e.highest (col_fold max_ℤ vs);
}

joined_none : (e : Span) → joined e [] ≡ e
unfolding col_fold
joined_none e =
    λ i. record { lowest = merge-none min_ℤ e.lowest i; highest = merge-none max_ℤ e.highest i }

widen_by-joined :
    {Cell : Type 0} (read : List Cell → List (Option ℤ)) (o : Option (List Cell)) (e : Span)
    → widen_by read o e ≡ joined e (present_values read o)
unfolding widen_by present_values col_fold
widen_by-joined read none e = sym (joined_none e)
widen_by-joined read (some cells) e = refl

joined-joined : (e : Span) (xs ys : List ℤ) → joined (joined e xs) ys ≡ joined e (xs ++ ys)
joined-joined e xs ys =
    let low : merge min_ℤ (merge min_ℤ e.lowest (col_fold min_ℤ xs)) (col_fold min_ℤ ys)
        ≡ merge min_ℤ e.lowest (col_fold min_ℤ (xs ++ ys)) =
      merge_assoc min_ℤ min_assoc e.lowest (col_fold min_ℤ xs) (col_fold min_ℤ ys)
      ∙ ap (merge min_ℤ e.lowest) (sym (col_fold-append min_ℤ min_assoc xs ys)) in
    let high : merge max_ℤ (merge max_ℤ e.highest (col_fold max_ℤ xs)) (col_fold max_ℤ ys)
        ≡ merge max_ℤ e.highest (col_fold max_ℤ (xs ++ ys)) =
      merge_assoc max_ℤ max_assoc e.highest (col_fold max_ℤ xs) (col_fold max_ℤ ys)
      ∙ ap (merge max_ℤ e.highest) (sym (col_fold-append max_ℤ max_assoc xs ys)) in
    λ i. record { lowest = low i; highest = high i }

module _ (p : Pandas) (a : Axes) where
  -- One axis of the scan is the span of all its values, however the file is cut into chunks.
  pub scan_chunks-joined :
      (pick : Scan → Span) (read : List p.Cell → List (Option ℤ)) (name : Option Text)
      → ((chunk : Chunk p.Cell) (s : Scan)
          → pick (scan_chunk p a chunk s) ≡ widen_by read (read_column name chunk) (pick s))
      → (chunks : List (Chunk p.Cell)) (s : Scan)
      → pick (scan_chunks p a chunks s) ≡ joined (pick s) (all_values read name chunks)
  unfolding scan_chunks all_values
  scan_chunks-joined pick read name h [] s = sym (joined_none (pick s))
  scan_chunks-joined pick read name h (chunk ∷ chunks) s =
      let rest = all_values read name chunks in
      let here = present_values read (read_column name chunk) in
      scan_chunks-joined pick read name h chunks (scan_chunk p a chunk s)
      ∙ (ap (λ e. joined e rest)
            (h chunk s ∙ widen_by-joined read (read_column name chunk) (pick s))
          ∙ joined-joined (pick s) here rest)

  pub scan_chunks-count_rows :
      (chunks : List (Chunk p.Cell)) (s : Scan)
      → (scan_chunks p a chunks s).row_count ≡ s.row_count + count_rows chunks
  unfolding scan_chunks count_rows
  scan_chunks-count_rows [] s = omega arith
  scan_chunks-count_rows (chunk ∷ chunks) s =
      scan_chunks-count_rows chunks (scan_chunk p a chunk s) ∙ omega arith

dropna-append {ℓ} :
    {A B : Type ℓ} (f : A → Option B) (xs ys : List A)
    → dropna (map f (xs ++ ys)) ≡ dropna (map f xs) ++ dropna (map f ys)
unfolding dropna
dropna-append f [] ys = refl
dropna-append f (x ∷ xs) ys = elim (Option-cases (f x)) [
  | inl e ↦ rw e (dropna-append f xs ys)
  | inr (b, e) ↦ rw e (ap (λ l. b ∷ l) (dropna-append f xs ys))
]

present_values-or_no_cells :
    {Cell : Type 0} (f : Cell → Option ℤ) (o : Option (List Cell))
    → present_values (map f) o ≡ dropna (map f (or_no_cells o))
unfolding present_values dropna
present_values-or_no_cells f none = refl
present_values-or_no_cells f (some cells) = refl

-- Where each cell is converted on its own, the values are those of the whole column.
pub all_values-cells_of :
    {Cell : Type 0} (f : Cell → Option ℤ) (name : Option Text) (chunks : List (Chunk Cell))
    → all_values (map f) name chunks ≡ dropna (map f (cells_of name chunks))
unfolding all_values cells_of dropna
all_values-cells_of f name [] = refl
all_values-cells_of f name (chunk ∷ chunks) =
    ap (λ l. l ++ all_values (map f) name chunks)
      (present_values-or_no_cells f (read_column name chunk))
    ∙ (ap (λ l. dropna (map f (or_no_cells (read_column name chunk))) ++ l)
          (all_values-cells_of f name chunks)
        ∙ sym (dropna-append f (or_no_cells (read_column name chunk)) (cells_of name chunks)))
