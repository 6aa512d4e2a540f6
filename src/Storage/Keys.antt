-- ===== src/Storage/Keys.antt =====
-- `keys.py` over the code points of texts.
use bodp_app.Prelude.{
  ℕ, ◌≡◌, Bool, true, false, ◌&&◌, ◌||◌, List, [], ◌∷◌, ◌++◌, leb, ◌==◌, if◌then◌else◌, any,
}
use bodp_app.Scope.{codes}

abbrev pub Text : Type 0
Text = List ℕ

-- What `str` gives of a UUID: digits, letters and hyphens, and different ones for different UUIDs.
pub record Uuids : Type 0 where
  pub text : ℕ → Text
  pub no_slash : (id : ℕ) → any (λ c. c == b'/') (text id) ≡ false
  pub no_underscore : (id : ℕ) → any (λ c. c == b'_') (text id) ≡ false
  pub text_injective : (a b : ℕ) → text a ≡ text b → a ≡ b

abbrev pub has : ℕ → Text → Bool
has c = any (λ d. d == c)

-- `s.replace(old, new)` for single characters
unfoldable pub replace : (old new : ℕ) → Text → Text
replace old new [] = []
replace old new (c ∷ s) = (if c == old then new else c) ∷ replace old new s

-- `s.rsplit(sep, 1)[-1]`
unfoldable pub after_last : (sep : ℕ) → Text → Text
after_last sep [] = []
after_last sep (c ∷ s) = let rest = after_last sep s in if has sep (c ∷ s) then rest else c ∷ s

-- `[A-Za-z0-9._-]`
unfoldable pub is_safe : ℕ → Bool
is_safe c =
    leb b'A' c && leb c b'Z'
    || leb b'a' c && leb c b'z'
    || leb b'0' c && leb c b'9'
    || c == b'.'
    || c == b'_'
    || c == b'-'

-- `_UNSAFE_FILENAME_CHARS.sub("_", s)`: one underscore for each run of other characters. The flag
-- says that a run has begun.
unfoldable pub sub_unsafe : Bool → Text → Text
sub_unsafe run [] = []
sub_unsafe run (c ∷ s) =
    let keep = c ∷ sub_unsafe false s in
    let skip = sub_unsafe true s in if is_safe c then keep else if run then skip else b'_' ∷ skip

-- `"._"`
unfoldable pub is_stripped : ℕ → Bool
is_stripped c = c == b'.' || c == b'_'

unfoldable pub lstrip : (ℕ → Bool) → Text → Text
lstrip p [] = []
lstrip p (c ∷ s) = let rest = lstrip p s in if p c then rest else c ∷ s

abbrev pub cons_stripped : (ℕ → Bool) → ℕ → Text → Text
cons_stripped p c [] = if p c then [] else c ∷ []
cons_stripped p c (d ∷ s) = c ∷ d ∷ s

unfoldable pub rstrip : (ℕ → Bool) → Text → Text
rstrip p [] = []
rstrip p (c ∷ s) = cons_stripped p c (rstrip p s)

-- `s or other`
abbrev pub or_else : Text → Text → Text
or_else [] other = other
or_else (c ∷ s) other = c ∷ s

unfoldable pub sanitize_filename : Text → Text
sanitize_filename original_name =
    or_else
      (rstrip is_stripped (
        lstrip is_stripped (sub_unsafe false (after_last b'/' (replace b'\\' b'/' original_name)))))
      (codes "file")

-- `ext.lstrip(".")`
abbrev pub bare : Text → Text
bare = lstrip (λ c. c == b'.')

module _ (uuids : Uuids) where
  unfoldable pub raw_key : (dataset_id file_id : ℕ) → (original_name : Text) → Text
  raw_key dataset_id file_id original_name =
      codes "raw/"
      ++ (uuids.text dataset_id
          ++ (b'/' ∷ (uuids.text file_id ++ (b'_' ∷ sanitize_filename original_name))))

  unfoldable pub processed_key : (dataset_id file_id : ℕ) → (extension : Text) → Text
  processed_key dataset_id file_id extension =
      codes "processed/"
      ++ (uuids.text dataset_id ++ (b'/' ∷ (uuids.text file_id ++ (b'.' ∷ bare extension))))

  unfoldable pub processed_prefix : (dataset_id file_id : ℕ) → Text
  processed_prefix dataset_id file_id =
      codes "processed/"
      ++ (uuids.text dataset_id ++ (b'/' ∷ (uuids.text file_id ++ codes ".zarr")))

  unfoldable pub extract_key : (grant_id extraction_id : ℕ) → (extension : Text) → Text
  extract_key grant_id extraction_id extension =
      codes "extracts/"
      ++ (uuids.text grant_id ++ (b'/' ∷ (uuids.text extraction_id ++ (b'.' ∷ bare extension))))

  unfoldable pub previews_key : (dataset_id : ℕ) → (filename : Text) → Text
  previews_key dataset_id filename =
      codes "previews/" ++ (uuids.text dataset_id ++ (b'/' ∷ sanitize_filename filename))

  unfoldable pub snapshot_key : (dataset_id : ℕ) → Text
  snapshot_key dataset_id =
      codes "snapshots/" ++ (uuids.text dataset_id ++ (b'/' ∷ codes "snapshot.json"))

  unfoldable pub avatar_key : (user_id : ℕ) → (filename : Text) → Text
  avatar_key user_id filename =
      codes "avatars/" ++ (uuids.text user_id ++ (b'/' ∷ sanitize_filename filename))

  unfoldable pub supporting_document_key :
      (request_id document_id : ℕ) → (original_name : Text) → Text
  supporting_document_key request_id document_id original_name =
      codes "supporting-documents/"
      ++ (uuids.text request_id
          ++ (b'/' ∷ (uuids.text document_id ++ (b'_' ∷ sanitize_filename original_name))))

  unfoldable pub media_key : (media_id : ℕ) → (filename : Text) → Text
  media_key media_id filename =
      codes "media/" ++ (uuids.text media_id ++ (b'/' ∷ sanitize_filename filename))

  unfoldable pub backup_key : (backup_id : ℕ) → (kind : Text) → Text
  backup_key backup_id kind =
      codes "backups/" ++ (uuids.text backup_id ++ (b'/' ∷ (kind ++ codes ".dump")))
