-- ===== src/Storage/Naming.antt =====
-- What a stored name can hold, and which keys can be the same.
use bodp_app.Prelude.{ℕ, ◌≡◌, refl, ap, Bool, true, false, not, [], ◌∷◌, ◌++◌, ◌==◌, all, arith}
use bodp_app.Scope.{codes}
use bodp_app.Storage.Keys.{
  Text, Uuids, has, replace, after_last, is_safe, sub_unsafe, is_stripped, lstrip, cons_stripped,
  rstrip, or_else, sanitize_filename, raw_key,
}

-- The first and the last character are neither a dot nor an underscore.
abbrev pub begins_bare : Text → Bool
begins_bare [] = true
begins_bare (c ∷ s) = not (is_stripped c)

abbrev pub ends_bare : Text → Bool
ends_bare [] = true
ends_bare (c ∷ []) = not (is_stripped c)
ends_bare (c ∷ d ∷ s) = ends_bare (d ∷ s)

abbrev pub is_cons : Text → Bool
is_cons [] = false
is_cons (c ∷ s) = true

-- A safe name: of safe characters, not empty, and with such a first and last character.
abbrev pub IsSafeName : Text → Type 0
IsSafeName s =
    (all is_safe s ≡ true) × (is_cons s ≡ true) × (begins_bare s ≡ true) × (ends_bare s ≡ true)

underscore_is_safe : is_safe b'_' ≡ true
unfolding is_safe
underscore_is_safe = refl

safe_not_backslash : (c : ℕ) → is_safe c ≡ true → (c == b'\\') ≡ false
unfolding is_safe
safe_not_backslash c h = ground arith

safe_not_slash : (c : ℕ) → is_safe c ≡ true → (c == b'/') ≡ false
unfolding is_safe
safe_not_slash c h = ground arith

sub_unsafe-all : (run : Bool) (s : Text) → all is_safe (sub_unsafe run s) ≡ true
unfolding sub_unsafe
sub_unsafe-all run [] = refl
sub_unsafe-all true (c ∷ s) =
    ground (arith, underscore_is_safe, sub_unsafe-all true s, sub_unsafe-all false s)
sub_unsafe-all false (c ∷ s) =
    ground (arith, underscore_is_safe, sub_unsafe-all true s, sub_unsafe-all false s)

lstrip-all : (p q : ℕ → Bool) (s : Text) → all q s ≡ true → all q (lstrip p s) ≡ true
unfolding lstrip
lstrip-all p q [] h = refl
lstrip-all p q (c ∷ s) h = ground (arith, lstrip-all p q s)

lstrip-begins_bare : (s : Text) → begins_bare (lstrip is_stripped s) ≡ true
unfolding lstrip
lstrip-begins_bare [] = refl
lstrip-begins_bare (c ∷ s) = ground (arith, lstrip-begins_bare s)

cons_stripped-all :
    (p q : ℕ → Bool) (c : ℕ) (s : Text)
    → q c ≡ true
    → all q s ≡ true
    → all q (cons_stripped p c s) ≡ true
cons_stripped-all p q c [] h k = ground arith
cons_stripped-all p q c (d ∷ s) h k = ground arith

rstrip-all : (p q : ℕ → Bool) (s : Text) → all q s ≡ true → all q (rstrip p s) ≡ true
unfolding rstrip
rstrip-all p q [] h = refl
rstrip-all p q (c ∷ s) h =
    cons_stripped-all p q c (rstrip p s) (ground arith) (rstrip-all p q s (ground arith))

cons_stripped-ends_bare :
    (c : ℕ) (s : Text) → ends_bare s ≡ true → ends_bare (cons_stripped is_stripped c s) ≡ true
cons_stripped-ends_bare c [] h = ground arith
cons_stripped-ends_bare c (d ∷ s) h = h

rstrip-ends_bare : (s : Text) → ends_bare (rstrip is_stripped s) ≡ true
unfolding rstrip
rstrip-ends_bare [] = refl
rstrip-ends_bare (c ∷ s) = cons_stripped-ends_bare c (rstrip is_stripped s) (rstrip-ends_bare s)

cons_stripped-begins_bare :
    (c : ℕ) (s : Text) → is_stripped c ≡ false → begins_bare (cons_stripped is_stripped c s) ≡ true
cons_stripped-begins_bare c [] h = ground arith
cons_stripped-begins_bare c (d ∷ s) h = ground arith

rstrip-begins_bare : (s : Text) → begins_bare s ≡ true → begins_bare (rstrip is_stripped s) ≡ true
unfolding rstrip
rstrip-begins_bare [] h = refl
rstrip-begins_bare (c ∷ s) h = cons_stripped-begins_bare c (rstrip is_stripped s) (ground arith)

or_else-IsSafeName :
    (s : Text)
    → all is_safe s ≡ true
    → begins_bare s ≡ true
    → ends_bare s ≡ true
    → IsSafeName (or_else s (codes "file"))
unfolding is_safe is_stripped
or_else-IsSafeName [] a b c = (refl, refl, refl, refl)
or_else-IsSafeName (x ∷ s) a b c = (a, refl, b, c)

sanitize_filename-IsSafeName : (name : Text) → IsSafeName (sanitize_filename name)
unfolding sanitize_filename
sanitize_filename-IsSafeName name =
    or_else-IsSafeName _ (rstrip-all _ is_safe _ (lstrip-all _ is_safe _ (sub_unsafe-all false _)))
      (rstrip-begins_bare _ (lstrip-begins_bare _)) (rstrip-ends_bare _)

-- On a safe name each step does nothing.
replace_id : (s : Text) → all is_safe s ≡ true → replace b'\\' b'/' s ≡ s
unfolding replace
replace_id [] h = refl
replace_id (c ∷ s) h = ground (arith, safe_not_backslash c, replace_id s)

safe-no_slash : (s : Text) → all is_safe s ≡ true → has b'/' s ≡ false
safe-no_slash [] h = refl
safe-no_slash (c ∷ s) h = ground (arith, safe_not_slash c, safe-no_slash s)

after_last_id : (s : Text) → has b'/' s ≡ false → after_last b'/' s ≡ s
unfolding after_last
after_last_id [] h = refl
after_last_id (c ∷ s) h = ground arith

sub_unsafe_id : (s : Text) → all is_safe s ≡ true → sub_unsafe false s ≡ s
unfolding sub_unsafe
sub_unsafe_id [] h = refl
sub_unsafe_id (c ∷ s) h = ground (arith, sub_unsafe_id s)

lstrip_id : (s : Text) → begins_bare s ≡ true → lstrip is_stripped s ≡ s
unfolding lstrip
lstrip_id [] h = refl
lstrip_id (c ∷ s) h = ground arith

ends_bare-tail : (c : ℕ) (s : Text) → ends_bare (c ∷ s) ≡ true → ends_bare s ≡ true
ends_bare-tail c [] h = refl
ends_bare-tail c (d ∷ s) h = h

cons_stripped_id :
    (c : ℕ) (s : Text) → ends_bare (c ∷ s) ≡ true → cons_stripped is_stripped c s ≡ c ∷ s
cons_stripped_id c [] h = ground arith
cons_stripped_id c (d ∷ s) h = refl

rstrip_id : (s : Text) → ends_bare s ≡ true → rstrip is_stripped s ≡ s
unfolding rstrip
rstrip_id [] h = refl
rstrip_id (c ∷ s) h = rw (rstrip_id s (ends_bare-tail c s h)) (cons_stripped_id c s h)

or_else_id : (s t : Text) → is_cons s ≡ true → or_else s t ≡ s
or_else_id [] t h = cc
or_else_id (c ∷ s) t h = refl

sanitize_filename_id : (s : Text) → IsSafeName s → sanitize_filename s ≡ s
unfolding sanitize_filename
sanitize_filename_id s (safe, full, first, last) =
    rw
      (
        replace_id s safe,
        after_last_id s (safe-no_slash s safe),
        sub_unsafe_id s safe,
        lstrip_id s first,
        rstrip_id s last,
      )
      (or_else_id s _ full)

-- Whatever the name of an upload is, the name under which it is stored has at least one character,
-- only letters, digits, dots, hyphens and underscores, no dot and no underscore at either end, and
-- is stored under itself.
pub sanitize_filename-safe :
    (name : Text)
    → IsSafeName (sanitize_filename name)
      × (sanitize_filename (sanitize_filename name) ≡ sanitize_filename name)
sanitize_filename-safe name =
    (sanitize_filename-IsSafeName name, sanitize_filename_id _ (sanitize_filename-IsSafeName name))

-- A text is split in one way at the first place of a character.
cut_unique :
    (sep : ℕ) (a b x y : Text)
    → has sep a ≡ false
    → has sep b ≡ false
    → a ++ (sep ∷ x) ≡ b ++ (sep ∷ y)
    → (a ≡ b) × (x ≡ y)
cut_unique sep [] [] x y h k e = (refl, cc)
cut_unique sep [] (d ∷ b) x y h k e = absurd (ground arith)
cut_unique sep (c ∷ a) [] x y h k e = absurd (ground arith)
cut_unique sep (c ∷ a) (d ∷ b) x y h k e =
    let (p, q) = cut_unique sep a b x y (ground arith) (ground arith) (ground arith) in (cc, q)

abbrev drop_4 : Text → Text
drop_4 (a ∷ b ∷ c ∷ d ∷ s) = s
drop_4 s = []

-- Two uploads are stored under the same key only if they are the same file of the same dataset.
pub raw_key_injective :
    (uuids : Uuids) (dataset_id dataset_id' file_id file_id' : ℕ) (name name' : Text)
    → raw_key uuids dataset_id file_id name ≡ raw_key uuids dataset_id' file_id' name'
    → (dataset_id ≡ dataset_id') × (file_id ≡ file_id')
unfolding raw_key
raw_key_injective uuids d d' i i' n n' e =
    let (p, rest) = cut_unique b'/' _ _ _ _ (uuids.no_slash d) (uuids.no_slash d') (ap drop_4 e) in
    let (q, _) = cut_unique b'_' _ _ _ _ (uuids.no_underscore i) (uuids.no_underscore i') rest in
    (uuids.text_injective d d' p, uuids.text_injective i i' q)
