-- ===== src/Backups/Retention.antt =====
-- What the sweep of old backups removes, and what it keeps (backend/app/worker/tasks/backups.py).
use bodp_app.Prelude.{
  ℕ, ◌==◌, ◌≡◌, refl, sym, ap, ◌∙◌, inl, inr, Bool, true, false, not, ◌&&◌, Option, none, some,
  List, [], ◌∷◌, any, if◌then◌else◌, arith, Bool-cases,
}
use bodp_app.Table.{Table, find, delete_where, rows_where, IsKeyed}
use bodp_app.Storage.{Text, text_eq}
use bodp_app.Datasets.Numbering.{text_eq-path}
use bodp_app.Backups.{
  BackupRow, Archive, delete_object, held, is_expired, delete_stored, delete_all_stored,
  sweep_expired_backups,
}

text_eq_same : (a : Text) → text_eq a a ≡ true
unfolding text_eq
text_eq_same [] = refl
text_eq_same (c ∷ a) = ground (arith, text_eq_same a)

-- The row of an expired backup names this key, and storage does not refuse to delete it.
abbrev pub names_key : Option Text → Text → Bool
names_key none key = false
names_key (some []) key = false
names_key (some (c ∷ k)) key = text_eq (c ∷ k) key

abbrev pub deletes : (refused : Text → Bool) → (key : Text) → ℕ × BackupRow → Bool
deletes refused key (id, b) = names_key b.storage_key key && not (refused key)

eq_other : (x k key : Text) → text_eq x key ≡ true → text_eq x k ≡ false → text_eq k key ≡ false
eq_other x k key h e = elim (Bool-cases (text_eq k key)) [
  | inl t ↦
      let full : text_eq x k ≡ true =
        rw (text_eq-path x key h, text_eq-path k key t) (text_eq_same key) in
      absurd (cc)
  | inr t ↦ t
]

held-delete_object :
    (k key : Text) (objects : List Text)
    → held key (delete_object k objects) ≡ (held key objects && not (text_eq k key))
unfolding delete_object
held-delete_object k key [] = refl
held-delete_object k key (x ∷ xs) = elim (Bool-cases (text_eq x k)) [
  | inl e ↦
      let same : text_eq x key ≡ text_eq k key = ap (λ y. text_eq y key) (text_eq-path x k e) in
      ground (arith, held-delete_object k key xs, same, e)
  | inr e ↦ elim (Bool-cases (text_eq x key)) [
    | inl h ↦
        let other : text_eq k key ≡ false = eq_other x k key h e in ground (arith, other, h, e)
    | inr h ↦ ground (arith, held-delete_object k key xs, h, e)
  ]
]

held-delete_stored :
    (refused : Text → Bool) (key : Text) (stored : Option Text) (objects : List Text)
    → held key (delete_stored refused stored objects)
      ≡ (held key objects && not (names_key stored key && not (refused key)))
held-delete_stored refused key none objects = ground arith
held-delete_stored refused key (some []) objects = ground arith
held-delete_stored refused key (some (c ∷ k)) objects = elim (Bool-cases (text_eq (c ∷ k) key)) [
  | inl e ↦
      let same : refused (c ∷ k) ≡ refused key = ap refused (text_eq-path (c ∷ k) key e) in
      elim (Bool-cases (refused key)) [
        | inl r ↦ rw (same, r, e) (ground arith)
        | inr r ↦ rw (same, r) (held-delete_object (c ∷ k) key objects ∙ (rw e refl))
      ]
  | inr e ↦ elim (Bool-cases (refused (c ∷ k))) [
    | inl r ↦ rw (r, e) (ground arith)
    | inr r ↦ rw r (held-delete_object (c ∷ k) key objects ∙ (rw e refl))
  ]
]

held-delete_all_stored :
    (refused : Text → Bool) (key : Text) (expired : List (ℕ × BackupRow)) (objects : List Text)
    → held key (delete_all_stored refused expired objects)
      ≡ (held key objects && not (any (deletes refused key) expired))
unfolding delete_all_stored
held-delete_all_stored refused key [] objects = ground arith
held-delete_all_stored refused key ((id, b) ∷ expired) objects = ground (
  arith,
  held-delete_stored refused key b.storage_key objects,
  held-delete_all_stored refused key expired (delete_stored refused b.storage_key objects),
)

abbrev pub unless {ℓ} : {R : Type ℓ} → (R → Bool) → Option R → Option R
unless p none = none
unless p (some r) = if p r then none else some r

delete_where_still_none {ℓ} :
    {R : Type ℓ} (p : R → Bool) (id : ℕ) (t : Table R)
    → find id t ≡ none
    → find id (delete_where p t) ≡ none
unfolding find delete_where
delete_where_still_none p id [] h = refl
delete_where_still_none p id ((j, r) ∷ t) h = ground (arith, delete_where_still_none p id t)

find-delete_where {ℓ} :
    {R : Type ℓ} (p : R → Bool) (id : ℕ) (t : Table R)
    → IsKeyed t
    → find id (delete_where p t) ≡ unless p (find id t)
unfolding find delete_where
find-delete_where p id [] k = refl
find-delete_where p id ((j, r) ∷ t) (k, ks) = elim (Bool-cases (j == id)) [
  | inl e ↦
      let same : j ≡ id = ground arith in
      let rest : find id t ≡ none = rw (sym same) k in
      elim (Bool-cases (p r)) [
        | inl h ↦ rw (h, e, h) (delete_where_still_none p id t rest)
        | inr h ↦ rw (h, e, h) refl
      ]
  | inr e ↦ ground (arith, find-delete_where p id t ks, e)
]

-- The sweep keeps exactly the rows that began within the time of retention, and exactly those objects
-- that no removed row names or that storage refuses to delete.
pub sweep_expired_backups-keeps :
    (cutoff : ℕ) (refused : Text → Bool) (w : Archive) (id : ℕ) (key : Text)
    → IsKeyed w.backups
    → (find id (sweep_expired_backups cutoff refused w).1.backups
        ≡ unless (is_expired cutoff) (find id w.backups))
      × (held key (sweep_expired_backups cutoff refused w).1.objects ≡ (
          held key w.objects
          && not (any (deletes refused key) (rows_where (is_expired cutoff) w.backups))))
unfolding sweep_expired_backups
sweep_expired_backups-keeps cutoff refused w id key k = (
  find-delete_where (is_expired cutoff) id w.backups k,
  held-delete_all_stored refused key (rows_where (is_expired cutoff) w.backups) w.objects,
)
