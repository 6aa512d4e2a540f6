-- ===== src/Datasets/Numbering.antt =====
-- Which codes are still free, and when a dataset can be created.
use bodp_app.Prelude.{
  ℕ, zero, suc, ◌+◌, ◌*◌, ◌/◌, ◌%◌, ltb, ◌<◌, ◌≤◌, ◌≡◌, refl, ap, ◌∙◌, true, false, Option, none,
  some, List, [], ◌∷◌, ◌==◌, arith, ||-true, Bool-cases, inl, inr,
}
use bodp_app.Scope.{codes}
use bodp_app.Table.{Table, find, insert, find-insert, rows_of}
use bodp_app.Session.{
  Result, continue, commit, pure, ◌>>◌, Session, ok, err, http, run, exec, reply,
}
use bodp_app.Models.{Dataset, AuditActionType}
use bodp_app.Database.{Db, write_audit_log}
use bodp_app.Storage.{Text, text_eq}
use bodp_app.Datasets.Codes.{
  is_digit, digit, is_auto_code, number_of, code_of, highest_number, generate_code, is_taken,
  decimal,
}
use bodp_app.Datasets.Handlers.{
  DatasetCreate, new_dataset, is_explicit, chosen_code, breaks_constraint, with_dataset, attempts,
  create_dataset, max_attempts,
}

pub text_eq-path : (s t : Text) → text_eq s t ≡ true → s ≡ t
unfolding text_eq
text_eq-path [] [] h = refl
text_eq-path [] (d ∷ t) h = cc
text_eq-path (c ∷ s) [] h = cc
text_eq-path (c ∷ s) (d ∷ t) h =
    let rest = text_eq-path s t (ground arith) in let same : c ≡ d = ground arith in cc

digit-is_digit : (n : ℕ) → is_digit (digit n) ≡ true
unfolding is_digit
digit-is_digit n = ground arith

digits_give :
    (n : ℕ)
    → n < 10000
    → (n / 1000 % 10) * 1000 + (n / 100 % 10) * 100 + (n / 10 % 10) * 10 + n % 10 ≡ n
digits_give n h = omega arith

-- A code below 10000 is read back as the number that it was made from.
number_of-code_of :
    (n : ℕ) → n < 10000 → (is_auto_code (code_of n) ≡ true) × (number_of (code_of n) ≡ n)
unfolding is_auto_code number_of code_of
number_of-code_of n h =
    let small : ltb n 10000 ≡ true = ground arith in
    rw small (simp (digit-is_digit), omega (arith, digits_give n h))

taken-highest_number :
    (code : Text) (ds : List Dataset)
    → is_auto_code code ≡ true
    → is_taken code ds ≡ true
    → number_of code ≤ highest_number ds
unfolding is_taken highest_number
taken-highest_number code [] auto h = cc
taken-highest_number code (d ∷ ds) auto h = elim (Bool-cases (text_eq d.code code)) [
  | inl e ↦ let same = text_eq-path d.code code e in rw (same, auto) (omega arith)
  | inr e ↦ let ih = taken-highest_number code ds auto (ground arith) in ground arith
]

-- The next code is free, as long as no code has the number 9999.
generate_code-free :
    (ds : List Dataset) → highest_number ds < 9999 → is_taken (generate_code ds) ds ≡ false
generate_code-free ds h = elim (Bool-cases (is_taken (generate_code ds) ds)) [
  | inr e ↦ e
  | inl e ↦
      let (auto, same) = number_of-code_of (highest_number ds + 1) (omega arith) in
      absurd (omega (arith, taken-highest_number (generate_code ds) ds auto e, same))
]

chosen_generated :
    (code : Option Text) (ds : List Dataset)
    → is_explicit code ≡ false
    → chosen_code code ds ≡ generate_code ds
chosen_generated none ds h = refl
chosen_generated (some []) ds h = refl
chosen_generated (some (c ∷ s)) ds h = cc

find-insert_new : (id : ℕ) (d : Dataset) (t : Table Dataset) → find id (insert id d t) ≡ some d
find-insert_new id d t = ground (arith, find-insert id id d t)

-- What `create_dataset` does with how the attempts ended.
abbrev finish : (actor : ℕ) → Result ℕ × Session Db → Result ℕ × Db
finish actor (r, s) =
    let (r', s') =
      continue r (λ key. write_audit_log actor AuditActionType.dataset key >> (commit >> pure key))
        s in
    (r', s'.committed)

run-finish :
    (draw : ℕ → ℕ) (payload : DatasetCreate) (actor : ℕ) (db : Db) (end : Result ℕ × Session Db)
    → attempts draw max_attempts payload (record { committed = db; working = db }) ≡ end
    → run (create_dataset draw payload actor) db ≡ finish actor end
unfolding create_dataset
run-finish draw payload actor db end e = ap (finish actor) e

-- The first attempt stores the dataset.
attempts_store :
    (draw : ℕ → ℕ) (left : ℕ) (payload : DatasetCreate) (s : Session Db)
    → breaks_constraint
        (draw left)
        (chosen_code payload.code (rows_of s.working.datasets))
        s.working
      ≡ false
    → attempts draw (suc left) payload s ≡ (
      ok (draw left),
      (let db =
            with_dataset
              (draw left)
              (new_dataset payload (chosen_code payload.code (rows_of s.working.datasets)))
              s.working in
          record { committed = db; working = db }),
    )
unfolding attempts
attempts_store draw left payload s e = rw e refl

-- A dataset is created without a code of its own, where no dataset has the number 9999: it gets the
-- number after the highest, and no other dataset has its code.
pub create_dataset-numbered :
    (draw : ℕ → ℕ) (payload : DatasetCreate) (actor : ℕ) (db : Db)
    → is_explicit payload.code ≡ false
    → highest_number (rows_of db.datasets) < 9999
    → find (draw 4) db.datasets ≡ none
    → (reply (create_dataset draw payload actor) db ≡ ok (draw 4))
      × (find (draw 4) (exec (create_dataset draw payload actor) db).datasets
          ≡ some (new_dataset payload (generate_code (rows_of db.datasets))))
      × (is_taken (generate_code (rows_of db.datasets)) (rows_of db.datasets) ≡ false)
create_dataset-numbered draw payload actor db none_given room fresh =
    let free = generate_code-free (rows_of db.datasets) room in
    let chosen = chosen_generated payload.code (rows_of db.datasets) none_given in
    let start : Session Db = record { committed = db; working = db } in
    let clear : breaks_constraint (draw 4) (chosen_code payload.code (rows_of db.datasets)) db
        ≡ false =
      rw (chosen, fresh, free) refl in
    let ran = run-finish draw payload actor db _ (attempts_store draw 4 payload start clear) in
    let d = new_dataset payload (chosen_code payload.code (rows_of db.datasets)) in
    (
      ap (λ r. r.0) ran,
      ap (λ r. find (draw 4) r.1.datasets) ran
          ∙ (find-insert_new (draw 4) d db.datasets
              ∙ ap (λ code. some (new_dataset payload code)) chosen),
      free,
    )

code_in_use :
    (key : ℕ) (payload : DatasetCreate) (s : Session Db)
    → is_explicit payload.code ≡ false
    → is_taken (generate_code (rows_of s.working.datasets)) (rows_of s.working.datasets) ≡ true
    → breaks_constraint key (chosen_code payload.code (rows_of s.working.datasets)) s.working ≡ true
code_in_use key payload s e t =
    rw (chosen_generated payload.code (rows_of s.working.datasets) e, t) (||-true _)

attempts_again :
    (draw : ℕ → ℕ) (left : ℕ) (payload : DatasetCreate) (s : Session Db)
    → (left == 0) ≡ false
    → is_explicit payload.code ≡ false
    → breaks_constraint
        (draw left)
        (chosen_code payload.code (rows_of s.working.datasets))
        s.working
      ≡ true
    → attempts draw (suc left) payload s ≡ attempts draw left payload s
unfolding attempts
attempts_again draw left payload s more e b = rw (b, e, more) refl

-- Every attempt fails alike.
attempts_fail :
    (draw : ℕ → ℕ) (left : ℕ) (payload : DatasetCreate) (s : Session Db)
    → is_explicit payload.code ≡ false
    → is_taken (generate_code (rows_of s.working.datasets)) (rows_of s.working.datasets) ≡ true
    → attempts draw (suc left) payload s ≡ (err (http 409), s)
unfolding attempts
attempts_fail draw zero payload s e t = rw (code_in_use (draw zero) payload s e t, e) refl
attempts_fail draw (suc left) payload s e t =
    attempts_again draw (suc left) payload s (ground arith) e
      (code_in_use (draw (suc left)) payload s e t)
    ∙ attempts_fail draw left payload s e t

-- Once BD-9999 and BD-10000 are in use, no dataset is created without a code of its own any more:
-- every such call raises 409 and changes nothing.
pub no_code_left :
    (draw : ℕ → ℕ) (payload : DatasetCreate) (actor : ℕ) (db : Db)
    → is_explicit payload.code ≡ false
    → highest_number (rows_of db.datasets) ≡ 9999
    → is_taken (codes "BD-10000") (rows_of db.datasets) ≡ true
    → run (create_dataset draw payload actor) db ≡ (err (http 409), db)
unfolding code_of decimal
no_code_left draw payload actor db none_given full taken =
    let start : Session Db = record { committed = db; working = db } in
    run-finish draw payload actor db (err (http 409), start)
      (attempts_fail draw 4 payload start none_given (rw full taken))
