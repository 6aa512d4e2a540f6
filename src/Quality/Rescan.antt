-- ===== src/Quality/Rescan.antt =====
-- A scan opens an issue once: a second scan finds nothing new.
use bodp_app.Prelude.{
  ℕ, suc, ◌≡◌, refl, sym, ◌∙◌, Bool, true, List, [], ◌∷◌, ◌++◌, any, arith, In, In-append_left,
  In-append_right, Bool-cases, Option-cases, ◌⊎◌, inl, inr, ==_refl,
}
use bodp_app.Table.{Table, find, insert, rows_of}
use bodp_app.Session.{Session, Result, continue, modify, commit, pure, ◌>>◌, ok, err, exec, reply}
use bodp_app.Models.{AuditActionType, Dataset, QualityIssue, QualityIssueType, type_code}
use bodp_app.Database.{Db, write_audit_log}
use bodp_app.Quality.Detect.{
  Statistics, is_open_issue, has_open_issue, duplicates, outliers, missing_values, actual_count,
  parquet_files,
}
use bodp_app.Quality.Scan.{
  new_issue, issues_for, uncounted, new_issues, add_issues, notify_admins, run_qc_scan,
}

-- The table with the issues added.
insert_all : (draw : ℕ → ℕ) → (n : ℕ) → List QualityIssue → Table QualityIssue → Table QualityIssue
insert_all draw n [] t = t
insert_all draw n (i ∷ issues) t = insert_all draw (suc n) issues (insert (draw n) i t)

module _ (p : QualityIssue → Bool) (draw : ℕ → ℕ) where
  insert_all-keeps :
      (n : ℕ) (issues : List QualityIssue) (t : Table QualityIssue)
      → any p (rows_of t) ≡ true
      → any p (rows_of (insert_all draw n issues t)) ≡ true
  unfolding insert_all insert rows_of
  insert_all-keeps n [] t h = h
  insert_all-keeps n (i ∷ issues) t h = insert_all-keeps (suc n) issues _ (ground arith)

  insert_all-adds :
      (n : ℕ) (issues : List QualityIssue) (t : Table QualityIssue) (i : QualityIssue)
      → In i issues
      → p i ≡ true
      → any p (rows_of (insert_all draw n issues t)) ≡ true
  unfolding insert_all insert rows_of
  insert_all-adds n [] t i m h = elim m [ ]
  insert_all-adds n (j ∷ issues) t i (In.here _) h =
      insert_all-keeps (suc n) issues _ (ground arith)
  insert_all-adds n (j ∷ issues) t i (In.there _ _ m) h = insert_all-adds (suc n) issues _ i m h

add_issues-insert_all :
    (draw : ℕ → ℕ) (n : ℕ) (issues : List QualityIssue) (s : Session Db)
    → (add_issues draw n issues s).0 ≡ ok tt
    → (add_issues draw n issues s).1.working
      ≡ record s.working { quality_issues = insert_all draw n issues s.working.quality_issues }
unfolding add_issues insert_all insert
add_issues-insert_all draw n [] s h = refl
add_issues-insert_all draw n (i ∷ issues) s h =
    let next : Session Db = record s {
      working = record s.working { quality_issues = insert (draw n) i s.working.quality_issues };
    } in
    elim (Option-cases (find (draw n) s.working.quality_issues)) [
      | inl e ↦ rw e (add_issues-insert_all draw (suc n) issues next (rw e at h))
      | inr (old, e) ↦ absurd (ground arith)
    ]

-- What a detector flags has an open issue, or gets one.
flagged_covered :
    (db : Db) (t : QualityIssueType) (flagged : List (ℕ × ℕ)) (id found : ℕ)
    → In (id, found) flagged
    → (has_open_issue db id t ≡ true) ⊎ In (new_issue t id found) (issues_for db t flagged)
unfolding issues_for
flagged_covered db t [] id found m = elim m [ ]
flagged_covered db t ((j, n) ∷ flagged) id found (In.here _) =
    elim (Bool-cases (has_open_issue db id t)) [ inl e ↦ inl e | inr e ↦ inr (rw e (In.here _)) ]
flagged_covered db t ((j, n) ∷ flagged) id found (In.there _ _ m) =
    elim (flagged_covered db t flagged id found m) [
      | inl e ↦ inl e
      | inr k ↦ elim (Bool-cases (has_open_issue db j t)) [
        | inl e ↦ inr (rw e k)
        | inr e ↦ inr (rw e (In.there _ _ k))
      ]
    ]

none_new :
    (db : Db) (t : QualityIssueType) (flagged : List (ℕ × ℕ))
    → ((id found : ℕ) → In (id, found) flagged → has_open_issue db id t ≡ true)
    → issues_for db t flagged ≡ []
unfolding issues_for
none_new db t [] h = refl
none_new db t ((id, n) ∷ flagged) h =
    rw (h id n (In.here flagged))
      (none_new db t flagged (λ j k m. h j k (In.there (id, n) flagged m)))

new_issue-is_open_issue :
    (t : QualityIssueType) (id found : ℕ) → is_open_issue id t (new_issue t id found) ≡ true
new_issue-is_open_issue t id found = ground (arith, ==_refl id, ==_refl (type_code t))

-- The issues that a scan adds are among the open issues of the database after it.
module _ (draw : ℕ → ℕ) (issues : List QualityIssue) (db db' : Db)
    (added : db'.quality_issues ≡ insert_all draw 0 issues db.quality_issues) where
  covered_open :
      (t : QualityIssueType) (flagged : List (ℕ × ℕ))
      → ((i : QualityIssue) → In i (issues_for db t flagged) → In i issues)
      → issues_for db' t flagged ≡ []
  unfolding has_open_issue
  covered_open t flagged sub = none_new db' t flagged (λ id found m.
      rw added (elim (flagged_covered db t flagged id found m) [
        | inl e ↦ insert_all-keeps (is_open_issue id t) draw 0 issues db.quality_issues e
        | inr k ↦
            insert_all-adds (is_open_issue id t) draw 0 issues db.quality_issues
              (new_issue t id found) (sub _ k) (new_issue-is_open_issue t id found)
      ]))

-- What is written once the issues are added.
abbrev told : (actor : ℕ) → List QualityIssue → Db → Db
told actor issues db =
    (write_audit_log actor AuditActionType.dataset 0
      (record { committed = db; working = notify_admins issues db })).1.working

-- The database after a scan that succeeded.
abbrev scanned : (draw : ℕ → ℕ) → (actor : ℕ) → List QualityIssue → Db → Db
scanned draw actor issues db =
    told actor issues (record db { quality_issues = insert_all draw 0 issues db.quality_issues })

-- The part of a scan that follows the adding of issues, from how that ended.
after_adding :
    (actor : ℕ) (found issues : List QualityIssue) (r : Result (Unit {0})) (s : Session Db)
    → (continue r
        (λ _.
          modify (notify_admins found)
          >> (write_audit_log actor AuditActionType.dataset 0 >> (commit >> pure found)))
        s).0
      ≡ ok issues
    → (r ≡ ok tt)
      × (found ≡ issues)
      × ((continue r
            (λ _.
              modify (notify_admins found)
              >> (write_audit_log actor AuditActionType.dataset 0 >> (commit >> pure found)))
            s).1.committed
          ≡ told actor found s.working)
after_adding actor found issues (ok a) s h = (refl, cc, refl)
after_adding actor found issues (err e) s h = cc

run_qc_scan-scanned :
    (st : Statistics) (draw : ℕ → ℕ) (actor : ℕ) (db : Db) (issues : List QualityIssue)
    → reply (run_qc_scan st draw actor) db ≡ ok issues
    → (issues ≡ new_issues st db)
      × (exec (run_qc_scan st draw actor) db ≡ scanned draw actor issues db)
unfolding run_qc_scan
run_qc_scan-scanned st draw actor db issues h =
    let start : Session Db = record { committed = db; working = db } in
    let found = new_issues st db in
    let (done, same, kept) =
      after_adding actor found issues (add_issues draw 0 found start).0
        (add_issues draw 0 found start).1 h in
    (sym same, kept ∙ rw (add_issues-insert_all draw 0 found start done, same) refl)

missing_values-scanned :
    (st : Statistics) (draw : ℕ → ℕ) (actor : ℕ) (issues : List QualityIssue) (db : Db)
    (ds : Table Dataset)
    → missing_values st (scanned draw actor issues db) ds ≡ missing_values st db ds
unfolding missing_values actual_count parquet_files
missing_values-scanned st draw actor issues db [] = refl
missing_values-scanned st draw actor issues db ((id, d) ∷ ds) =
    rw (missing_values-scanned st draw actor issues db ds) refl

-- After a scan that succeeded, a scan of the same rows and files finds no new issue.
pub run_qc_scan-once :
    (st : Statistics) (draw : ℕ → ℕ) (actor : ℕ) (db : Db) (issues : List QualityIssue)
    → reply (run_qc_scan st draw actor) db ≡ ok issues
    → new_issues st (exec (run_qc_scan st draw actor) db) ≡ []
unfolding new_issues duplicates outliers parquet_files
run_qc_scan-once st draw actor db issues h =
    let (same, after) = run_qc_scan-scanned st draw actor db issues h in
    let open_after = covered_open draw issues db (scanned draw actor issues db) refl in
    let dup = issues_for db QualityIssueType.duplicate_records (uncounted (duplicates st db)) in
    let far = issues_for db QualityIssueType.outliers (outliers st db) in
    let gone =
      issues_for db QualityIssueType.missing_values
        (uncounted (missing_values st db db.datasets)) in
    rw
      (
        after,
        missing_values-scanned st draw actor issues db db.datasets,
        open_after QualityIssueType.duplicate_records _
            (λ i m. rw same (In-append_left dup (far ++ gone) m)),
        open_after QualityIssueType.outliers _
            (λ i m. rw same (In-append_right dup _ (In-append_left far gone m))),
        open_after QualityIssueType.missing_values _
            (λ i m. rw same (In-append_right dup _ (In-append_right far gone m))),
      )
      refl
