-- ===== src/Datasets/Deletion.antt =====
-- A dataset that is deleted for good leaves no row behind.
use bodp_app.Prelude.{
  ℕ, ◌≡◌, refl, ◌∙◌, sym, subst, Bool, Option, none, some, List, [], ◌∷◌, ◌==◌, any, arith,
  Bool-cases, Option-cases, inl, inr,
}
use bodp_app.Table.{
  find-delete_self, Table, find, keys_where, delete_where, update_where, count_where, rows_of,
  IsKeyed, count_where-delete_where_all,
}
use bodp_app.Session.{
  or_raise, Session, Result, ok, err, http, crash, continue, raise_if, modify, commit, gets, ◌>>=◌,
  ◌>>◌, exec, reply,
}
use bodp_app.Models.{
  Dataset, DatasetFile, DatasetRecord, DatasetRequest, AccessGrant, Upload, QualityIssue, is_active,
  AuditActionType,
}
use bodp_app.Database.{Db, write_audit_log}
use bodp_app.Requests.{revoke_grant, revoke_grants, take_away, active_on}
use bodp_app.Datasets.Handlers.{is_of, is_some_of, files_of, cascade, permanently_delete_dataset}

-- Nothing of the dataset is left.
pub record IsGone (id : ℕ) (db : Db) : Type 0 where
  pub dataset : find id db.datasets ≡ none
  pub files : count_where (λ (f : DatasetFile). f.dataset_id == id) db.dataset_files ≡ 0
  pub records : count_where (λ (r : DatasetRecord). r.dataset_id == id) db.dataset_records ≡ 0
  pub issues : count_where (λ (i : QualityIssue). i.dataset_id == id) db.quality_issues ≡ 0
  pub requests : count_where (λ (q : DatasetRequest). q.dataset_id == id) db.requests ≡ 0
  pub grants : count_where (λ (g : AccessGrant). g.dataset_id == id) db.grants ≡ 0
  pub uploads : count_where (λ (u : Upload). is_of id u.dataset_id) db.uploads ≡ 0

count_where-update_where {ℓ} :
    {R : Type ℓ} (p q : R → Bool) (f : R → R) (t : Table R)
    → ((r : R) → p (f r) ≡ p r)
    → count_where p (update_where q f t) ≡ count_where p t
unfolding count_where update_where
count_where-update_where p q f [] h = refl
count_where-update_where p q f ((j, r) ∷ t) h =
    ground (arith, h r, count_where-update_where p q f t h)

cascade-IsGone : (id : ℕ) (db : Db) → IsKeyed db.datasets → IsGone id (cascade id db)
unfolding cascade
cascade-IsGone id db keyed = record {
  dataset = find-delete_self id db.datasets keyed;
  files = count_where-delete_where_all _ _ db.dataset_files (λ r h. h);
  records = count_where-delete_where_all _ _ db.dataset_records (λ r h. h);
  issues = count_where-delete_where_all _ _ db.quality_issues (λ r h. h);
  requests = count_where-delete_where_all _ _ db.requests (λ r h. h);
  grants =
      count_where-update_where _ _ _ _ (λ r. refl)
      ∙ count_where-delete_where_all _ _ db.grants (λ r h. h);
  uploads =
      count_where-update_where _ _ _ _ (λ r. refl)
      ∙ count_where-delete_where_all _ _ db.uploads (λ r h. h);
}

datasets-revoke_grant :
    (admin id : ℕ) (s : Session Db)
    → (revoke_grant admin id s).1.working.datasets ≡ s.working.datasets
unfolding revoke_grant take_away
datasets-revoke_grant admin id s = elim (Option-cases (find id s.working.grants)) [
  | inl e ↦ rw e refl
  | inr (g, e) ↦ elim (Bool-cases (is_active g.status)) [
    | inl b ↦ rw (e, b) refl
    | inr b ↦ rw (e, b) refl
  ]
]

datasets-continue :
    {A : Type 0} (r : Result A) (f : Session Db → Result A × Session Db) (s : Session Db)
    → ((t : Session Db) → (f t).1.working.datasets ≡ t.working.datasets)
    → (continue r (λ _. f) s).1.working.datasets ≡ s.working.datasets
datasets-continue (ok a) f s h = h s
datasets-continue (err e) f s h = refl

datasets-revoke_grants :
    (admin : ℕ) (ids : List ℕ) (s : Session Db)
    → (revoke_grants admin ids s).1.working.datasets ≡ s.working.datasets
unfolding revoke_grants
datasets-revoke_grants admin [] s = refl
datasets-revoke_grants admin (id ∷ ids) s =
    datasets-continue (revoke_grant admin id s).0 (revoke_grants admin ids)
      (revoke_grant admin id s).1 (datasets-revoke_grants admin ids)
    ∙ datasets-revoke_grant admin id s

abbrev without_records : (id : ℕ) → Db → Db
without_records id db = record db {
  dataset_records = delete_where (λ (r : DatasetRecord). r.dataset_id == id) db.dataset_records;
}

abbrev names_file : (id : ℕ) → Db → Bool
names_file id db =
    any (λ (r : DatasetRecord). is_some_of (files_of id db) r.dataset_file_id)
      (rows_of db.dataset_records)

-- The part of a deletion that follows the revocations, from how they ended.
abbrev rest_of_deletion : (admin id : ℕ) → Session Db → Result (Unit {0}) × Session Db
rest_of_deletion admin id =
    modify (without_records id)
    >> (write_audit_log admin AuditActionType.dataset id
        >> (gets (names_file id)
            >>= (λ left. raise_if left crash >> (modify (cascade id) >> commit))))

rest-IsGone :
    (admin id : ℕ) (r : Result (Unit {0})) (s : Session Db)
    → IsKeyed s.working.datasets
    → (continue r (λ _. rest_of_deletion admin id) s).0 ≡ ok tt
    → IsGone id (continue r (λ _. rest_of_deletion admin id) s).1.committed
rest-IsGone admin id (ok a) s keyed h =
    elim (Bool-cases (names_file id (without_records id s.working))) [
      | inl e ↦ absurd (ground arith)
      | inr e ↦ rw e (cascade-IsGone id _ keyed)
    ]
rest-IsGone admin id (err e) s keyed h = absurd (ground arith)

-- The whole deletion, from the dataset that was found.
abbrev deletion : (admin id : ℕ) → Option Dataset → Session Db → Result (Unit {0}) × Session Db
deletion admin id o = or_raise o (http 404) >>= (λ _.
    gets (λ db. keys_where (active_on id) db.grants)
    >>= (λ active_grants. revoke_grants admin active_grants >> rest_of_deletion admin id))

deletion-IsGone :
    (admin id : ℕ) (o : Option Dataset) (db : Db)
    → IsKeyed db.datasets
    → (deletion admin id o (record { committed = db; working = db })).0 ≡ ok tt
    → IsGone id (deletion admin id o (record { committed = db; working = db })).1.committed
deletion-IsGone admin id none db keyed h = absurd (ground arith)
deletion-IsGone admin id (some d) db keyed h =
    let start : Session Db = record { committed = db; working = db } in
    let ids = keys_where (active_on id) db.grants in
    rest-IsGone admin id (revoke_grants admin ids start).0 (revoke_grants admin ids start).1
      (subst IsKeyed (sym (datasets-revoke_grants admin ids start)) keyed) h

-- Once the permanent deletion of a dataset succeeded, no dataset has its key, and no file, record,
-- quality issue, request, grant or upload of it is left.
pub permanently_delete_dataset-IsGone :
    (admin id : ℕ) (db : Db)
    → IsKeyed db.datasets
    → reply (permanently_delete_dataset admin id) db ≡ ok tt
    → IsGone id (exec (permanently_delete_dataset admin id) db)
unfolding permanently_delete_dataset
permanently_delete_dataset-IsGone admin id db keyed h =
    deletion-IsGone admin id (find id db.datasets) db keyed h
