-- ===== src/Workflow/Erasure.antt =====
-- The calls of the running system together with the permanent deletion of datasets
-- (backend/app/services/admin_datasets_service.py), and the transitions that they come to.
use bodp_app.Prelude.{
  ℕ, ◌≡◌, Bool, true, any, Option, none, some, List, [], ◌∷◌, ◌==◌, Bool-cases, inl, inr, All,
}
use bodp_app.Table.{
  find, keys_where, delete_where, rows_of, IsKeyed, IsKeyed-delete_where, IsKeyed-update_where,
}
use bodp_app.Session.{
  Session, Txn, Result, ok, err, http, crash, exec, continue, ◌>>=◌, ◌>>◌, or_raise, gets, modify,
  commit, raise_if,
}
use bodp_app.Models.{Dataset, DatasetRecord, AuditActionType}
use bodp_app.Database.{Db, write_audit_log}
use bodp_app.Requests.{Calendar, active_on, revoke_grants}
use bodp_app.Extractions.{Work}
use bodp_app.Datasets.{permanently_delete_dataset, cascade, is_some_of, files_of}
use bodp_app.Workflow.Change.{Change, Reach}
use bodp_app.Workflow.System.{Op, step}
use bodp_app.Workflow.GrantPaths.{revoke_grants-Carries}
use bodp_app.Workflow.Refinement.{Change-IsKeyed, step-Reach}

pub data Call : Type 0 where
  ordinary : Op → Call
  delete_dataset : (admin dataset : ℕ) → Call

module _ (cal : Calendar) (work : Work) (threshold : ℕ) where
  unfoldable pub call : Call → Db → Db
  call (Call.ordinary op) db = step cal work threshold op db
  call (Call.delete_dataset admin dataset) db = exec (permanently_delete_dataset admin dataset) db

  unfoldable pub calls : List Call → Db → Db
  calls [] db = db
  calls (c ∷ cs) db = calls cs (call c db)

-- The database without the records of a dataset.
abbrev pub without_records : (id : ℕ) → Db → Db
without_records id db = record db {
  dataset_records = delete_where (λ (r : DatasetRecord). r.dataset_id == id) db.dataset_records;
}

-- A transition of the calls, or a part of a permanent deletion, of a dataset that may be deleted.
pub data Transition (may : ℕ → Bool) (db : Db) : Db → Type 0 where
  changed : {c : Db} → Change db c → Transition may db c
  unrecorded : (id : ℕ) → Transition may db (without_records id db)
  erased : (id : ℕ) → may id ≡ true → Transition may db (cascade id db)

pub data Route (may : ℕ → Bool) (db : Db) : Db → Type 0 where
  start : Route may db db
  onward : {b c : Db} → Route may db b → Transition may b c → Route may db c

Route-trans : {may : ℕ → Bool} {a b c : Db} → Route may a b → Route may b c → Route may a c
Route-trans p Route.start = p
Route-trans p (Route.onward q t) = Route.onward (Route-trans p q) t

Reach-Route : {may : ℕ → Bool} {a b : Db} → Reach a b → Route may a b
Reach-Route Reach.here = Route.start
Reach-Route (Reach.next r c) = Route.onward (Reach-Route r) (Transition.changed c)

abbrev names_file : (id : ℕ) → Db → Bool
names_file id db =
    any (λ (r : DatasetRecord). is_some_of (files_of id db) r.dataset_file_id)
      (rows_of db.dataset_records)

-- The part of a deletion that follows the revocations.
abbrev rest_of_deletion : (admin id : ℕ) → Txn Db (Unit {0})
rest_of_deletion admin id =
    modify (without_records id)
    >> (write_audit_log admin AuditActionType.dataset id
        >> (gets (names_file id)
            >>= (λ left. raise_if left crash >> (modify (cascade id) >> commit))))

module _ (may : ℕ → Bool) (admin id : ℕ) (allowed : may id ≡ true) where
  rest-Route :
      (db : Db) (r : Result (Unit {0})) (s : Session Db)
      → Reach db s.committed
      → Reach db s.working
      → Route may db (continue r (λ _. rest_of_deletion admin id) s).1.committed
  rest-Route db (err e) s hc hw = Reach-Route hc
  rest-Route db (ok a) s hc hw = elim (Bool-cases (names_file id (without_records id s.working))) [
    | inl e ↦ rw e (Reach-Route hc)
    | inr e ↦ rw e (
        Route.onward
          (Route.onward (Route.onward (Reach-Route hw) (Transition.unrecorded id))
            (Transition.changed (Change.logged _)))
          (Transition.erased id allowed))
  ]

  deletion-Route :
      (db : Db) (o : Option Dataset)
      → Route may db
          ((or_raise o (http 404) >>= (λ _.
              gets (λ b. keys_where (active_on id) b.grants)
              >>= (λ ids. revoke_grants admin ids >> rest_of_deletion admin id)))
            (record { committed = db; working = db })).1.committed
  deletion-Route db none = Route.start
  deletion-Route db (some d) =
      let here : Session Db = record { committed = db; working = db } in
      let ids = keys_where (active_on id) db.grants in
      let (hc, hw) = revoke_grants-Carries db admin ids here Reach.here Reach.here in
      rest-Route db (revoke_grants admin ids here).0 (revoke_grants admin ids here).1 hc hw

  delete_dataset-Route : (db : Db) → Route may db (exec (permanently_delete_dataset admin id) db)
  unfolding permanently_delete_dataset
  delete_dataset-Route db = deletion-Route db (find id db.datasets)

Transition-IsKeyed :
    {may : ℕ → Bool} {a b : Db} → Transition may a b → IsKeyed a.grants → IsKeyed b.grants
unfolding cascade
Transition-IsKeyed (Transition.changed c) h = Change-IsKeyed c h
Transition-IsKeyed (Transition.unrecorded id) h = h
Transition-IsKeyed {may} {a} (Transition.erased id e) h =
    IsKeyed-update_where _ _ _ (IsKeyed-delete_where _ a.grants h)

pub Route-IsKeyed :
    {may : ℕ → Bool} {a b : Db} → Route may a b → IsKeyed a.grants → IsKeyed b.grants
Route-IsKeyed Route.start h = h
Route-IsKeyed (Route.onward p t) h = Transition-IsKeyed t (Route-IsKeyed p h)

-- No call deletes a dataset that is to stay.
abbrev pub Respects : (may : ℕ → Bool) → Call → Type 0
Respects may (Call.ordinary op) = Unit
Respects may (Call.delete_dataset admin dataset) = may dataset ≡ true

module _ (cal : Calendar) (work : Work) (threshold : ℕ) (may : ℕ → Bool) where
  call-Route :
      (c : Call) (db : Db)
      → Respects may c
      → IsKeyed db.grants
      → Route may db (call cal work threshold c db)
  unfolding call
  call-Route (Call.ordinary op) db allowed k = Reach-Route (step-Reach cal work threshold op db k)
  call-Route (Call.delete_dataset admin dataset) db allowed k =
      delete_dataset-Route may admin dataset allowed db

  -- From a database whose grants have unique keys, whatever calls are made in whatever order,
  -- permanent deletions of datasets that may be deleted included, the database is reached by the
  -- transitions.
  pub calls-Route :
      (cs : List Call) (db : Db)
      → All (Respects may) cs
      → IsKeyed db.grants
      → Route may db (calls cal work threshold cs db)
  unfolding calls All
  calls-Route [] db allowed k = Route.start
  calls-Route (c ∷ cs) db (first, rest) k =
      let path = call-Route c db first k in
      Route-trans path (calls-Route cs (call cal work threshold c db) rest (Route-IsKeyed path k))
