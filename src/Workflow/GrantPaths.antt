-- ===== src/Workflow/GrantPaths.antt =====
-- The handlers that take several grants away, and the publication state of a dataset.
use bodp_app.Prelude.{
  ℕ, ◌≡◌, sym, subst, ◌⊎◌, inl, inr, Bool, none, some, List, [], ◌∷◌, arith, Bool-cases,
  Option-cases, if◌then◌else◌,
}
use bodp_app.Table.{find, update, keys_where}
use bodp_app.Session.{
  Session, Txn, Result, Error, ok, err, http, exec, continue, ◌>>=◌, ◌>>◌, or_raise, gets, modify,
  commit,
}
use bodp_app.Models.{DatasetStatus, is_active, is_archived, AuditActionType}
use bodp_app.Database.{Db, write_audit_log}
use bodp_app.Requests.{
  revoke_grant, revoke_grants, archive_dataset, unarchive_dataset, set_publish_status, take_away,
  active_on,
}
use bodp_app.Workflow.Change.{Change, audited, Reach, Reach-trans, Refines}
use bodp_app.Workflow.ReviewPaths.{active_of_test}

-- From a session whose databases are both reached from `db`, the call ends in such a session.
abbrev pub Carries : {A : Type 0} → Db → Txn Db A → Session Db → Type 0
Carries db m s = Reach db (m s).1.committed × Reach db (m s).1.working

-- A call that raises leaves the session; one that returns commits what is a path away.
ends-Carries :
    {A : Type 0} (db : Db) (m : Txn Db A) (s : Session Db)
    → Reach db s.committed
    → Reach db s.working
    → ((x : Error) × (m s ≡ (err x, s)))
      ⊎ ((a : A) × (c : Db) × (m s ≡ (ok a, record { committed = c; working = c }))
          × Reach s.working c)
    → Carries db m s
ends-Carries db m s hc hw (inl (x, e)) =
    subst (λ t. Reach db t.1.committed × Reach db t.1.working) (sym e) (hc, hw)
ends-Carries db m s hc hw (inr (a, c, e, r)) =
    let there = Reach-trans hw r in
    subst (λ t. Reach db t.1.committed × Reach db t.1.working) (sym e) (there, there)

abbrev Ends : {B : Type 0} → Db → Result B × Session Db → Type 0
Ends db t = Reach db t.1.committed × Reach db t.1.working

continue-Ends :
    {A B : Type 0} (db : Db) (k : A → Txn Db B) (r : Result A) (s : Session Db)
    → Ends db (r, s)
    → ((a : A) (t : Session Db) → Reach db t.committed → Reach db t.working → Carries db (k a) t)
    → Ends db (continue r k s)
continue-Ends db k (ok a) s h f = f a s h.0 h.1
continue-Ends db k (err x) s h f = h

bind-Carries :
    {A B : Type 0} (db : Db) (m : Txn Db A) (k : A → Txn Db B) (s : Session Db)
    → Carries db m s
    → ((a : A) (t : Session Db) → Reach db t.committed → Reach db t.working → Carries db (k a) t)
    → Carries db (m >>= k) s
bind-Carries db m k s h f = continue-Ends db k (m s).0 (m s).1 h f

revoke_ends :
    (admin id : ℕ) (s : Session Db)
    → ((x : Error) × (revoke_grant admin id s ≡ (err x, s)))
      ⊎ ((a : Unit {0}) × (c : Db) × (revoke_grant admin id s
            ≡ (ok a, record { committed = c; working = c }))
          × Reach s.working c)
unfolding revoke_grant
revoke_ends admin id s = elim (Option-cases (find id s.working.grants)) [
  | inl e ↦ inl (http 404, ground arith)
  | inr (g, e) ↦ elim (Bool-cases (is_active g.status)) [
    | inr p ↦ inl (http 409, ground arith)
    | inl p ↦ inr (
      tt,
      audited admin AuditActionType.revoke id
          (take_away "Grant revoked before extraction completed." id g s.working),
      ground arith,
      Reach.next (Reach.next Reach.here (Change.taken _ id g e (active_of_test g.status p)))
          (Change.logged _),
    )
  ]
]

pub revoke_grants-Carries :
    (db : Db) (admin : ℕ) (ids : List ℕ) (s : Session Db)
    → Reach db s.committed
    → Reach db s.working
    → Carries db (revoke_grants admin ids) s
unfolding revoke_grants
revoke_grants-Carries db admin [] s hc hw = (hc, hw)
revoke_grants-Carries db admin (id ∷ ids) s hc hw =
    bind-Carries db (revoke_grant admin id) (λ _. revoke_grants admin ids) s
      (ends-Carries db (revoke_grant admin id) s hc hw (revoke_ends admin id s))
      (λ _ t. revoke_grants-Carries db admin ids t)

-- The end of `archive_dataset`, after the query for the active grants.
abbrev archive_tail : (admin dataset_id : ℕ) → List ℕ → Txn Db (Unit {0})
archive_tail admin dataset_id ids = do
  revoke_grants admin ids
  write_audit_log admin AuditActionType.dataset dataset_id
  commit

archive_tail-Carries :
    (db : Db) (admin dataset_id : ℕ) (ids : List ℕ) (s : Session Db)
    → Reach db s.committed
    → Reach db s.working
    → Carries db (archive_tail admin dataset_id ids) s
archive_tail-Carries db admin dataset_id ids s hc hw =
    bind-Carries db (revoke_grants admin ids)
      (λ _. write_audit_log admin AuditActionType.dataset dataset_id >> commit) s
      (revoke_grants-Carries db admin ids s hc hw)
      (λ _ t tc tw. let there = Reach.next tw (Change.logged _) in (there, there))

abbrev archived : ℕ → Db → Db
archived dataset_id db = record db {
  datasets = update dataset_id (λ d. record d { status = DatasetStatus.archived }) db.datasets;
}

-- Archiving a dataset reaches its end by transitions, wherever it stops.
pub archive-Reach :
    (admin dataset_id : ℕ) (db : Db) → Reach db (exec (archive_dataset admin dataset_id) db)
unfolding archive_dataset
archive-Reach admin dataset_id db =
    elim (find dataset_id db.datasets)
      as (λ o.
        Reach db
          ((or_raise o (http 404) >>= λ _.
              modify (archived dataset_id)
              >> (gets (λ b. keys_where (active_on dataset_id) b.grants)
                  >>= archive_tail admin dataset_id))
            (record { committed = db; working = db })).1.committed) [
              | none ↦ Reach.here
              | some d ↦
                  (archive_tail-Carries db admin dataset_id
                    (keys_where (active_on dataset_id) db.grants)
                    (record { committed = db; working = archived dataset_id db }) Reach.here
                    (Reach.next Reach.here (Change.catalogued dataset_id _))).0
            ]

module _ (admin dataset_id : ℕ) (db : Db) where
  pub unarchive-Refines : Refines (unarchive_dataset admin dataset_id) db
  unfolding unarchive_dataset
  unarchive-Refines = elim (Option-cases (find dataset_id db.datasets)) [
    | inl e ↦ Refines.raised (http 404) (ground arith)
    | inr (d, e) ↦ elim (Bool-cases (is_archived d.status)) [
      | inr p ↦ Refines.raised (http 409) (ground arith)
      | inl p ↦
          Refines.returned tt
            (audited admin AuditActionType.dataset dataset_id (record db {
              datasets =
                  update dataset_id (λ x. record x { status = DatasetStatus.draft }) db.datasets;
            }))
            (ground arith)
            (Reach.next (Reach.next Reach.here (Change.catalogued dataset_id _)) (Change.logged _))
    ]
  ]

  pub publish-Refines :
      (published : Bool) → Refines (set_publish_status admin dataset_id published) db
  unfolding set_publish_status
  publish-Refines published = elim (Option-cases (find dataset_id db.datasets)) [
    | inl e ↦ Refines.raised (http 404) (ground arith)
    | inr (d, e) ↦ elim (Bool-cases (is_archived d.status)) [
      | inl p ↦ Refines.raised (http 409) (ground arith)
      | inr p ↦
          Refines.returned tt
            (audited admin AuditActionType.dataset dataset_id (record db {
              datasets =
                  update dataset_id
                    (λ x. record x {
                      status = if published then DatasetStatus.published else DatasetStatus.draft;
                    })
                    db.datasets;
            }))
            (ground arith)
            (Reach.next (Reach.next Reach.here (Change.catalogued dataset_id _)) (Change.logged _))
    ]
  ]
