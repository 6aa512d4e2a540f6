-- ===== src/Workflow/ExtractionPaths.antt =====
-- Extractions as transitions.
use bodp_app.Prelude.{
  ℕ, ◌≡◌, refl, ◌⊎◌, inl, inr, true, false, Option, none, some, String, arith, Bool-cases,
  Option-cases, ◌<◌, sym, ap, subst, ◌∷◌, leb, if◌then◌else◌,
}
use bodp_app.Table.{find, insert, update}
use bodp_app.Session.{ok, err, http, crash, run, exec, Result-cases, Result, Error, Txn, pure, ◌>>◌}
use bodp_app.Scope.{SearchCriteria, validate_scope_within_grant}
use bodp_app.Models.{
  AccessGrant, GrantStatus, SubsetExtraction, ExtractionStatus, DownloadLog, is_active, is_complete,
}
use bodp_app.Database.{Db}
use bodp_app.Extractions.{
  Outcome, stored, failure, Work, set_processing, set_outcome, begin_extraction, finish_extraction,
  process_extraction, create_extraction, download_extraction, extraction_for_user, owned_grant,
  is_small, enqueue, finish_with, outcome_at, total_size,
}
use bodp_app.Workflow.Change.{Change, Reach, Reach-trans, Refines}
use bodp_app.Workflow.ReviewPaths.{active_of_test}

module _ (id : ℕ) (db : Db) where
  pub begin-Reach : (task : Option String) → Reach db (exec (begin_extraction id task) db)
  unfolding begin_extraction
  begin-Reach task = Reach.next Reach.here (Change.begun id task)

  pub grant_id-set_outcome :
      (now : ℕ) (o : Outcome) (e : SubsetExtraction) → (set_outcome now o e).grant_id ≡ e.grant_id
  grant_id-set_outcome now (stored out) e = refl
  grant_id-set_outcome now (failure m) e = refl

  pub finish-Reach :
      (now : ℕ) (outcome : Outcome) → Reach db (exec (finish_extraction now id outcome) db)
  unfolding finish_extraction
  finish-Reach now outcome = Reach.next Reach.here (Change.ended now id outcome)

complete_of_test : (s : ExtractionStatus) → is_complete s ≡ true → s ≡ ExtractionStatus.complete
complete_of_test s h = ground arith

-- An extraction that a user sees belongs to a grant of that user.
pub extraction_for_user_grant :
    (user id : ℕ) (db : Db) (e : SubsetExtraction)
    → extraction_for_user user id db ≡ some e
    → (find id db.extractions ≡ some e)
      × ((g : AccessGrant) × (find e.grant_id db.grants ≡ some g) × (user ≡ g.user_id))
extraction_for_user_grant user id db e h = elim (Option-cases (find id db.extractions)) [
  | inl k ↦ absurd (ground arith)
  | inr (x, k) ↦ elim (Option-cases (find x.grant_id db.grants)) [
    | inl l ↦ absurd (ground arith)
    | inr (g, l) ↦ (ground arith, (g, ground arith, ground arith))
  ]
]

pub download-Refines : (user id : ℕ) (db : Db) → Refines (download_extraction user id) db
unfolding download_extraction
download-Refines user id db = elim (Option-cases (extraction_for_user user id db)) [
  | inl h ↦ Refines.raised (http 404) (ground arith)
  | inr (e, h) ↦ elim (Bool-cases (is_complete e.status)) [
    | inr p ↦ Refines.raised (http 409) (ground arith)
    | inl p ↦
        let (found, (g, k, owner)) = extraction_for_user_grant user id db e h in
        elim (Bool-cases (is_active g.status)) [
          | inr q ↦ Refines.raised (http 409) (ground arith)
          | inl q ↦
              let log : DownloadLog = record {
                grant_id = e.grant_id;
                user_id = user;
                subset_extraction_id = some id;
              } in
              Refines.returned e.output (record db { download_logs = log ∷ db.download_logs })
                (ground arith)
                (Reach.next Reach.here (
                  Change.downloaded log id e g refl found (complete_of_test e.status p) k
                    (active_of_test g.status q) owner))
        ]
  ]
]

-- The row of a new extraction.
abbrev new_extraction : ℕ → SearchCriteria → String → SubsetExtraction
new_extraction grant_id scope format = record {
  grant_id = grant_id;
  requested_scope = some scope;
  format = some format;
  status = ExtractionStatus.queued;
  output = none;
  celery_task_id = none;
  error_message = none;
  completed_at = none;
}

owned_grant_found :
    (user grant_id : ℕ) (db : Db) (g : AccessGrant)
    → owned_grant user grant_id db ≡ some g
    → (find grant_id db.grants ≡ some g) × (g.user_id ≡ user)
owned_grant_found user grant_id db g h = elim (Option-cases (find grant_id db.grants)) [
  | inl k ↦ absurd (ground arith)
  | inr (x, k) ↦ (ground arith, ground arith)
]

abbrev moved : ℕ → (SubsetExtraction → SubsetExtraction) → Db → Db
moved id f db = record db { extractions = update id f db.extractions }

-- What follows the creation of an extraction.
abbrev follow_up : Work → (threshold now id : ℕ) → String → ℕ → Txn Db ℕ
follow_up work threshold now id task size = do
  if is_small threshold size then process_extraction work now id none else enqueue id task
  pure id

follow_up-Reach :
    (work : Work) (threshold now id : ℕ) (task : String) (size : ℕ) (db : Db)
    → Reach db
        (follow_up work threshold now id task size
          (record { committed = db; working = db })).1.committed
unfolding process_extraction begin_extraction finish_extraction
follow_up-Reach work threshold now id task size db =
    elim (is_small threshold size)
      as (λ b.
        Reach db
          (((if b then process_extraction work now id none else enqueue id task) >> pure id)
            (record { committed = db; working = db })).1.committed) [
              | false ↦ Reach.next Reach.here (Change.enqueued id task)
              | true ↦
                  let begun = moved id (set_processing none) db in
                  let first : Reach db begun = Reach.next Reach.here (Change.begun id none) in
                  elim (outcome_at work id begun)
                    as (λ o.
                      Reach db
                        ((finish_with now id o >> pure id)
                          (record { committed = begun; working = begun })).1.committed) [
                            | none ↦ first
                            | some o ↦ Reach.next first (Change.ended now id o)
                          ]
            ]

module _ (work : Work) (threshold user now new_id grant_id : ℕ) (scope : SearchCriteria)
    (format task : String) (db : Db) where
  abbrev call : Txn Db ℕ
  call = create_extraction work threshold user now new_id grant_id scope format task

  abbrev created : Db
  created = record db {
    extractions = insert new_id (new_extraction grant_id scope format) db.extractions;
  }

  abbrev followed : AccessGrant → Result ℕ × Db
  followed g =
      run (follow_up work threshold now new_id task (total_size g.dataset_id db.dataset_files))
        created

  -- How the call ends: it raises and changes nothing, or every check passed, and the call goes on
  -- from the database with the new extraction.
  pub create_extraction_cases :
      ((x : Error) × (run call db ≡ (err x, db)))
      ⊎ ((g : AccessGrant) × (find grant_id db.grants ≡ some g)
          × (g.user_id ≡ user)
          × (g.status ≡ GrantStatus.active)
          × (now < g.expires_at)
          × (validate_scope_within_grant scope g.scope ≡ ok tt)
          × (find new_id db.extractions ≡ none)
          × (run call db ≡ followed g))
  unfolding create_extraction
  create_extraction_cases = elim (Option-cases (owned_grant user grant_id db)) [
    | inl h ↦ inl (http 404, ground arith)
    | inr (g, h) ↦ elim (Bool-cases (is_active g.status)) [
      | inr p ↦ inl (http 409, ground arith)
      | inl p ↦ elim (Bool-cases (leb g.expires_at now)) [
        | inl t ↦ inl (http 409, ground arith)
        | inr t ↦ elim (Result-cases (validate_scope_within_grant scope g.scope)) [
          | inr (x, v) ↦ inl (x, ground arith)
          | inl (u, v) ↦ elim (Option-cases (find new_id db.extractions)) [
            | inr (e, k) ↦ inl (crash, ground arith)
            | inl k ↦
                let (found, owner) = owned_grant_found user grant_id db g h in
                inr (g, found, owner, active_of_test g.status p, ground arith, v, k, ground arith)
          ]
        ]
      ]
    ]
  ]

  pub create_extraction-Reach : Reach db (exec call db)
  create_extraction-Reach = elim create_extraction_cases [
    | inl (x, e) ↦ subst (λ c. Reach db c) (sym (ap (λ t. t.1) e)) Reach.here
    | inr (g, found, owner, active, early, valid, fresh, e) ↦
        subst (λ c. Reach db c) (sym (ap (λ t. t.1) e))
          (Reach-trans
            (Reach.next Reach.here (
              Change.started now new_id scope (new_extraction grant_id scope format) g fresh found
                active early refl valid refl))
            (follow_up-Reach work threshold now new_id task
              (total_size g.dataset_id db.dataset_files) created))
  ]
