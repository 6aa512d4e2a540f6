-- ===== src/Workflow/Change.antt =====
-- The abstract transitions. Each says what it needs of the database and what it writes; whatever
-- it does not name stays as it is.
use bodp_app.Prelude.{ℕ, ◌≡◌, ◌<◌, true, sym, ap, subst, Option, none, some, String, ◌∷◌}
use bodp_app.Table.{find, insert, update}
use bodp_app.Session.{Txn, Error, ok, err, run, exec}
use bodp_app.Scope.{SearchCriteria, validate_scope_within_grant}
use bodp_app.Models.{
  Dataset, DatasetStatus, is_published, DatasetRequest, RequestStatus, AccessGrant, GrantStatus,
  SubsetExtraction, ExtractionStatus, DownloadLog, AuditLogEntry, AuditActionType,
}
use bodp_app.Database.{Db}
use bodp_app.Extractions.{Outcome, set_processing, set_outcome}
use bodp_app.Requests.{decided, new_note, granted_scope, grant_one_more, take_away}

-- The grant that an approval gives.
abbrev pub granted :
    (admin now request_id expires_at : ℕ) → Option SearchCriteria → DatasetRequest → AccessGrant
granted admin now request_id expires_at override q = record {
  user_id = q.user_id;
  dataset_id = q.dataset_id;
  request_id = some request_id;
  granted_by = some admin;
  granted_at = now;
  expires_at = expires_at;
  status = GrantStatus.active;
  scope = granted_scope override q;
}

-- What an approval writes: the grant, the decision and the requester's counter.
unfoldable pub approval :
    (admin now grant_id request_id expires_at : ℕ)
    → Option SearchCriteria
    → Option String
    → DatasetRequest
    → Db
    → Db
approval admin now grant_id request_id expires_at override note q db = record db {
  grants = insert grant_id (granted admin now request_id expires_at override q) db.grants;
  requests =
      update request_id
        (λ r. decided RequestStatus.approved admin now (new_note note r.admin_note) r) db.requests;
  users = update q.user_id grant_one_more db.users;
}

pub data Change (db : Db) : Db → Type 0 where
  submitted :
      (id : ℕ) (q : DatasetRequest) (d : Dataset)
      → find id db.requests ≡ none
      → find q.dataset_id db.datasets ≡ some d
      → is_published d.status ≡ true
      → q.status ≡ RequestStatus.pending
      → Change db (record db { requests = insert id q db.requests })
  approved :
      (admin now grant_id request_id expires_at : ℕ) (override : Option SearchCriteria)
      (note : Option String) (q : DatasetRequest)
      → find request_id db.requests ≡ some q
      → q.status ≡ RequestStatus.pending
      → find grant_id db.grants ≡ none
      → Change db (approval admin now grant_id request_id expires_at override note q db)
  rejected :
      (admin now request_id : ℕ) (note : Option String) (q : DatasetRequest)
      → find request_id db.requests ≡ some q
      → q.status ≡ RequestStatus.pending
      → Change db (record db {
        requests = update request_id (decided RequestStatus.rejected admin now note) db.requests;
      })
  extended :
      (id expires_at : ℕ) (g : AccessGrant)
      → find id db.grants ≡ some g
      → g.status ≡ GrantStatus.active
      → Change db
          (record db { grants = update id (λ x. record x { expires_at = expires_at }) db.grants })
  taken :
      (message : String) (id : ℕ) (g : AccessGrant)
      → find id db.grants ≡ some g
      → g.status ≡ GrantStatus.active
      → Change db (take_away message id g db)
  started :
      (now id : ℕ) (scope : SearchCriteria) (e : SubsetExtraction) (g : AccessGrant)
      → find id db.extractions ≡ none
      → find e.grant_id db.grants ≡ some g
      → g.status ≡ GrantStatus.active
      → now < g.expires_at
      → e.requested_scope ≡ some scope
      → validate_scope_within_grant scope g.scope ≡ ok tt
      → e.status ≡ ExtractionStatus.queued
      → Change db (record db { extractions = insert id e db.extractions })
  enqueued :
      (id : ℕ) (task : String)
      → Change db (record db {
        extractions = update id (λ e. record e { celery_task_id = some task }) db.extractions;
      })
  begun :
      (id : ℕ) (task : Option String)
      → Change db (record db { extractions = update id (set_processing task) db.extractions })
  ended :
      (now id : ℕ) (outcome : Outcome)
      → Change db (record db { extractions = update id (set_outcome now outcome) db.extractions })
  downloaded :
      (log : DownloadLog) (id : ℕ) (e : SubsetExtraction) (g : AccessGrant)
      → log.grant_id ≡ e.grant_id
      → find id db.extractions ≡ some e
      → e.status ≡ ExtractionStatus.complete
      → find e.grant_id db.grants ≡ some g
      → g.status ≡ GrantStatus.active
      → log.user_id ≡ g.user_id
      → Change db (record db { download_logs = log ∷ db.download_logs })
  catalogued :
      (id : ℕ) (status : DatasetStatus)
      → Change db
          (record db { datasets = update id (λ d. record d { status = status }) db.datasets })
  logged : (entry : AuditLogEntry) → Change db (record db { audit_log = entry ∷ db.audit_log })

-- Any number of transitions.
pub data Reach (db : Db) : Db → Type 0 where
  here : Reach db db
  next : {b c : Db} → Reach db b → Change b c → Reach db c

pub Reach-trans : {a b c : Db} → Reach a b → Reach b c → Reach a c
Reach-trans p here = p
Reach-trans p (next q s) = next (Reach-trans p q) s

-- The database with one more entry in its audit log.
abbrev pub audited : ℕ → AuditActionType → ℕ → Db → Db
audited actor kind target db = record db {
  audit_log = record { actor_id = actor; action_type = kind; target = target } ∷ db.audit_log;
}

-- A handler call raises and changes nothing, or it returns and ends in a database that is reached
-- by transitions.
pub data Refines {A : Type 0} (m : Txn Db A) (db : Db) : Type 0 where
  raised : (x : Error) → run m db ≡ (err x, db) → Refines m db
  returned : (a : A) (c : Db) → run m db ≡ (ok a, c) → Reach db c → Refines m db

pub Refines-Reach : {A : Type 0} (m : Txn Db A) (db : Db) → Refines m db → Reach db (exec m db)
Refines-Reach m db (raised x e) = subst (λ b. Reach db b) (sym (ap (λ t. t.1) e)) here
Refines-Reach m db (returned a c e r) = subst (λ b. Reach db b) (sym (ap (λ t. t.1) e)) r
