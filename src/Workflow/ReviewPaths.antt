-- ===== src/Workflow/ReviewPaths.antt =====
-- Creating and deciding a request, and changing a grant, as transitions.
use bodp_app.Prelude.{
  ℕ, ◌≡◌, refl, sym, ap, ◌∙◌, inl, inr, true, Option, none, some, String, arith, Bool-cases,
  Option-cases,
}
use bodp_app.Table.{find, insert, update}
use bodp_app.Session.{http, crash, Result-cases}
use bodp_app.Scope.{SearchCriteria}
use bodp_app.Models.{
  Dataset, is_published, DatasetRequest, RequestStatus, GrantStatus, GrantDuration, is_pending,
  is_active, AuditActionType,
}
use bodp_app.Database.{Db}
use bodp_app.Requests.{
  Calendar, compute_expiry, decided, published_dataset, approve_request, reject_request,
  create_request, extend_grant, revoke_grant, take_away,
}
use bodp_app.Workflow.Change.{Change, approval, audited, Reach, Refines}

pending_of : (s : RequestStatus) → is_pending s ≡ true → s ≡ RequestStatus.pending
pending_of s h = ground arith

pub active_of_test : (s : GrantStatus) → is_active s ≡ true → s ≡ GrantStatus.active
active_of_test s h = ground arith

published_found :
    (id : ℕ) (db : Db) (d : Dataset)
    → published_dataset id db ≡ some d
    → (find id db.datasets ≡ some d) × (is_published d.status ≡ true)
published_found id db d h = elim (Option-cases (find id db.datasets)) [
  | inl e ↦ absurd (ground arith)
  | inr (x, e) ↦ elim (Bool-cases (is_published x.status)) [
    | inl p ↦
        let same : x ≡ d = ground arith in
        (e ∙ ap some same, sym (ap (λ y. is_published y.status) same) ∙ p)
    | inr p ↦ absurd (ground arith)
  ]
]

module _ (cal : Calendar) (admin now new_id request_id : ℕ) (override : Option SearchCriteria)
    (note : Option String) (duration : GrantDuration) (custom : Option ℕ) (db : Db) where
  pub approve-Refines :
      Refines (approve_request cal admin now new_id request_id override note duration custom) db
  unfolding approve_request approval
  approve-Refines = elim (Option-cases (find request_id db.requests)) [
    | inl e ↦ Refines.raised (http 404) (ground arith)
    | inr (q, e) ↦ elim (Bool-cases (is_pending q.status)) [
      | inr p ↦ Refines.raised (http 409) (ground arith)
      | inl p ↦ elim (Result-cases (compute_expiry cal now duration custom)) [
        | inr (x, f) ↦ Refines.raised x (ground arith)
        | inl (t, f) ↦ elim (Option-cases (find new_id db.grants)) [
          | inr (g, k) ↦ Refines.raised crash (ground arith)
          | inl k ↦
              Refines.returned new_id
                (audited admin AuditActionType.approve request_id
                  (approval admin now new_id request_id t override note q db))
                (ground arith)
                (Reach.next
                  (Reach.next Reach.here (
                    Change.approved admin now new_id request_id t override note q e
                      (pending_of q.status p) k))
                  (Change.logged _))
        ]
      ]
    ]
  ]

module _ (admin now request_id : ℕ) (reason : String) (db : Db) where
  pub reject-Refines : Refines (reject_request admin now request_id reason) db
  unfolding reject_request
  reject-Refines = elim (Option-cases (find request_id db.requests)) [
    | inl e ↦ Refines.raised (http 404) (ground arith)
    | inr (q, e) ↦ elim (Bool-cases (is_pending q.status)) [
      | inr p ↦ Refines.raised (http 409) (ground arith)
      | inl p ↦
          Refines.returned tt
            (audited admin AuditActionType.reject request_id (record db {
              requests =
                  update request_id (decided RequestStatus.rejected admin now (some reason))
                    db.requests;
            }))
            (ground arith)
            (Reach.next
              (Reach.next Reach.here
                (Change.rejected admin now request_id (some reason) q e (pending_of q.status p)))
              (Change.logged _))
    ]
  ]

module _ (user dataset_id new_id : ℕ) (justification : String) (criteria : Option SearchCriteria)
    (matching total : ℕ) (db : Db) where
  abbrev new_request : Dataset → DatasetRequest
  new_request d = record {
    user_id = user;
    dataset_id = dataset_id;
    justification = justification;
    search_criteria = criteria;
    matching_record_count = some matching;
    dataset_total_record_count = some total;
    dataset_version = some d.version;
    status = RequestStatus.pending;
    reviewed_by = none;
    reviewed_at = none;
    updated_at = none;
    admin_note = none;
  }

  pub create-Refines :
      Refines (create_request user dataset_id new_id justification criteria matching total) db
  unfolding create_request
  create-Refines = elim (Option-cases (published_dataset dataset_id db)) [
    | inl e ↦ Refines.raised (http 404) (ground arith)
    | inr (d, e) ↦ elim (Option-cases (find new_id db.requests)) [
      | inr (q, k) ↦ Refines.raised crash (ground arith)
      | inl k ↦
          Refines.returned new_id
            (record db { requests = insert new_id (new_request d) db.requests }) (ground arith)
            (Reach.next Reach.here (
              let (found, published) = published_found dataset_id db d e in
              Change.submitted new_id (new_request d) d k found published refl))
    ]
  ]

module _ (cal : Calendar) (admin grant_id : ℕ) (duration : GrantDuration) (custom : Option ℕ)
    (db : Db) where
  pub extend-Refines : Refines (extend_grant cal admin grant_id duration custom) db
  unfolding extend_grant
  extend-Refines = elim (Option-cases (find grant_id db.grants)) [
    | inl e ↦ Refines.raised (http 404) (ground arith)
    | inr (g, e) ↦ elim (Bool-cases (is_active g.status)) [
      | inr p ↦ Refines.raised (http 409) (ground arith)
      | inl p ↦ elim (Result-cases (compute_expiry cal g.expires_at duration custom)) [
        | inr (x, f) ↦ Refines.raised x (ground arith)
        | inl (t, f) ↦
            Refines.returned tt
              (audited admin AuditActionType.dataset grant_id (record db {
                grants = update grant_id (λ x. record x { expires_at = t }) db.grants;
              }))
              (ground arith)
              (Reach.next
                (Reach.next Reach.here (Change.extended grant_id t g e (active_of_test g.status p)))
                (Change.logged _))
      ]
    ]
  ]

module _ (admin grant_id : ℕ) (db : Db) where
  pub revoke-Refines : Refines (revoke_grant admin grant_id) db
  unfolding revoke_grant
  revoke-Refines = elim (Option-cases (find grant_id db.grants)) [
    | inl e ↦ Refines.raised (http 404) (ground arith)
    | inr (g, e) ↦ elim (Bool-cases (is_active g.status)) [
      | inr p ↦ Refines.raised (http 409) (ground arith)
      | inl p ↦
          Refines.returned tt
            (audited admin AuditActionType.revoke grant_id
              (take_away "Grant revoked before extraction completed." grant_id g db))
            (ground arith)
            (Reach.next
              (Reach.next Reach.here (Change.taken _ grant_id g e (active_of_test g.status p)))
              (Change.logged _))
    ]
  ]
