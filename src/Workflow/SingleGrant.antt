-- ===== src/Workflow/SingleGrant.antt =====
-- A request leads to one grant if it is approved, and to none otherwise.
use bodp_app.Prelude.{ℕ, ◌≡◌, Bool, false, Option, some, none, arith, ◌==◌, ==_iff, List}
use bodp_app.Table.{
  find, count_where, find-insert, find-update, count_where-insert, count_where-update, IsKeyed,
}
use bodp_app.Models.{DatasetRequest, RequestStatus, AccessGrant}
use bodp_app.Database.{Db}
use bodp_app.Requests.{Calendar, take_away, decided, new_note, set_revoked}
use bodp_app.Extractions.{Work}
use bodp_app.Workflow.Change.{Change, Reach, approval, granted}
use bodp_app.Workflow.System.{Op, steps}
use bodp_app.Workflow.Refinement.{steps-Reach}

abbrev pub of_request : ℕ → AccessGrant → Bool
of_request id g = elim g.request_id [ none ↦ false | some r ↦ r == id ]

-- One for an approved request, none for any other and for one that is not there.
abbrev pub grants_due : Option DatasetRequest → ℕ
grants_due none = 0
grants_due (some q) = elim q.status [
  | RequestStatus.pending ↦ 0
  | RequestStatus.approved ↦ 1
  | RequestStatus.rejected ↦ 0
]

-- The number of grants of each request is the number that is due.
pub record IsGrantedOnce (db : Db) : Type 0 where
  pub at : (id : ℕ) → count_where (of_request id) db.grants ≡ grants_due (find id db.requests)

Change-IsGrantedOnce : {a b : Db} → Change a b → IsGrantedOnce a → IsGrantedOnce b
unfolding approval take_away
Change-IsGrantedOnce {a} (Change.submitted k p d fresh found published new) h = record {
  at = λ id. ground (arith, h.at id, find-insert id k p a.requests, ==_iff k id);
}
Change-IsGrantedOnce {a} (Change.approved admin now gid rid t o n q e pending fresh) h = record {
  at = λ id. ground (
    arith,
    h.at id,
    find-update id rid (λ r. decided RequestStatus.approved admin now (new_note n r.admin_note) r)
        a.requests,
    count_where-insert (of_request id) gid (granted admin now rid t o q) a.grants,
    ==_iff rid id,
  );
}
Change-IsGrantedOnce {a} (Change.rejected admin now rid n p e pending) h = record {
  at = λ id. ground (
    arith,
    h.at id,
    find-update id rid (decided RequestStatus.rejected admin now n) a.requests,
    ==_iff rid id,
  );
}
Change-IsGrantedOnce {a} (Change.extended k t g e p) h = record {
  at = λ id. ground (
    arith,
    h.at id,
    count_where-update (of_request id) k (λ x. record x { expires_at = t }) g a.grants,
  );
}
Change-IsGrantedOnce {a} (Change.taken m k g e p) h = record {
  at = λ id. ground (arith, h.at id, count_where-update (of_request id) k set_revoked g a.grants);
}
Change-IsGrantedOnce _ h = record { at = h.at }

Reach-IsGrantedOnce : {a b : Db} → Reach a b → IsGrantedOnce a → IsGrantedOnce b
Reach-IsGrantedOnce Reach.here h = h
Reach-IsGrantedOnce (Reach.next r c) h = Change-IsGrantedOnce c (Reach-IsGrantedOnce r h)

-- If every approved request has exactly one grant and every other request none, that stays so
-- after any ordinary calls (all but permanent deletions) in any order.
pub steps-IsGrantedOnce :
    (cal : Calendar) (work : Work) (threshold : ℕ) (ops : List Op) (db : Db)
    → IsKeyed db.grants
    → IsGrantedOnce db
    → IsGrantedOnce (steps cal work threshold ops db)
steps-IsGrantedOnce cal work threshold ops db k h =
    Reach-IsGrantedOnce (steps-Reach cal work threshold ops db k) h
