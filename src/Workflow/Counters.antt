-- ===== src/Workflow/Counters.antt =====
-- The counter of each account is the number of its active grants.
use bodp_app.Prelude.{ℕ, ◌≡◌, inl, inr, some, arith, Option-cases, List}
use bodp_app.Table.{find, count_where, find-update, count_where-insert, count_where-update, IsKeyed}
use bodp_app.Models.{User}
use bodp_app.Database.{Db}
use bodp_app.Requests.{Calendar, active_of, take_away, grant_one_more, grant_one_less, set_revoked}
use bodp_app.Extractions.{Work}
use bodp_app.Workflow.Change.{Change, Reach, approval, granted}
use bodp_app.Workflow.System.{Op, steps}
use bodp_app.Workflow.Refinement.{steps-Reach}

-- `datasets_granted` counts the account's active grants, for every account.
pub record IsCounted (db : Db) : Type 0 where
  pub at :
      (u : ℕ) (user : User)
      → find u db.users ≡ some user
      → user.datasets_granted ≡ count_where (active_of u) db.grants

Change-IsCounted : {a b : Db} → Change a b → IsCounted a → IsCounted b
unfolding approval take_away
Change-IsCounted {a} (Change.approved admin now gid rid t o n q e p fresh) h = record {
  at = λ u user k. elim (Option-cases (find u a.users)) [
    | inl no_user ↦ absurd (ground (arith, find-update u q.user_id grant_one_more a.users))
    | inr (old, there) ↦ ground (
      arith,
      h.at u old there,
      find-update u q.user_id grant_one_more a.users,
      count_where-insert (active_of u) gid (granted admin now rid t o q) a.grants,
    )
  ];
}
Change-IsCounted {a} (Change.extended id t g e p) h = record {
  at = λ u user k. ground (
    arith,
    h.at u user k,
    count_where-update (active_of u) id (λ x. record x { expires_at = t }) g a.grants,
  );
}
Change-IsCounted {a} (Change.taken m id g e p) h = record {
  at = λ u user k. elim (Option-cases (find u a.users)) [
    | inl no_user ↦ absurd (ground (arith, find-update u g.user_id grant_one_less a.users))
    | inr (old, there) ↦ ground (
      arith,
      h.at u old there,
      find-update u g.user_id grant_one_less a.users,
      count_where-update (active_of u) id set_revoked g a.grants,
    )
  ];
}
Change-IsCounted _ h = record { at = h.at }

pub Reach-IsCounted : {a b : Db} → Reach a b → IsCounted a → IsCounted b
Reach-IsCounted Reach.here h = h
Reach-IsCounted (Reach.next r c) h = Change-IsCounted c (Reach-IsCounted r h)

-- If `datasets_granted` is the number of active grants of each account, it still is after any
-- ordinary calls (all but permanent deletions) in any order, failed ones included.
pub steps-IsCounted :
    (cal : Calendar) (work : Work) (threshold : ℕ) (ops : List Op) (db : Db)
    → IsKeyed db.grants
    → IsCounted db
    → IsCounted (steps cal work threshold ops db)
steps-IsCounted cal work threshold ops db k h =
    Reach-IsCounted (steps-Reach cal work threshold ops db k) h
