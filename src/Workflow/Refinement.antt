-- ===== src/Workflow/Refinement.antt =====
-- Every sequence of calls is a path of the abstract transitions.
use bodp_app.Prelude.{ℕ, List, [], ◌∷◌}
use bodp_app.Table.{IsKeyed, IsKeyed-insert, IsKeyed-update}
use bodp_app.Database.{Db}
use bodp_app.Requests.{Calendar, take_away}
use bodp_app.Extractions.{Work}
use bodp_app.Workflow.Change.{Change, Reach, Reach-trans, Refines-Reach, approval}
use bodp_app.Workflow.System.{Op, step, steps}
use bodp_app.Workflow.ReviewPaths.{
  approve-Refines, reject-Refines, create-Refines, extend-Refines, revoke-Refines,
}
use bodp_app.Workflow.GrantPaths.{archive-Reach, unarchive-Refines, publish-Refines}
use bodp_app.Workflow.DeletionPaths.{deletions-Reach}
use bodp_app.Workflow.ExtractionPaths.{
  begin-Reach, finish-Reach, download-Refines, create_extraction-Reach,
}

pub Change-IsKeyed : {a b : Db} → Change a b → IsKeyed a.grants → IsKeyed b.grants
unfolding approval take_away
Change-IsKeyed (Change.approved admin now gid rid t o n q e p fresh) h =
    IsKeyed-insert gid _ _ fresh h
Change-IsKeyed (Change.extended id t g e p) h = IsKeyed-update id _ _ h
Change-IsKeyed (Change.taken m id g e p) h = IsKeyed-update id _ _ h
Change-IsKeyed _ h = h

pub Reach-IsKeyed : {a b : Db} → Reach a b → IsKeyed a.grants → IsKeyed b.grants
Reach-IsKeyed Reach.here h = h
Reach-IsKeyed (Reach.next r c) h = Change-IsKeyed c (Reach-IsKeyed r h)

module _ (cal : Calendar) (work : Work) (threshold : ℕ) where
  pub step-Reach :
      (op : Op) (db : Db) → IsKeyed db.grants → Reach db (step cal work threshold op db)
  unfolding step
  step-Reach (Op.create user dataset new_id text criteria m t) db k =
      Refines-Reach _ db (create-Refines user dataset new_id text criteria m t db)
  step-Reach (Op.approve admin now new_id request o n d c) db k =
      Refines-Reach _ db (approve-Refines cal admin now new_id request o n d c db)
  step-Reach (Op.reject admin now request reason) db k =
      Refines-Reach _ db (reject-Refines admin now request reason db)
  step-Reach (Op.extend admin grant d c) db k =
      Refines-Reach _ db (extend-Refines cal admin grant d c db)
  step-Reach (Op.revoke admin grant) db k = Refines-Reach _ db (revoke-Refines admin grant db)
  step-Reach (Op.archive admin dataset) db k = archive-Reach admin dataset db
  step-Reach (Op.unarchive admin dataset) db k =
      Refines-Reach _ db (unarchive-Refines admin dataset db)
  step-Reach (Op.publish admin dataset p) db k =
      Refines-Reach _ db (publish-Refines admin dataset db p)
  step-Reach (Op.scan_deletions now) db k = deletions-Reach now db k
  step-Reach (Op.extract user now new_id grant scope format task) db k =
      create_extraction-Reach work threshold user now new_id grant scope format task db
  step-Reach (Op.begin id task) db k = begin-Reach id db task
  step-Reach (Op.finish now id outcome) db k = finish-Reach id db now outcome
  step-Reach (Op.download user id) db k = Refines-Reach _ db (download-Refines user id db)

  -- From a database whose grants have unique keys, whatever calls are made in whatever order, the
  -- database is reached by the abstract transitions.
  pub steps-Reach :
      (ops : List Op) (db : Db) → IsKeyed db.grants → Reach db (steps cal work threshold ops db)
  unfolding steps
  steps-Reach [] db k = Reach.here
  steps-Reach (op ∷ ops) db k =
      let first = step-Reach op db k in
      Reach-trans first (steps-Reach ops (step cal work threshold op db) (Reach-IsKeyed first k))
