-- ===== src/Workflow/DeletionPaths.antt =====
-- The nightly deletion scan as transitions: with unique keys, each grant that it selects is still
-- active when its turn comes.
use bodp_app.Prelude.{ℕ, ◌≡◌, true, some, List, [], ◌∷◌, arith, sym, subst, String}
use bodp_app.Table.{
  find, update, keys_where, IsKeyed, IsKeyed-update, AllFound, keys_where-AllFound, AllFound-update,
}
use bodp_app.Session.{exec}
use bodp_app.Models.{AccessGrant, GrantStatus}
use bodp_app.Database.{Db}
use bodp_app.Requests.{
  take_away, set_revoked, active_of, drop_grant, drop_grants, drop_users, is_due,
  process_pending_deletions,
}
use bodp_app.Workflow.Change.{Change, Reach, Reach-trans}
use bodp_app.Workflow.ReviewPaths.{active_of_test}

abbrev message : String
message = "Grant revoked: account deletion grace period elapsed."

drop_grant_found :
    (id : ℕ) (g : AccessGrant) (db : Db)
    → find id db.grants ≡ some g
    → drop_grant db id ≡ take_away message id g db
unfolding drop_grant
drop_grant_found id g db e = ground arith

grants-drop_grant :
    (id : ℕ) (g : AccessGrant) (db : Db)
    → find id db.grants ≡ some g
    → (drop_grant db id).grants ≡ update id set_revoked db.grants
unfolding drop_grant take_away
grants-drop_grant id g db e = ground arith

active_of-active : (u : ℕ) (g : AccessGrant) → active_of u g ≡ true → g.status ≡ GrantStatus.active
active_of-active u g h = ground (arith, active_of_test g.status)

-- What a part of the scan keeps: transitions, and unique keys.
abbrev Scans : Db → Db → Type 0
Scans db c = Reach db c × IsKeyed c.grants

drop_grants-Scans :
    (u : ℕ) (ids : List ℕ) (db : Db)
    → IsKeyed db.grants
    → AllFound (active_of u) db.grants ids
    → Scans db (drop_grants ids db)
unfolding drop_grants
drop_grants-Scans u [] db keyed found = (Reach.here, keyed)
drop_grants-Scans u (id ∷ ids) db keyed ((g, e, p), other, rest) =
    let same = grants-drop_grant id g db e in
    let after =
      drop_grants-Scans u ids (drop_grant db id)
        (subst IsKeyed (sym same) (IsKeyed-update id set_revoked db.grants keyed))
        (subst (λ t. AllFound (active_of u) t ids) (sym same)
          (AllFound-update (active_of u) id set_revoked db.grants ids other rest)) in
    let first : Reach db (drop_grant db id) =
      subst (λ c. Reach db c) (sym (drop_grant_found id g db e))
        (Reach.next Reach.here (Change.taken message id g e (active_of-active u g p))) in
    (Reach-trans first after.0, after.1)

drop_users-Scans : (us : List ℕ) (db : Db) → IsKeyed db.grants → Scans db (drop_users us db)
unfolding drop_users
drop_users-Scans [] db keyed = (Reach.here, keyed)
drop_users-Scans (u ∷ us) db keyed =
    let first =
      drop_grants-Scans u (keys_where (active_of u) db.grants) db keyed
        (keys_where-AllFound (active_of u) db.grants keyed) in
    let rest = drop_users-Scans us (drop_grants (keys_where (active_of u) db.grants) db) first.1 in
    (Reach-trans first.0 rest.0, rest.1)

-- The scan reaches its end by transitions.
pub deletions-Reach :
    (now : ℕ) (db : Db) → IsKeyed db.grants → Reach db (exec (process_pending_deletions now) db)
unfolding process_pending_deletions
deletions-Reach now db keyed = (drop_users-Scans (keys_where (is_due now) db.users) db keyed).0
