-- ===== src/Workflow/Revocation.antt =====
-- What a revocation ends, and for how long.
use bodp_app.Prelude.{
  ℕ, ◌+◌, ◌≡◌, refl, inl, inr, some, arith, ◌==◌, ==_iff, Bool-cases, ap, sym, ◌∙◌, List, [], ◌∷◌,
  if◌then◌else◌, Bool, true, false, not, none, All,
}
use mathlib.Core.Option
use bodp_app.Table.{
  Table, find, update, delete_where, keys_where, find-insert, find-update, find-update_where,
  find-delete_where_kept, IsKeyed,
}
use bodp_app.Catalog.{filter}
use bodp_app.Datasets.{cascade, is_one_of, is_some_of, grants_of, requests_of}
use bodp_app.Models.{AccessGrant, GrantStatus, DownloadLog}
use bodp_app.Database.{Db}
use bodp_app.Requests.{Calendar, take_away, set_revoked}
use bodp_app.Extractions.{Work}
use bodp_app.Workflow.Change.{Change, Reach, approval, granted}
use bodp_app.Workflow.System.{Op, steps}
use bodp_app.Workflow.Refinement.{steps-Reach}
use bodp_app.Workflow.Erasure.{Call, calls, Transition, Route, Route-IsKeyed, Respects, calls-Route}

-- The number of downloads under a grant.
abbrev pub downloads_of : ℕ → List DownloadLog → ℕ
downloads_of k [] = 0
downloads_of k (l ∷ ls) = (if l.grant_id == k then 1 else 0) + downloads_of k ls

-- The grant is as it was, and nothing was downloaded under it since.
pub record IsClosed (k : ℕ) (g : AccessGrant) (n : ℕ) (db : Db) : Type 0 where
  pub grant : find k db.grants ≡ some g
  pub downloads : downloads_of k db.download_logs ≡ n

-- A write under another key, or one that needs an active grant.
update_other :
    (k id : ℕ) (f : AccessGrant → AccessGrant) (g x : AccessGrant) (db : Db)
    → g.status ≡ GrantStatus.revoked
    → find k db.grants ≡ some g
    → find id db.grants ≡ some x
    → x.status ≡ GrantStatus.active
    → find k (update id f db.grants) ≡ some g
update_other k id f g x db revoked h e active = elim (Bool-cases (id == k)) [
  | inr other ↦ ground (arith, find-update k id f db.grants)
  | inl this ↦ absurd (ground (arith, ap (λ i. find i db.grants) ((==_iff id k).0 this)))
]

Change-IsClosed :
    {a b : Db} (k : ℕ) (g : AccessGrant) (n : ℕ)
    → g.status ≡ GrantStatus.revoked
    → Change a b
    → IsClosed k g n a
    → IsClosed k g n b
unfolding approval take_away
Change-IsClosed {a} k g n revoked (Change.approved admin now gid rid t o w q e p fresh) h = record {
  grant =
      ground
        (arith, h.grant, find-insert k gid (granted admin now rid t o q) a.grants, ==_iff gid k);
  downloads = h.downloads;
}
Change-IsClosed {a} k g n revoked (Change.extended id t x e p) h = record {
  grant = update_other k id (λ y. record y { expires_at = t }) g x a revoked h.grant e p;
  downloads = h.downloads;
}
Change-IsClosed {a} k g n revoked (Change.taken m id x e p) h = record {
  grant = update_other k id set_revoked g x a revoked h.grant e p;
  downloads = h.downloads;
}
Change-IsClosed {a} k g n revoked (Change.downloaded log id e x same found c there active owner) h =
    record {
      grant = h.grant;
      downloads = elim (Bool-cases (log.grant_id == k)) [
        | inr other ↦ ground (arith, h.downloads)
        | inl this ↦ absurd (
            ground (
              arith,
              h.grant,
              ap (λ i. find i a.grants) (sym same ∙ (==_iff log.grant_id k).0 this),
            ))
      ];
    }
Change-IsClosed k g n revoked _ h = record { grant = h.grant; downloads = h.downloads }

Reach-IsClosed :
    {a b : Db} (k : ℕ) (g : AccessGrant) (n : ℕ)
    → g.status ≡ GrantStatus.revoked
    → Reach a b
    → IsClosed k g n a
    → IsClosed k g n b
Reach-IsClosed k g n revoked Reach.here h = h
Reach-IsClosed k g n revoked (Reach.next r c) h =
    Change-IsClosed k g n revoked c (Reach-IsClosed k g n revoked r h)

-- After the ordinary calls a revoked grant is as it was.
pub steps-IsClosed :
    (cal : Calendar) (work : Work) (threshold : ℕ) (ops : List Op) (db : Db) (k : ℕ)
    (g : AccessGrant)
    → IsKeyed db.grants
    → find k db.grants ≡ some g
    → g.status ≡ GrantStatus.revoked
    → IsClosed k g (downloads_of k db.download_logs) (steps cal work threshold ops db)
steps-IsClosed cal work threshold ops db k g keyed h revoked =
    Reach-IsClosed k g (downloads_of k db.download_logs) revoked
      (steps-Reach cal work threshold ops db keyed) (record { grant = h; downloads = refl })

-- The grant as it was, except the link to its request, which is emptied when that is deleted.
abbrev pub IsLike : (g h : AccessGrant) → Type 0
IsLike g h = record h { request_id = g.request_id } ≡ g

-- The grant is there, and nothing was downloaded under it since.
abbrev pub StaysClosed : (k : ℕ) → AccessGrant → (n : ℕ) → Db → Type 0
StaysClosed k g n db =
    (h : AccessGrant) × (find k db.grants ≡ some h)
    × IsLike g h
    × (downloads_of k db.download_logs ≡ n)

keys_where-none :
    (p : AccessGrant → Bool) (k : ℕ) (t : Table AccessGrant)
    → find k t ≡ none
    → is_one_of (keys_where p t) k ≡ false
unfolding find keys_where
keys_where-none p k [] h = refl
keys_where-none p k ((j, r) ∷ t) h = ground (arith, keys_where-none p k t)

keys_where_other :
    (p : AccessGrant → Bool) (k : ℕ) (g : AccessGrant) (t : Table AccessGrant)
    → IsKeyed t
    → find k t ≡ some g
    → p g ≡ false
    → is_one_of (keys_where p t) k ≡ false
unfolding find keys_where
keys_where_other p k g [] keyed h e = absurd (cc)
keys_where_other p k g ((j, r) ∷ t) (fresh, keyed) h e = elim (Bool-cases (j == k)) [
  | inl this ↦
      let same : r ≡ g = ground arith in
      let passed : p r ≡ false = ap p same ∙ e in
      let alone : find k t ≡ none = ap (λ i. find i t) (sym ((==_iff j k).0 this)) ∙ fresh in
      rw passed (keys_where-none p k t alone)
  | inr other ↦ ground (arith, keys_where_other p k g t keyed, other)
]

downloads_of-filter :
    (k : ℕ) (ks : List ℕ) (logs : List DownloadLog)
    → is_one_of ks k ≡ false
    → downloads_of k (filter (λ (l : DownloadLog). not (is_one_of ks l.grant_id)) logs)
      ≡ downloads_of k logs
unfolding filter
downloads_of-filter k ks [] h = refl
downloads_of-filter k ks (l ∷ logs) h = elim (Bool-cases (l.grant_id == k)) [
  | inl this ↦
      let here : is_one_of ks l.grant_id ≡ false =
        ap (is_one_of ks) ((==_iff l.grant_id k).0 this) ∙ h in
      ground (arith, downloads_of-filter k ks logs h, here, this)
  | inr other ↦ ground (arith, downloads_of-filter k ks logs h, other)
]

IsLike-emptied :
    (g h : AccessGrant) (b : Bool)
    → IsLike g h
    → IsLike g (if b then record h { request_id = none } else h)
IsLike-emptied g h true e = e
IsLike-emptied g h false e = e

module _ (may : ℕ → Bool) (k : ℕ) (g : AccessGrant) (n : ℕ) where
  erased-StaysClosed :
      (id : ℕ) (db : Db)
      → (g.dataset_id == id) ≡ false
      → IsKeyed db.grants
      → StaysClosed k g n db
      → StaysClosed k g n (cascade id db)
  unfolding cascade
  erased-StaysClosed id db other keyed (h, found, like, count) =
      let p : AccessGrant → Bool = λ x. x.dataset_id == id in
      let q : AccessGrant → Bool = λ x. is_some_of (requests_of id db) x.request_id in
      let emptied : AccessGrant → AccessGrant = λ x. record x { request_id = none } in
      let spared : p h ≡ false = ap (λ (x : AccessGrant). x.dataset_id == id) like ∙ other in
      let kept : find k (delete_where p db.grants) ≡ some h =
        find-delete_where_kept p k h db.grants found spared in
      (
        (if q h then emptied h else h),
        (find-update_where k q emptied (delete_where p db.grants)
            ∙ ap (Option.map (λ x. if q x then emptied x else x)) kept),
        IsLike-emptied g h (q h) like,
        (downloads_of-filter k (grants_of id db) db.download_logs
              (keys_where_other p k h db.grants keyed found spared)
            ∙ count),
      )

  Transition-StaysClosed :
      {a b : Db}
      → may g.dataset_id ≡ false
      → g.status ≡ GrantStatus.revoked
      → IsKeyed a.grants
      → Transition may a b
      → StaysClosed k g n a
      → StaysClosed k g n b
  Transition-StaysClosed stays revoked keyed (Transition.changed c) (h, found, like, count) =
      let still = ap (λ (x : AccessGrant). x.status) like ∙ revoked in
      let closed = Change-IsClosed k h n still c (record { grant = found; downloads = count }) in
      (h, closed.grant, like, closed.downloads)
  Transition-StaysClosed stays revoked keyed (Transition.unrecorded id) h = h
  Transition-StaysClosed {a} stays revoked keyed (Transition.erased id allowed) h =
      erased-StaysClosed id a
        (elim (Bool-cases (g.dataset_id == id)) [
          | inl this ↦
              absurd (ground (arith, ap may ((==_iff g.dataset_id id).0 this), allowed, stays))
          | inr other ↦ other
        ])
        keyed h

  Route-StaysClosed :
      {a b : Db}
      → may g.dataset_id ≡ false
      → g.status ≡ GrantStatus.revoked
      → IsKeyed a.grants
      → Route may a b
      → StaysClosed k g n a
      → StaysClosed k g n b
  Route-StaysClosed stays revoked keyed Route.start h = h
  Route-StaysClosed stays revoked keyed (Route.onward p t) h =
      Transition-StaysClosed stays revoked (Route-IsKeyed p keyed) t
        (Route-StaysClosed stays revoked keyed p h)

-- Once a grant is revoked, whatever calls follow in whatever order, permanent deletions of datasets
-- other than its own included, no column of it changes any more but the link to its request, and no
-- further download under it is recorded.
pub revoked_grant_is_final :
    (cal : Calendar) (work : Work) (threshold : ℕ) (may : ℕ → Bool) (cs : List Call) (db : Db)
    (k : ℕ) (g : AccessGrant)
    → All (Respects may) cs
    → may g.dataset_id ≡ false
    → IsKeyed db.grants
    → find k db.grants ≡ some g
    → g.status ≡ GrantStatus.revoked
    → StaysClosed k g (downloads_of k db.download_logs) (calls cal work threshold cs db)
revoked_grant_is_final cal work threshold may cs db k g allowed stays keyed h revoked =
    Route-StaysClosed may k g (downloads_of k db.download_logs) stays revoked keyed
      (calls-Route cal work threshold may cs db allowed keyed) (g, h, refl, refl)
