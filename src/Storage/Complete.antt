-- ===== src/Storage/Complete.antt =====
-- Nothing under a prefix that the sweep lists escapes it.
use bodp_app.Prelude.{
  ◌≡◌, refl, subst, ◌⊎◌, inl, inr, true, false, String, str_eq, List, [], ◌∷◌, ◌++◌, any, In,
  In-append_left, In-append_right, Bool-cases,
}
use bodp_app.Database.{Db}
use bodp_app.Storage.Keys.{Text}
use bodp_app.Storage.Sweep.{
  Objects, KnownKey, OrphanFinding, vps_minio, all_backends, vps_only_prefixes,
  backend_parametric_prefixes, regenerated_prefixes, configured_backends, collect_known_keys,
  check_db_to_storage, is_known, Sweep, orphan, is_regenerated, sweep_key, sweep_keys, sweep_prefix,
  sweep_prefixes, sweep_backends, check_storage_to_db, run_sweep,
}

-- The prefixes that the sweep lists on a backend.
abbrev pub Swept : Objects → (backend : String) → (prefix : Text) → Type 0
Swept objects backend prefix =
    (backend ≡ vps_minio) × In prefix (vps_only_prefixes ++ regenerated_prefixes)
    ⊎ In backend all_backends × In prefix backend_parametric_prefixes

module _ (objects : Objects) (ks : List KnownKey) (x : OrphanFinding) where
  -- A finding that is there stays.
  Found : Sweep → Type 0
  Found acc = In x acc.findings

  sweep_key-Found :
      (backend bucket : String) (prefix key : Text) (acc : Sweep)
      → Found acc
      → Found (sweep_key objects ks backend bucket prefix key acc)
  unfolding Found sweep_key
  sweep_key-Found backend bucket prefix key acc m = elim (Bool-cases (is_regenerated prefix)) [
    | inl e ↦ rw e m
    | inr e ↦ elim (Bool-cases (is_known ks backend bucket key)) [
      | inl k ↦ rw (e, k) m
      | inr k ↦ rw (e, k) (In-append_left acc.findings _ m)
    ]
  ]

  sweep_keys-Found :
      (backend bucket : String) (prefix : Text) (keys : List Text) (acc : Sweep)
      → Found acc
      → Found (sweep_keys objects ks backend bucket prefix keys acc)
  unfolding sweep_keys
  sweep_keys-Found backend bucket prefix [] acc m = m
  sweep_keys-Found backend bucket prefix (key ∷ keys) acc m =
      sweep_keys-Found backend bucket prefix keys _
        (sweep_key-Found backend bucket prefix key acc m)

  sweep_prefix-Found :
      (backend : String) (prefix : Text) (acc : Sweep)
      → Found acc
      → Found (sweep_prefix objects ks backend prefix acc)
  unfolding sweep_prefix
  sweep_prefix-Found backend prefix acc m = elim (Bool-cases (objects.is_configured backend)) [
    | inl e ↦ rw e (sweep_keys-Found backend _ prefix _ acc m)
    | inr e ↦ rw e m
  ]

  sweep_prefixes-Found :
      (backend : String) (prefixes : List Text) (acc : Sweep)
      → Found acc
      → Found (sweep_prefixes objects ks backend prefixes acc)
  unfolding sweep_prefixes
  sweep_prefixes-Found backend [] acc m = m
  sweep_prefixes-Found backend (p ∷ ps) acc m =
      sweep_prefixes-Found backend ps _ (sweep_prefix-Found backend p acc m)

  sweep_backends-Found :
      (backends : List String) (acc : Sweep)
      → Found acc
      → Found (sweep_backends objects ks backends acc)
  unfolding sweep_backends
  sweep_backends-Found [] acc m = m
  sweep_backends-Found (b ∷ bs) acc m =
      sweep_backends-Found bs _ (sweep_prefixes-Found b backend_parametric_prefixes acc m)

-- An object that the sweep comes to and that no row knows is found.
module _ (objects : Objects) (ks : List KnownKey) (backend bucket : String) (prefix key : Text)
    (fresh : is_regenerated prefix ≡ false) (unknown : is_known ks backend bucket key ≡ false) where
  keys_reached :
      (keys : List Text) (acc : Sweep)
      → In key keys
      → Found objects ks
          (orphan backend bucket key)
          (sweep_keys objects ks backend bucket prefix keys acc)
  unfolding sweep_keys sweep_key Found
  keys_reached [] acc m = elim m [ ]
  keys_reached (key ∷ keys) acc (In.here _) =
      sweep_keys-Found objects ks _ backend bucket prefix keys _
        (rw (fresh, unknown) (In-append_right acc.findings _ (In.here [])))
  keys_reached (k ∷ keys) acc (In.there _ _ m) = keys_reached keys _ m

module _ (objects : Objects) (ks : List KnownKey) (backend : String) (prefix key : Text)
    (fresh : is_regenerated prefix ≡ false)
    (unknown : is_known ks backend (objects.default_bucket_for backend) key ≡ false)
    (up : objects.is_configured backend ≡ true)
    (listed : In key (objects.list_keys backend (objects.default_bucket_for backend) prefix)) where
  abbrev FoundIt : Sweep → Type 0
  FoundIt = Found objects ks (orphan backend (objects.default_bucket_for backend) key)

  prefix_found : (acc : Sweep) → FoundIt (sweep_prefix objects ks backend prefix acc)
  unfolding sweep_prefix
  prefix_found acc = rw up (keys_reached objects ks backend _ prefix key fresh unknown _ acc listed)

  prefixes_found :
      (prefixes : List Text) (acc : Sweep)
      → In prefix prefixes
      → FoundIt (sweep_prefixes objects ks backend prefixes acc)
  unfolding sweep_prefixes
  prefixes_found [] acc m = elim m [ ]
  prefixes_found (p ∷ ps) acc (In.here _) =
      sweep_prefixes-Found objects ks _ backend ps _ (prefix_found acc)
  prefixes_found (p ∷ ps) acc (In.there _ _ m) = prefixes_found ps _ m

  vps_found :
      (prefixes : List Text) (acc : Sweep)
      → backend ≡ vps_minio
      → In prefix prefixes
      → FoundIt (sweep_prefixes objects ks vps_minio prefixes acc)
  vps_found prefixes acc vps p =
      subst (λ b. FoundIt (sweep_prefixes objects ks b prefixes acc)) vps
        (prefixes_found prefixes acc p)

  backends_found :
      (backends : List String) (acc : Sweep)
      → In backend backends
      → In prefix backend_parametric_prefixes
      → FoundIt (sweep_backends objects ks backends acc)
  unfolding sweep_backends
  backends_found [] acc m p = elim m [ ]
  backends_found (b ∷ bs) acc (In.here _) p =
      sweep_backends-Found objects ks _ bs _ (prefixes_found backend_parametric_prefixes acc p)
  backends_found (b ∷ bs) acc (In.there _ _ m) p = backends_found bs _ m p

  configured_found :
      (backends : List String)
      → In backend backends
      → In backend (configured_backends objects backends)
  unfolding configured_backends
  configured_found [] m = elim m [ ]
  configured_found (b ∷ bs) (In.here _) = rw up (In.here _)
  configured_found (b ∷ bs) (In.there _ _ m) = elim (Bool-cases (objects.is_configured b)) [
    | inl e ↦ rw e (In.there b _ (configured_found bs m))
    | inr e ↦ rw e (configured_found bs m)
  ]

  vps_configured :
      objects.is_configured vps_minio ≡ true
      → any (str_eq vps_minio) (configured_backends objects all_backends) ≡ true
  unfolding configured_backends
  vps_configured h = rw h refl

  check_storage_to_db-found :
      Swept objects backend prefix → FoundIt (check_storage_to_db objects ks)
  unfolding check_storage_to_db
  check_storage_to_db-found (inl (vps, p)) =
      rw (vps_configured (subst (λ b. objects.is_configured b ≡ true) vps up)) (vps_found _ _ vps p)
  check_storage_to_db-found (inr (b, p)) =
      let m =
        backends_found (configured_backends objects all_backends) _
          (configured_found all_backends b) p in
      elim (Bool-cases (any (str_eq vps_minio) (configured_backends objects all_backends))) [
        | inl e ↦ rw e (sweep_prefixes-Found objects ks _ vps_minio _ _ m)
        | inr e ↦ rw e m
      ]

-- Every object that is listed under a prefix that the sweep covers, on a backend that is set up, is
-- reported where no row names it or a prefix of it; the two prefixes whose objects are written
-- again and again are left out.
pub run_sweep-reports_orphan :
    (objects : Objects) (db : Db) (backend : String) (prefix key : Text)
    → is_regenerated prefix ≡ false
    → is_known (collect_known_keys objects db) backend (objects.default_bucket_for backend) key
      ≡ false
    → objects.is_configured backend ≡ true
    → In key (objects.list_keys backend (objects.default_bucket_for backend) prefix)
    → Swept objects backend prefix
    → In (orphan backend (objects.default_bucket_for backend) key) (run_sweep objects db).findings
unfolding run_sweep Found
run_sweep-reports_orphan objects db backend prefix key fresh unknown up listed s =
    let ks = collect_known_keys objects db in
    In-append_right (check_db_to_storage objects ks) _
      (check_storage_to_db-found objects ks backend prefix key fresh unknown up listed s)
