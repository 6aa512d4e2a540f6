-- ===== src/Storage/Orphans.antt =====
-- What the sweep reports: only objects and rows that do not match, and all of them under the
-- prefixes that it lists.
use bodp_app.Prelude.{
  ◌≡◌, refl, inl, inr, true, false, Bool, Option, none, some, not, ◌&&◌, String, str_eq, List, [],
  ◌∷◌, any, arith, In, All, All-append, Bool-cases,
}
use bodp_app.Database.{Db}
use bodp_app.Storage.Keys.{Text}
use bodp_app.Storage.Sweep.{
  Objects, KnownKey, Direction, OrphanFinding, vps_minio, all_backends, backend_parametric_prefixes,
  ends_with_slash, configured_backends, collect_known_keys, is_missing, missing,
  check_db_to_storage, is_known, Sweep, orphan, is_regenerated, sweep_key, sweep_keys, sweep_prefix,
  sweep_prefixes, sweep_backends, check_storage_to_db, run_sweep,
}

-- What a finding says: the row of a known key has no object, or no row has the object.
HoldsAs : Direction → Objects → List KnownKey → OrphanFinding → Type 0
HoldsAs Direction.db_to_storage objects ks f =
    (k : KnownKey) × In k ks
    × (f ≡ missing k)
    × (objects.exists k.backend k.bucket k.key ≡ some false)
HoldsAs Direction.storage_to_db objects ks f = is_known ks f.backend f.bucket f.key ≡ false

unfoldable pub Holds : Objects → List KnownKey → OrphanFinding → Type 0
unfolding HoldsAs
Holds objects ks f = HoldsAs f.direction objects ks f

missing_path : (there : Option Bool) → is_missing there ≡ true → there ≡ some false
missing_path none h = cc
missing_path (some true) h = cc
missing_path (some false) h = refl

module _ (objects : Objects) (ks : List KnownKey) where
  missing-Holds :
      (js : List KnownKey)
      → ((k : KnownKey) → In k js → In k ks)
      → All (Holds objects ks) (check_db_to_storage objects js)
  unfolding check_db_to_storage All Holds
  missing-Holds [] sub = tt
  missing-Holds (k ∷ js) sub =
      let rest = missing-Holds js (λ j m. sub j (In.there k js m)) in
      elim (Bool-cases
        (not (ends_with_slash k.key) && is_missing (objects.exists k.backend k.bucket k.key))) [
          | inl e ↦ rw e ((k, sub k (In.here js), refl, missing_path _ (ground arith)), rest)
          | inr e ↦ rw e rest
        ]

  -- The findings so far all hold.
  SoFar : Sweep → Type 0
  SoFar acc = All (Holds objects ks) acc.findings

  sweep_key-SoFar :
      (backend bucket : String) (prefix key : Text) (acc : Sweep)
      → SoFar acc
      → SoFar (sweep_key objects ks backend bucket prefix key acc)
  unfolding SoFar sweep_key Holds All
  sweep_key-SoFar backend bucket prefix key acc h = elim (Bool-cases (is_regenerated prefix)) [
    | inl e ↦ rw e h
    | inr e ↦ elim (Bool-cases (is_known ks backend bucket key)) [
      | inl k ↦ rw (e, k) h
      | inr k ↦ rw (e, k) (All-append _ acc.findings (orphan backend bucket key ∷ []) h (k, tt))
    ]
  ]

  sweep_keys-SoFar :
      (backend bucket : String) (prefix : Text) (keys : List Text) (acc : Sweep)
      → SoFar acc
      → SoFar (sweep_keys objects ks backend bucket prefix keys acc)
  unfolding sweep_keys
  sweep_keys-SoFar backend bucket prefix [] acc h = h
  sweep_keys-SoFar backend bucket prefix (key ∷ keys) acc h =
      sweep_keys-SoFar backend bucket prefix keys _
        (sweep_key-SoFar backend bucket prefix key acc h)

  sweep_prefix-SoFar :
      (backend : String) (prefix : Text) (acc : Sweep)
      → SoFar acc
      → SoFar (sweep_prefix objects ks backend prefix acc)
  unfolding sweep_prefix
  sweep_prefix-SoFar backend prefix acc h = elim (Bool-cases (objects.is_configured backend)) [
    | inl e ↦ rw e (sweep_keys-SoFar backend _ prefix _ acc h)
    | inr e ↦ rw e h
  ]

  sweep_prefixes-SoFar :
      (backend : String) (prefixes : List Text) (acc : Sweep)
      → SoFar acc
      → SoFar (sweep_prefixes objects ks backend prefixes acc)
  unfolding sweep_prefixes
  sweep_prefixes-SoFar backend [] acc h = h
  sweep_prefixes-SoFar backend (p ∷ ps) acc h =
      sweep_prefixes-SoFar backend ps _ (sweep_prefix-SoFar backend p acc h)

  sweep_backends-SoFar :
      (backends : List String) (acc : Sweep)
      → SoFar acc
      → SoFar (sweep_backends objects ks backends acc)
  unfolding sweep_backends
  sweep_backends-SoFar [] acc h = h
  sweep_backends-SoFar (b ∷ bs) acc h =
      sweep_backends-SoFar bs _ (sweep_prefixes-SoFar b backend_parametric_prefixes acc h)

  check_storage_to_db-SoFar : SoFar (check_storage_to_db objects ks)
  unfolding check_storage_to_db SoFar All
  check_storage_to_db-SoFar =
      let h = sweep_backends-SoFar (configured_backends objects all_backends) _ tt in
      elim (Bool-cases (any (str_eq vps_minio) (configured_backends objects all_backends))) [
        | inl e ↦ rw e (sweep_prefixes-SoFar vps_minio _ _ h)
        | inr e ↦ rw e h
      ]

-- Every finding of the sweep holds: a reported row names an object that storage says is not there,
-- and a reported object is neither named by a row of the swept tables nor under a prefix that such
-- a row names.
pub run_sweep-Holds :
    (objects : Objects) (db : Db)
    → All (Holds objects (collect_known_keys objects db)) (run_sweep objects db).findings
unfolding run_sweep SoFar
run_sweep-Holds objects db =
    let ks = collect_known_keys objects db in
    All-append _ (check_db_to_storage objects ks) (check_storage_to_db objects ks).findings
      (missing-Holds objects ks ks (λ k m. m)) (check_storage_to_db-SoFar objects ks)
