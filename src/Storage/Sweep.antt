-- ===== src/Storage/Sweep.antt =====
-- The orphan sweep (backend/app/worker/tasks/integrity.py). What storage holds is the parameter
-- `Objects`; the readable details of findings are left out.
use mathlib.Core.List.{flat_map}
use bodp_app.Prelude.{
  ℕ, suc, Bool, true, false, not, ◌&&◌, ◌||◌, Option, none, some, String, str_eq, List, [], ◌∷◌,
  ◌++◌, ◌==◌, if◌then◌else◌, any, length,
}
use bodp_app.Table.{rows_of}
use bodp_app.Scope.{codes, truthy}
use bodp_app.Models.{
  DatasetFile, MediaFile, RequestSupportingDocument, SubsetExtraction, StoredOutput, Report, Backup,
}
use bodp_app.Database.{Db}
use bodp_app.Storage.Keys.{Text, rstrip}

-- Storage as the sweep sees it: which backends are set up (neither get_storage_backend nor
-- default_bucket_for raises), their buckets, the keys that a listing yields before it ends or
-- raises, and whether an object is there, none where get_storage_backend or the question raises.
pub record Objects : Type 0 where
  pub is_configured : (backend : String) → Bool
  pub default_bucket_for : (backend : String) → String
  pub list_keys : (backend bucket : String) → (prefix : Text) → List Text
  pub exists : (backend bucket : String) → (key : Text) → Option Bool

pub record KnownKey : Type 0 where
  pub backend : String
  pub bucket : String
  pub key : Text

pub data Direction : Type 0 where
  db_to_storage storage_to_db : Direction

pub record OrphanFinding : Type 0 where
  pub direction : Direction
  pub backend : String
  pub bucket : String
  pub key : Text

pub record SweepResult : Type 0 where
  pub findings : List OrphanFinding
  pub known_key_count : ℕ
  pub listed_object_count : ℕ
  pub regenerated_prefix_object_count : ℕ

abbrev pub vps_minio : String
vps_minio = "vps_minio"

abbrev pub all_backends : List String
all_backends = vps_minio ∷ "cloud" ∷ []

abbrev pub vps_only_prefixes : List Text
vps_only_prefixes =
    codes "avatars/"
    ∷ codes "supporting-documents/"
    ∷ codes "media/"
    ∷ codes "backups/"
    ∷ codes "reports/"
    ∷ []

abbrev pub backend_parametric_prefixes : List Text
backend_parametric_prefixes = codes "raw/" ∷ codes "processed/" ∷ codes "extracts/" ∷ []

-- Sorted.
abbrev pub regenerated_prefixes : List Text
regenerated_prefixes = codes "previews/" ∷ codes "snapshots/" ∷ []

unfoldable pub text_eq : Text → Text → Bool
text_eq [] [] = true
text_eq [] (d ∷ t) = false
text_eq (c ∷ s) [] = false
text_eq (c ∷ s) (d ∷ t) = c == d && text_eq s t

-- `s.startswith(p)`
unfoldable pub starts_with : Text → Text → Bool
starts_with s [] = true
starts_with [] (d ∷ p) = false
starts_with (c ∷ s) (d ∷ p) = c == d && starts_with s p

-- `s.endswith("/")`
unfoldable pub ends_with_slash : Text → Bool
ends_with_slash [] = false
ends_with_slash (c ∷ []) = c == b'/'
ends_with_slash (c ∷ d ∷ s) = ends_with_slash (d ∷ s)

-- `_configured_backends`
unfoldable pub configured_backends : Objects → List String → List String
configured_backends objects [] = []
configured_backends objects (b ∷ bs) =
    let rest = configured_backends objects bs in if objects.is_configured b then b ∷ rest else rest

abbrev pub if_text : Option String → (String → List KnownKey) → List KnownKey
if_text none f = []
if_text (some s) f = if str_eq s "" then [] else f s

abbrev pub known : String → String → String → List KnownKey
known backend bucket key = record { backend = backend; bucket = bucket; key = codes key } ∷ []

abbrev pub processed_keys : DatasetFile → String → List KnownKey
processed_keys f bucket =
    if truthy f.processed_key
    then if_text f.processed_key (known f.storage_backend bucket)
    else if_text f.processed_prefix (λ p.
      record {
        backend = f.storage_backend;
        bucket = bucket;
        key = rstrip (λ c. c == b'/') (codes p) ++ codes "/";
      }
      ∷ [])

abbrev pub file_keys : DatasetFile → List KnownKey
file_keys f =
    known f.storage_backend f.storage_bucket f.storage_key
    ++ if_text f.processed_bucket (processed_keys f)

abbrev pub media_keys : MediaFile → List KnownKey
media_keys m = known m.storage_backend m.storage_bucket m.storage_key

abbrev pub document_keys : RequestSupportingDocument → List KnownKey
document_keys d = known d.storage_backend d.storage_bucket d.storage_key

abbrev pub output_keys : Option StoredOutput → List KnownKey
output_keys none = []
output_keys (some o) =
    if str_eq o.key "" || str_eq o.bucket "" || str_eq o.storage_backend ""
    then []
    else known o.storage_backend o.bucket o.key

unfoldable pub collect_known_keys : Objects → Db → List KnownKey
collect_known_keys objects db =
    let here = known vps_minio (objects.default_bucket_for vps_minio) in
    flat_map file_keys (rows_of db.dataset_files)
    ++ (flat_map media_keys (rows_of db.media_files)
        ++ (flat_map document_keys (rows_of db.supporting_documents)
            ++ (flat_map (λ (e : SubsetExtraction). output_keys e.output) (rows_of db.extractions)
                ++ (flat_map (λ (r : Report). if_text r.output_storage_key here)
                      (rows_of db.reports)
                    ++ flat_map (λ (b : Backup). if_text b.storage_key here)
                        (rows_of db.backups)))))

-- An object that is not there; a backend that cannot be asked gives no finding.
abbrev pub is_missing : Option Bool → Bool
is_missing none = false
is_missing (some there) = not there

abbrev pub missing : KnownKey → OrphanFinding
missing k = record {
  direction = Direction.db_to_storage;
  backend = k.backend;
  bucket = k.bucket;
  key = k.key;
}

unfoldable pub check_db_to_storage : Objects → List KnownKey → List OrphanFinding
check_db_to_storage objects [] = []
check_db_to_storage objects (k ∷ ks) =
    let rest = check_db_to_storage objects ks in
    if not (ends_with_slash k.key) && is_missing (objects.exists k.backend k.bucket k.key)
    then missing k ∷ rest
    else rest

-- `known_by_backend_bucket.get((backend, bucket), set())`
unfoldable pub keys_of : (backend bucket : String) → List KnownKey → List Text
keys_of backend bucket [] = []
keys_of backend bucket (k ∷ ks) =
    let rest = keys_of backend bucket ks in
    if str_eq k.backend backend && str_eq k.bucket bucket then k.key ∷ rest else rest

-- A key that a row names, or that lies under a prefix that a row names.
unfoldable pub is_known : List KnownKey → (backend bucket : String) → (key : Text) → Bool
is_known ks backend bucket key =
    any (λ k. text_eq k key || ends_with_slash k && starts_with key k) (keys_of backend bucket ks)

pub record Sweep : Type 0 where
  pub findings : List OrphanFinding
  pub total_listed : ℕ
  pub regenerated_count : ℕ

abbrev pub orphan : (backend bucket : String) → Text → OrphanFinding
orphan backend bucket key = record {
  direction = Direction.storage_to_db;
  backend = backend;
  bucket = bucket;
  key = key;
}

abbrev pub is_regenerated : Text → Bool
is_regenerated prefix = any (text_eq prefix) regenerated_prefixes

module _ (objects : Objects) (ks : List KnownKey) where
  -- One round of the loop of `sweep_prefix`.
  unfoldable pub sweep_key : (backend bucket : String) → (prefix key : Text) → Sweep → Sweep
  sweep_key backend bucket prefix key acc =
      if is_regenerated prefix
      then record acc {
        total_listed = suc acc.total_listed;
        regenerated_count = suc acc.regenerated_count;
      }
      else if is_known ks backend bucket key
      then record acc { total_listed = suc acc.total_listed }
      else record acc {
        total_listed = suc acc.total_listed;
        findings = acc.findings ++ (orphan backend bucket key ∷ []);
      }

  unfoldable pub sweep_keys :
      (backend bucket : String) → (prefix : Text) → List Text → Sweep → Sweep
  sweep_keys backend bucket prefix [] acc = acc
  sweep_keys backend bucket prefix (key ∷ keys) acc =
      sweep_keys backend bucket prefix keys (sweep_key backend bucket prefix key acc)

  unfoldable pub sweep_prefix : (backend : String) → (prefix : Text) → Sweep → Sweep
  sweep_prefix backend prefix acc =
      let bucket = objects.default_bucket_for backend in
      let swept = sweep_keys backend bucket prefix (objects.list_keys backend bucket prefix) acc in
      if objects.is_configured backend then swept else acc

  unfoldable pub sweep_prefixes : (backend : String) → List Text → Sweep → Sweep
  sweep_prefixes backend [] acc = acc
  sweep_prefixes backend (p ∷ ps) acc = sweep_prefixes backend ps (sweep_prefix backend p acc)

  unfoldable pub sweep_backends : List String → Sweep → Sweep
  sweep_backends [] acc = acc
  sweep_backends (b ∷ bs) acc = sweep_backends bs (sweep_prefixes b backend_parametric_prefixes acc)

  unfoldable pub check_storage_to_db : Sweep
  check_storage_to_db =
      let configured = configured_backends objects all_backends in
      let all =
        sweep_backends configured
          (record { findings = []; total_listed = 0; regenerated_count = 0 }) in
      if any (str_eq vps_minio) configured
      then sweep_prefixes vps_minio (vps_only_prefixes ++ regenerated_prefixes) all
      else all

unfoldable pub run_sweep : Objects → Db → SweepResult
run_sweep objects db =
    let ks = collect_known_keys objects db in
    let swept = check_storage_to_db objects ks in
    record {
      findings = check_db_to_storage objects ks ++ swept.findings;
      known_key_count = length ks;
      listed_object_count = swept.total_listed;
      regenerated_prefix_object_count = swept.regenerated_count;
    }
