-- ===== src/Tests/StorageTests.antt =====
-- Names of files, and the witnesses of the theorems on object keys.
use bodp_app.Prelude.{◌≡◌, refl, false, [], ◌∷◌, inl, In, All, some, str_eq, length, if◌then◌else◌}
use bodp_app.Scope.{codes}
use bodp_app.Storage.{
  sanitize_filename, replace, after_last, sub_unsafe, lstrip, rstrip, is_safe, is_stripped, Objects,
  collect_known_keys, is_known, keys_of, text_eq, starts_with, ends_with_slash, run_sweep, orphan,
  check_storage_to_db, configured_backends, sweep_backends, sweep_prefixes, sweep_prefix,
  sweep_keys, sweep_key, check_db_to_storage,
}
use bodp_app.Storage.Orphans.{Holds, run_sweep-Holds}
use bodp_app.Storage.Complete.{run_sweep-reports_orphan}
use bodp_app.Tests.Fixtures.{db, ada}
use bodp_app.Database.{Db}
use bodp_app.Table.{rows_of}
use mathlib.Core.List.{flat_map}
use bodp_app.Storage.Naming.{IsSafeName, sanitize_filename-safe}

climbing_path : sanitize_filename (codes "..\\..\\etc/my  data (1).nc") ≡ codes "my_data_1_.nc"
unfolding sanitize_filename replace after_last sub_unsafe lstrip rstrip is_safe is_stripped
climbing_path = refl

only_dots : sanitize_filename (codes "a/..") ≡ codes "file"
unfolding sanitize_filename replace after_last sub_unsafe lstrip rstrip is_safe is_stripped
only_dots = refl

sanitize_filename-safe_example :
    IsSafeName (sanitize_filename (codes "../a b.csv"))
    × (sanitize_filename (sanitize_filename (codes "../a b.csv"))
        ≡ sanitize_filename (codes "../a b.csv"))
sanitize_filename-safe_example = sanitize_filename-safe (codes "../a b.csv")

-- One backend, with the file of the small database gone and the picture of an account there.
abbrev objects : Objects
objects = record {
  is_configured = λ b. str_eq b "vps_minio";
  default_bucket_for = λ b. "ocean";
  list_keys =
      λ b bucket p. if text_eq p (codes "avatars/") then codes "avatars/1/me.png" ∷ [] else [];
  exists = λ b bucket k. some false;
}

abbrev avatar_db : Db
avatar_db = record db { users = (1, record ada { avatar_key = some "avatars/1/me.png" }) ∷ [] }

four_findings : length (run_sweep objects avatar_db).findings ≡ 4
unfolding run_sweep check_db_to_storage check_storage_to_db collect_known_keys configured_backends
    sweep_backends sweep_prefixes sweep_prefix sweep_keys sweep_key is_known text_eq keys_of
    starts_with ends_with_slash rows_of flat_map
four_findings = refl

run_sweep-Holds_example :
    All
      (Holds objects (collect_known_keys objects avatar_db))
      (run_sweep objects avatar_db).findings
run_sweep-Holds_example = run_sweep-Holds objects avatar_db

run_sweep-reports_orphan_example :
    In
      (orphan "vps_minio" "ocean" (codes "avatars/1/me.png"))
      (run_sweep objects avatar_db).findings
unfolding is_known collect_known_keys text_eq keys_of starts_with ends_with_slash rows_of flat_map
run_sweep-reports_orphan_example =
    run_sweep-reports_orphan objects avatar_db "vps_minio" (codes "avatars/")
      (codes "avatars/1/me.png") refl refl refl (In.here []) (inl (refl, In.here _))
