-- ===== src/Tests/BackupTests.antt =====
-- A backup beside an old one, whose row and object the sweep removes.
use bodp_app.Prelude.{ℕ, ◌≡◌, refl, false, not, ◌&&◌, any, Option, none, some, [], ◌∷◌}
use bodp_app.Table.{find, update, insert, delete_where, rows_where, IsKeyed}
use bodp_app.Scope.{codes}
use bodp_app.Storage.{Text, text_eq, backup_key}
use bodp_app.Backups.{
  BackupStatus, BackupRow, Archive, Attempt, BackupReply, delete_object, held, is_expired,
  delete_all_stored, sweep_expired_backups, end_backup, key_of, end_pg_dump, run_pg_dump,
  run_scheduled_backup,
}
use bodp_app.Backups.Retention.{deletes, unless, sweep_expired_backups-keeps}
use bodp_app.Tests.Identifiers.{uuids}

abbrev row : (started_at : ℕ) → Option Text → BackupRow
row started key = record {
  started_at = started;
  completed_at = none;
  size_bytes = none;
  status = BackupStatus.running;
  storage_key = key;
  celery_task_id = none;
  row_counts = none;
}

abbrev archive : Archive
archive = record {
  backups = (2, row 90 none) ∷ (1, row 10 (some (key_of uuids 1))) ∷ [];
  objects = key_of uuids 1 ∷ codes "media/1/a" ∷ [];
}

scheduled_backup :
    (run_scheduled_backup uuids 50 100
      (λ key. false)
      2
      90
      (3 ∷ 4 ∷ 5 ∷ [])
      (λ w. w)
      (Attempt.stored 700)
      (record {
        backups = (1, row 10 (some (key_of uuids 1))) ∷ [];
        objects = key_of uuids 1 ∷ [];
      }))
    ≡ (
      BackupReply.complete 700,
      record {
        backups =
            (
              2,
              record (row 90 (some (key_of uuids 2))) {
                status = BackupStatus.success;
                size_bytes = some 700;
                completed_at = some 100;
                row_counts = some (3 ∷ 4 ∷ 5 ∷ []);
              },
            )
            ∷ [];
        objects = key_of uuids 2 ∷ [];
      },
    )
unfolding run_scheduled_backup run_pg_dump end_pg_dump end_backup sweep_expired_backups
    delete_all_stored delete_object backup_key text_eq find insert update delete_where rows_where
scheduled_backup = refl

archive-IsKeyed : IsKeyed archive.backups
unfolding find
archive-IsKeyed = (refl, (refl, tt))

sweep_expired_backups-keeps_example :
    (find 1 (sweep_expired_backups 50 (λ key. false) archive).1.backups
      ≡ unless (is_expired 50) (find 1 archive.backups))
    × (held (key_of uuids 1) (sweep_expired_backups 50 (λ key. false) archive).1.objects ≡ (
        held (key_of uuids 1) archive.objects
        && not (
            any
              (deletes (λ key. false) (key_of uuids 1))
              (rows_where (is_expired 50) archive.backups))))
sweep_expired_backups-keeps_example =
    sweep_expired_backups-keeps 50 (λ key. false) archive 1 (key_of uuids 1) archive-IsKeyed
