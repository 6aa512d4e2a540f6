-- ===== src/Backups.antt =====
-- `run_pg_dump`, `run_scheduled_backup` and `_sweep_expired_backups`
-- (backend/app/worker/tasks/backups.py). The texts of errors are left out, and so is an
-- error of the queries that count the rows.
use bodp_app.Prelude.{
  ℕ, Bool, true, false, not, ◌&&◌, Option, none, some, String, List, [], ◌∷◌, ltb, is_some, any,
  length, if◌then◌else◌,
}
use bodp_app.Table.{Table, find, insert, update, delete_where, rows_where}
use bodp_app.Scope.{codes}
use bodp_app.Storage.{Text, text_eq, Uuids, backup_key}
pub mod Ended
pub mod Retention

pub data BackupStatus : Type 0 where
  running success failed : BackupStatus

-- A row of `backups`, as the tasks use it; `row_counts` are those of the three tables.
pub record BackupRow : Type 0 where
  pub started_at : ℕ
  pub completed_at : Option ℕ
  pub size_bytes : Option ℕ
  pub status : BackupStatus
  pub storage_key : Option Text
  pub celery_task_id : Option String
  pub row_counts : Option (List ℕ)

-- The rows, and the keys of the objects in the bucket.
pub record Archive : Type 0 where
  pub backups : Table BackupRow
  pub objects : List Text

-- How the dump and its upload end: pg_dump with an error, another exception, before or after the
-- object was put, or a dump of some size.
pub data Attempt : Type 0 where
  pg_dump_failed : Attempt
  raised : (put : Bool) → Attempt
  stored : (size_bytes : ℕ) → Attempt

pub data BackupReply : Type 0 where
  not_found dump_failed unexpected : BackupReply
  complete : (size_bytes : ℕ) → BackupReply

abbrev pub set_running : (task : Option String) → (counts : List ℕ) → BackupRow → BackupRow
set_running task counts b = record b {
  status = BackupStatus.running;
  celery_task_id = task;
  row_counts = some counts;
}

abbrev pub set_backup_failed : (now : ℕ) → BackupRow → BackupRow
set_backup_failed now b = record b { status = BackupStatus.failed; completed_at = some now }

abbrev pub set_success : (key : Text) → (size now : ℕ) → BackupRow → BackupRow
set_success key size now b = record b {
  status = BackupStatus.success;
  storage_key = some key;
  size_bytes = some size;
  completed_at = some now;
}

-- `storage.put` of a key that may be there
abbrev pub put_object : Text → List Text → List Text
put_object key objects = key ∷ objects

unfoldable pub delete_object : Text → List Text → List Text
delete_object key [] = []
delete_object key (k ∷ ks) =
    let rest = delete_object key ks in if text_eq k key then rest else k ∷ rest

abbrev pub held : Text → List Text → Bool
held key objects = any (λ k. text_eq k key) objects

abbrev pub is_expired : (cutoff : ℕ) → BackupRow → Bool
is_expired cutoff b = ltb b.started_at cutoff

-- A deletion that storage refuses is logged, and the sweep goes on.
abbrev pub delete_stored : (refused : Text → Bool) → Option Text → List Text → List Text
delete_stored refused none objects = objects
delete_stored refused (some []) objects = objects
delete_stored refused (some (c ∷ key)) objects =
    if refused (c ∷ key) then objects else delete_object (c ∷ key) objects

unfoldable pub delete_all_stored :
    (refused : Text → Bool) → List (ℕ × BackupRow) → List Text → List Text
delete_all_stored refused [] objects = objects
delete_all_stored refused ((id, b) ∷ expired) objects =
    delete_all_stored refused expired (delete_stored refused b.storage_key objects)

unfoldable pub sweep_expired_backups :
    (cutoff : ℕ) → (refused : Text → Bool) → Archive → ℕ × Archive
sweep_expired_backups cutoff refused w =
    let expired = rows_where (is_expired cutoff) w.backups in
    (
      length expired,
      record {
        backups = delete_where (is_expired cutoff) w.backups;
        objects = delete_all_stored refused expired w.objects;
      },
    )

-- A row that has gone is left alone.
unfoldable pub end_backup : ℕ → (BackupRow → BackupRow) → Archive → Archive
end_backup id f w = record w { backups = update id f w.backups }

module _ (uuids : Uuids) where
  abbrev pub key_of : ℕ → Text
  key_of id = backup_key uuids id (codes "pg_dump")

  abbrev pub upload_dump : ℕ → Attempt → Archive → Archive
  upload_dump id Attempt.pg_dump_failed w = w
  upload_dump id (Attempt.raised put) w =
      if put then record w { objects = put_object (key_of id) w.objects } else w
  upload_dump id (Attempt.stored size) w = record w { objects = put_object (key_of id) w.objects }

module _ (uuids : Uuids) (cutoff now : ℕ) (refused : Text → Bool) where
  unfoldable pub end_pg_dump : ℕ → Attempt → Archive → BackupReply × Archive
  end_pg_dump id Attempt.pg_dump_failed w =
      (BackupReply.dump_failed, end_backup id (set_backup_failed now) w)
  end_pg_dump id (Attempt.raised put) w =
      (BackupReply.unexpected, end_backup id (set_backup_failed now) w)
  end_pg_dump id (Attempt.stored size) w = (
    BackupReply.complete size,
    (sweep_expired_backups cutoff refused
        (end_backup id (set_success (key_of uuids id) size now) w)).1,
  )

  -- `others` is what other sessions commit while the dump runs.
  unfoldable pub run_pg_dump :
      (id : ℕ)
      → (task : Option String) → (counts : List ℕ) → (others : Archive → Archive) → Attempt
      → Archive
      → BackupReply × Archive
  run_pg_dump id task counts others attempt w =
      if is_some (find id w.backups)
      then end_pg_dump id attempt
          (upload_dump uuids id attempt (others (end_backup id (set_running task counts) w)))
      else (BackupReply.not_found, w)

  -- The row of a scheduled backup is committed first; there is no task of its own.
  unfoldable pub run_scheduled_backup :
      (new_id : ℕ)
      → (started_at : ℕ) → (counts : List ℕ) → (others : Archive → Archive) → Attempt
      → Archive
      → BackupReply × Archive
  run_scheduled_backup new_id started counts others attempt w =
      run_pg_dump new_id none counts others attempt (record w {
        backups =
            insert new_id
              (record {
                started_at = started;
                completed_at = none;
                size_bytes = none;
                status = BackupStatus.running;
                storage_key = none;
                celery_task_id = none;
                row_counts = none;
              })
              w.backups;
      })
