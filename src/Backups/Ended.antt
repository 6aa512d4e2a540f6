-- ===== src/Backups/Ended.antt =====
-- How a backup stands after its task (backend/app/worker/tasks/backups.py).
use bodp_app.Prelude.{ℕ, ◌≡◌, Bool, false, some}
use bodp_app.Table.{find}
use bodp_app.Storage.{Text, Uuids}
use bodp_app.Backups.{BackupStatus, BackupRow, Archive, Attempt, BackupReply, is_expired, key_of}

-- The row as this attempt leaves it.
unfoldable pub Ended : Text → (now : ℕ) → Attempt → BackupRow → Type 0
Ended key now Attempt.pg_dump_failed b =
    (b.status ≡ BackupStatus.failed) × (b.completed_at ≡ some now)
Ended key now (Attempt.raised put) b =
    (b.status ≡ BackupStatus.failed) × (b.completed_at ≡ some now)
Ended key now (Attempt.stored size) b =
    (b.status ≡ BackupStatus.success)
    × (b.storage_key ≡ some key)
    × (b.size_bytes ≡ some size)
    × (b.completed_at ≡ some now)

abbrev pub reply_of : Attempt → BackupReply
reply_of Attempt.pg_dump_failed = BackupReply.dump_failed
reply_of (Attempt.raised put) = BackupReply.unexpected
reply_of (Attempt.stored size) = BackupReply.complete size

-- The row is there, and began within the time of retention.
abbrev pub IsKept : (cutoff id : ℕ) → Archive → Type 0
IsKept cutoff id w = (b : BackupRow) × (find id w.backups ≡ some b) × (is_expired cutoff b ≡ false)

module _ (uuids : Uuids) (cutoff now : ℕ) (refused : Text → Bool) (id : ℕ) where
  -- The row, and the reply.
  abbrev pub HasEnded : Attempt → BackupReply × Archive → Type 0
  HasEnded attempt (reply, w) =
      (reply ≡ reply_of attempt)
      × ((b : BackupRow) × (find id w.backups ≡ some b) × Ended (key_of uuids id) now attempt b)
