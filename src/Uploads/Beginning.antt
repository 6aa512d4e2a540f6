-- ===== src/Uploads/Beginning.antt =====
-- What an accepted upload is planned as, and that each of its parts can be asked for.
use bodp_app.Prelude.{
  ℕ, sym, subst, ◌-◌, ◌*◌, ◌<◌, ◌≤◌, ◌≡◌, refl, true, Option, some, String, arith, Bool-cases,
  Option-cases, is_some, inl, inr,
}
use bodp_app.Scope.{codes}
use bodp_app.Table.{Table, insert, find, find-insert}
use bodp_app.Session.{ok, exec, reply}
use bodp_app.Models.{Upload, is_initiated}
use bodp_app.Database.{Db}
use bodp_app.Storage.{Text, Uuids, raw_key}
use bodp_app.Uploads.Handlers.{part_size_bytes, parts_of, or_else, presign_part}
use bodp_app.Uploads.Start.{
  validate_extension, size_is_valid, started_upload, initiate_multipart_upload,
}
use bodp_app.Uploads.Lifecycle.{parts_of-fits}

parts_of-few : (size mb : ℕ) → size ≤ mb * 1024 * 1024 → mb ≤ 640000 → parts_of size ≤ 10000
unfolding parts_of
parts_of-few size mb h k = omega arith

valid_size :
    (size : ℕ) (mb : Option ℕ) (setting : ℕ)
    → size_is_valid size mb setting ≡ true
    → (0 < size) × (size ≤ or_else mb setting * 1024 * 1024)
unfolding size_is_valid
valid_size size mb setting h = (ground arith, ground arith)

presign_part_open :
    (id k n : ℕ) (u : Upload) (db : Db)
    → find id db.uploads ≡ some u
    → is_initiated u.status ≡ true
    → u.total_parts ≡ some n
    → 1 ≤ k
    → k ≤ n
    → reply (presign_part id k) db ≡ ok u
unfolding presign_part
presign_part_open id k n u db found open_yet total one few = ground arith

found_inserted :
    (id : ℕ) (u : Upload) (t t' : Table Upload) → t' ≡ insert id u t → find id t' ≡ some u
found_inserted id u t t' e = ground (arith, find-insert id id u t)

-- An upload is started only under a dataset that exists, with a name of a supported extension and a
-- size within the limit. Where the limit is at most 640,000 megabytes, it is planned in at most 10,000 parts,
-- which the file fits into and does not fit into with one part fewer, and each of these parts can
-- then be presigned.
pub initiate_multipart_upload-plan :
    (uuids : Uuids) (spell : Text → String) (setting file_id dataset_id size n k : ℕ)
    (filename multipart_id bucket : String) (uploaded_by max_mb : Option ℕ) (db : Db)
    → or_else max_mb setting ≤ 640000
    → reply
        (initiate_multipart_upload uuids spell setting file_id dataset_id filename size uploaded_by
          max_mb multipart_id bucket)
        db
      ≡ ok n
    → 1 ≤ k
    → k ≤ n
    → (is_some (find dataset_id db.datasets) ≡ true)
      × (is_some (validate_extension (codes filename)) ≡ true)
      × (n ≤ 10000)
      × (size ≤ n * part_size_bytes)
      × ((n - 1) * part_size_bytes < size)
      × (reply (presign_part file_id k) (
            exec
              (initiate_multipart_upload uuids spell setting file_id dataset_id filename size
                uploaded_by max_mb multipart_id bucket)
              db)
          ≡ ok (
              started_upload dataset_id filename size uploaded_by multipart_id bucket
                (spell (raw_key uuids dataset_id file_id (codes filename)))))
unfolding initiate_multipart_upload
initiate_multipart_upload-plan uuids spell setting file_id dataset_id size n k filename multipart_id
      bucket uploaded_by max_mb db h e one few =
    elim (Option-cases (find dataset_id db.datasets)) [
      | inl a ↦ absurd (ground arith)
      | inr (d, a) ↦ elim (Bool-cases (is_some (validate_extension (codes filename)))) [
        | inr b ↦ absurd (ground arith)
        | inl b ↦ elim (Bool-cases (size_is_valid size max_mb setting)) [
          | inr c ↦ absurd (ground arith)
          | inl c ↦ elim (Option-cases (find file_id db.uploads)) [
            | inr (old, f) ↦ absurd (ground arith)
            | inl f ↦
                let same : parts_of size ≡ n = ground arith in
                let (some_bytes, within) = valid_size size max_mb setting c in
                let (fits, tight) = parts_of-fits size some_bytes in
                (
                  ground arith,
                  b,
                  subst (λ m. m ≤ 10000) same (parts_of-few size (or_else max_mb setting) within h),
                  subst (λ m. size ≤ m * part_size_bytes) same fits,
                  subst (λ m. (m - 1) * part_size_bytes < size) same tight,
                  presign_part_open file_id k (parts_of size) _ _
                      (found_inserted file_id _ db.uploads _ (ground arith)) refl refl one
                      (subst (λ m. k ≤ m) (sym same) few),
                )
          ]
        ]
      ]
    ]
