-- ===== src/Tests/DatasetTests.antt =====
-- A dataset created, two codes at the end of the range, and a deletion.
use bodp_app.Prelude.{arith, ℕ, ◌+◌, ◌≡◌, refl, false, some, none, [], ◌∷◌}
use bodp_app.Scope.{codes}
use bodp_app.Table.{find, rows_of, keys_where, delete, delete_where, update, update_where}
use bodp_app.Session.{ok, err, http, run, exec, reply}
use bodp_app.Models.{DatasetStatus}
use bodp_app.Database.{Db}
use bodp_app.Catalog.{filter}
use bodp_app.Requests.{revoke_grant, revoke_grants, take_away}
use bodp_app.Storage.{text_eq}
use bodp_app.Datasets.{
  DatasetCreate, new_dataset, code_of, generate_code, highest_number, is_taken, is_auto_code,
  is_digit, number_of, create_dataset, permanently_delete_dataset, cascade,
}
use bodp_app.Datasets.Numbering.{create_dataset-numbered, no_code_left}
use bodp_app.Datasets.Deletion.{IsGone, permanently_delete_dataset-IsGone}
use bodp_app.Tests.Fixtures.{db, dataset}

abbrev payload : DatasetCreate
payload = record { title = "Waves"; code = none; status = DatasetStatus.draft }

abbrev draw : ℕ → ℕ
draw n = 20 + n

code_8 :
    generate_code (
      dataset
      ∷ record dataset { code = codes "BD-MOD" }
      ∷ record dataset { code = codes "BD-0007" }
      ∷ [])
    ≡ codes "BD-0008"
unfolding code_of highest_number is_auto_code is_digit number_of
code_8 = refl

abbrev full_db : Db
full_db = record db {
  datasets =
      (5, record dataset { code = codes "BD-9999" })
      ∷ (6, record dataset { code = codes "BD-10000" })
      ∷ [];
}

create_dataset-numbered_example :
    (reply (create_dataset draw payload 2) db ≡ ok (draw 4))
    × (find (draw 4) (exec (create_dataset draw payload 2) db).datasets
        ≡ some (new_dataset payload (generate_code (rows_of db.datasets))))
    × (is_taken (generate_code (rows_of db.datasets)) (rows_of db.datasets) ≡ false)
unfolding highest_number is_auto_code is_digit number_of rows_of find
create_dataset-numbered_example = create_dataset-numbered draw payload 2 db refl (omega arith) refl

no_code_left_example : run (create_dataset draw payload 2) full_db ≡ (err (http 409), full_db)
unfolding highest_number is_auto_code is_digit number_of rows_of is_taken text_eq
no_code_left_example = no_code_left draw payload 2 full_db refl refl refl

permanently_delete_dataset-IsGone_example : IsGone 5 (exec (permanently_delete_dataset 2 5) db)
unfolding permanently_delete_dataset cascade revoke_grants revoke_grant take_away find keys_where
    rows_of delete delete_where update update_where filter
permanently_delete_dataset-IsGone_example = permanently_delete_dataset-IsGone 2 5 db (refl, tt) refl
