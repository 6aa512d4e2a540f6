-- ===== src/Accounts/Granted.antt =====
-- A permission check that passes rests on a role that the account is assigned.
use bodp_app.Prelude.{
  ℕ, ◌≡◌, refl, true, ◌&&◌, ◌||◌, String, List, [], ◌∷◌, ◌++◌, any, arith, ◌==◌, ==_refl, some,
  Bool-cases, inl, inr,
}
use bodp_app.Table.{Table, find, IsKeyed}
use bodp_app.Session.{ok}
use bodp_app.Scope.{contains}
use bodp_app.Models.{User, Role, is_admin}
use bodp_app.Database.{Db}
use bodp_app.Accounts.Permissions.{role_ids, permissions_of, require_permission}

contains_append :
    (xs ys : List String) (p : String) → contains (xs ++ ys) p ≡ (contains xs p || contains ys p)
contains_append [] ys p = refl
contains_append (x ∷ xs) ys p = ground (arith, contains_append xs ys p)

-- A role with one of the keys that lists the permission.
abbrev pub Grants : List ℕ → Table Role → String → Type 0
Grants ids t p =
    (k : ℕ) × (r : Role) × (find k t ≡ some r)
    × (any (λ i. i == k) ids ≡ true)
    × (contains r.permissions p ≡ true)

permissions_of-Grants :
    (ids : List ℕ) (t : Table Role) (p : String)
    → IsKeyed t
    → contains (permissions_of ids t) p ≡ true
    → Grants ids t p
unfolding permissions_of find
permissions_of-Grants ids [] p keyed h = absurd (ground arith)
permissions_of-Grants ids ((k, r) ∷ t) p keyed h =
    elim (Bool-cases (any (λ i. i == k) ids && contains r.permissions p)) [
      | inl here ↦ (k, r, ground (arith, ==_refl k), ground arith, ground arith)
      | inr later ↦
          let (j, s, found, held, lists) =
            permissions_of-Grants ids t p keyed.1
              (ground (arith, contains_append r.permissions (permissions_of ids t) p)) in
          (j, s, ground (arith, keyed.0), held, lists)
    ]

-- The permission check lets an account through only if it is an admin and one of the roles that it
-- is assigned lists the permission.
pub permission_is_granted :
    (permission : String) (user_id : ℕ) (user : User) (db : Db)
    → IsKeyed db.roles
    → require_permission permission user_id user db ≡ ok tt
    → (is_admin user.role ≡ true) × Grants (role_ids user_id db.user_roles) db.roles permission
unfolding require_permission
permission_is_granted permission user_id user db keyed h = (
  ground arith,
  permissions_of-Grants (role_ids user_id db.user_roles) db.roles permission keyed (ground arith),
)
