-- ===== src/Accounts/Permissions.antt =====
-- The permission checks of the admin endpoints (backend/app/core/permissions.py).
use bodp_app.Prelude.{ℕ, not, String, List, [], ◌∷◌, ◌++◌, any, ◌==◌, if◌then◌else◌}
use bodp_app.Table.{Table}
use bodp_app.Session.{Result, ok, err, http}
use bodp_app.Scope.{contains}
use bodp_app.Models.{User, Role, UserRole, is_admin}
use bodp_app.Database.{Db}

-- The roles that an account is assigned, by key.
unfoldable pub role_ids : (user_id : ℕ) → Table UserRole → List ℕ
role_ids user_id [] = []
role_ids user_id ((k, r) ∷ t) =
    let rest = role_ids user_id t in if r.user_id == user_id then r.role_id ∷ rest else rest

-- The union of the permissions of the roles with these keys.
unfoldable pub permissions_of : List ℕ → Table Role → List String
permissions_of ids [] = []
permissions_of ids ((k, r) ∷ t) =
    let rest = permissions_of ids t in if any (λ i. i == k) ids then r.permissions ++ rest else rest

abbrev pub get_user_permissions : (user_id : ℕ) → Db → List String
get_user_permissions user_id db = permissions_of (role_ids user_id db.user_roles) db.roles

unfoldable pub require_permission : String → (user_id : ℕ) → User → Db → Result (Unit {0})
require_permission permission user_id user db =
    if not (is_admin user.role)
    then err (http 403)
    else if not (contains (get_user_permissions user_id db) permission)
    then err (http 403)
    else ok tt

unfoldable pub require_admin : User → Result (Unit {0})
require_admin user = if is_admin user.role then ok tt else err (http 403)

-- One of the permissions is enough.
unfoldable pub require_any_permission : List String → (user_id : ℕ) → User → Db → Result (Unit {0})
require_any_permission permissions user_id user db =
    if not (is_admin user.role)
    then err (http 403)
    else if not (any (contains (get_user_permissions user_id db)) permissions)
    then err (http 403)
    else ok tt
