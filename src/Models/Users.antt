-- ===== src/Models/Users.antt =====
-- Accounts and roles (backend/app/models/user.py).
use bodp_app.Prelude.{ℕ, Bool, true, false, Option, List, String}

pub data UserRoleEnum : Type 0 where
  user admin : UserRoleEnum

pub data UserStatus : Type 0 where
  active suspended deleted : UserStatus

pub record User : Type 0 where
  pub email : String
  pub password_hash : String
  pub full_name : String
  pub institution : Option String
  pub phone : Option String
  pub role : UserRoleEnum
  pub status : UserStatus
  pub email_verified_at : Option ℕ
  pub avatar_key : Option String
  pub bio : Option String
  pub research_area : Option String
  pub datasets_granted : ℕ
  pub deletion_requested_at : Option ℕ

pub record Role : Type 0 where
  pub name : String
  pub permissions : List String

pub record UserRole : Type 0 where
  pub user_id : ℕ
  pub role_id : ℕ

abbrev pub is_admin : UserRoleEnum → Bool
is_admin UserRoleEnum.admin = true
is_admin UserRoleEnum.user = false

abbrev pub is_suspended : UserStatus → Bool
is_suspended UserStatus.suspended = true
is_suspended UserStatus.active = false
is_suspended UserStatus.deleted = false
