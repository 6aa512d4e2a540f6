-- ===== src/Models/Logs.antt =====
-- The audit log, failed logins, sessions and notifications (backend/app/models/audit.py and
-- notifications.py). A log is a list, newest first.
use bodp_app.Prelude.{ℕ, Bool, Option, String, is_some}

pub data AuditActionType : Type 0 where
  approve reject revoke user dataset content login : AuditActionType

-- The text of an entry (`action`, `target`) is kept as the key of the row that it names.
pub record AuditLogEntry : Type 0 where
  pub actor_id : ℕ
  pub action_type : AuditActionType
  pub target : ℕ

pub record FailedLogin : Type 0 where
  pub email_attempted : String
  pub reason : String
  pub created_at : ℕ

pub record ActiveSession : Type 0 where
  pub user_id : ℕ
  pub refresh_token_jti : String
  pub last_active_at : ℕ
  pub revoked_at : Option ℕ

pub record Notification : Type 0 where
  pub user_id : ℕ
  pub title : String

abbrev pub is_revoked : ActiveSession → Bool
is_revoked s = is_some s.revoked_at
