-- ===== src/Backups/Model.antt =====
-- The data of backend/internal/domain/backups/service.go. The status that the source calls unknown is
-- one of the named ones; any other text is `other`.
use home_assistant.Base.{
  String, Bool, true, false, Option, none, some, [], ◌∷◌, errorf, Outcome, ok, err, if◌then◌else◌,
}
use home_assistant.Base.Time.{Time, after}
use home_assistant.Commands.Model
use home_assistant.Commands.Model.{RawMessage}

pub data Status : Type 0 where
  requested running succeeded failed timed_out canceled overdue unknown : Status
  other : String → Status

pub record Run : Type 0 where
  pub backup_id : String
  pub account_id : String
  pub site_id : String
  pub device_id : String
  pub command_id : String
  pub artifact_upload_id : String
  pub status : Status
  pub requested_by_user_id : String
  pub reason_code : String
  pub metadata : RawMessage
  pub requested_at : Time
  pub started_at : Option Time
  pub finished_at : Option Time

pub record DeviceStatus : Type 0 where
  pub account_id : String
  pub site_id : String
  pub device_id : String
  pub current_status : Status
  pub last_backup_id : String
  pub in_progress_backup_id : String
  pub last_success_at : Option Time
  pub last_failure_at : Option Time
  pub overdue_after : Option Time
  pub artifact_upload_id : String
  pub reason_code : String
  pub updated_at : Time

pub record TriggerRequest : Type 0 where
  pub account_id : String
  pub site_id : String
  pub device_id : String
  pub requested_by_user_id : String
  pub idempotency_key : String
  pub metadata : RawMessage

-- the result of a command, as it is reported to the backup service
pub record BackupResult : Type 0 where
  pub command_id : String
  pub status : Model.Status
  pub reason_code : String
  pub artifact_upload_id : String
  pub finished_at : Time

unfoldable pub backup_status_from_command_status : Model.Status → Outcome Status
backup_status_from_command_status Model.Status.succeeded = ok succeeded
backup_status_from_command_status Model.Status.failed = ok failed
backup_status_from_command_status Model.Status.timed_out = ok timed_out
backup_status_from_command_status Model.Status.canceled = ok canceled
backup_status_from_command_status status =
    err (errorf "unsupported backup command result status %q" (Model.status_text status ∷ []))

abbrev pub is_open : Status → Bool
is_open requested = true
is_open running = true
is_open _ = false

abbrev pub is_failure : Status → Bool
is_failure failed = true
is_failure timed_out = true
is_failure canceled = true
is_failure _ = false

abbrev pub is_success : Status → Bool
is_success succeeded = true
is_success _ = false

unfoldable pub is_overdue : DeviceStatus → Time → Bool
is_overdue status now = elim status.overdue_after [
  | none ↦ false
  | some limit ↦ if is_open status.current_status then false else after now limit
]
