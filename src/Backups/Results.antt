-- ===== src/Backups/Results.antt =====
-- What each operation of the backup service is to return and to leave behind.
use home_assistant.Base.{
  ◌<◌, true, false, none, some, ◌≡◌, ◌⊎◌, Exec, ok, is_empty, trim_space, codes,
}
use home_assistant.Base.Json
use home_assistant.Base.Sources.{clock_or}
use home_assistant.Base.Time.{Time}
use home_assistant.Commands.Model
use home_assistant.Commands.Model.{Command, CreateRequest}
use home_assistant.Backups.Model.{
  Status, requested, succeeded, failed, timed_out, canceled, Run, DeviceStatus, TriggerRequest,
  BackupResult,
}
use home_assistant.Backups.Service.{Service}
use home_assistant.Backups.Lifecycle.{Snapshot, SameRun, Tells}

-- The command that is asked for a run.
pub record IsRequestFor (req : TriggerRequest) (run : Run) (asked : CreateRequest) : Type 0 where
  pub command_id : asked.command_id ≡ ""
  pub account_id : asked.account_id ≡ run.account_id
  pub site_id : asked.site_id ≡ run.site_id
  pub device_id : asked.device_id ≡ run.device_id
  pub kind : asked.command_type ≡ Model.trigger_backup
  pub idempotency_key : asked.idempotency_key ≡ trim_space req.idempotency_key
  pub requested_by_user_id : asked.requested_by_user_id ≡ run.requested_by_user_id
  pub payload : asked.payload ≡ codes "{\"backup_scope\":\"home_assistant\"}"

-- A run as it is requested, for a command.
pub record IsNewRun (req : TriggerRequest) (command : Command) (run : Run) : Type 0 where
  pub command_id : run.command_id ≡ command.command_id
  pub status : run.status ≡ requested
  pub account_id : run.account_id ≡ trim_space req.account_id
  pub site_id : run.site_id ≡ trim_space req.site_id
  pub device_id : run.device_id ≡ trim_space req.device_id
  pub requested_by_user_id : run.requested_by_user_id ≡ trim_space req.requested_by_user_id
  pub metadata : run.metadata ≡ Json.or_empty_object req.metadata
  pub artifact_upload_id : run.artifact_upload_id ≡ ""
  pub reason_code : run.reason_code ≡ ""
  pub started_at : run.started_at ≡ none
  pub finished_at : run.finished_at ≡ none

-- The status of a device whose backup is requested.
pub record IsOpened (run : Run) (x : DeviceStatus) : Type 0 where
  pub tells : Tells x run
  pub current_status : x.current_status ≡ requested
  pub in_progress : x.in_progress_backup_id ≡ run.backup_id
  pub last_success_at : x.last_success_at ≡ none
  pub last_failure_at : x.last_failure_at ≡ none
  pub overdue_after : x.overdue_after ≡ none
  pub artifact_upload_id : x.artifact_upload_id ≡ ""
  pub reason_code : x.reason_code ≡ ""
  pub updated_at : x.updated_at ≡ run.requested_at

-- A run that was requested, the command that the creator answered for it, and the status of its device.
pub record IsTriggered {W : Type 0} (s : Service W) (req : TriggerRequest) (v : Snapshot)
    (run : Run) (command : Command) : Type 0 where
  pub is_new : IsNewRun req command run
  pub reading_world : W
  pub is_time : (clock_or s.clock s.wall_clock reading_world).0 ≡ ok run.requested_at
  pub fresh : v.runs run.backup_id ≡ none
  pub identified : is_empty run.backup_id ≡ false
  pub account : is_empty run.account_id ≡ false
  pub site : is_empty run.site_id ≡ false
  pub device : is_empty run.device_id ≡ false
  pub valid : Json.valid run.metadata ≡ true
  pub report : DeviceStatus
  pub opened : IsOpened run report
  pub create_command : CreateRequest → Exec W Command
  pub is_creator : s.command_creator ≡ some create_command
  pub asked : CreateRequest
  pub is_request : IsRequestFor req run asked
  pub world : W
  pub is_created : (create_command asked world).0 ≡ ok command

-- The status of a run for the status of its command.
pub data IsStatusOf : Model.Status → Status → Type 0 where
  of_succeeded : IsStatusOf Model.Status.succeeded succeeded
  of_failed : IsStatusOf Model.Status.failed failed
  of_timed_out : IsStatusOf Model.Status.timed_out timed_out
  of_canceled : IsStatusOf Model.Status.canceled canceled

-- A run with the outcome, the reason, the artifact and the end that a result says. Where it says no
-- end, the run ends at the time.
pub record IsFinishedRun (result : BackupResult) (time : Time) (existing run : Run) : Type 0 where
  pub same : SameRun existing run
  pub metadata : run.metadata ≡ existing.metadata
  pub started_at : run.started_at ≡ existing.started_at
  pub status : IsStatusOf result.status run.status
  pub reason_code : run.reason_code ≡ trim_space result.reason_code
  pub artifact_upload_id : run.artifact_upload_id ≡ trim_space result.artifact_upload_id
  pub finished_at :
      ((result.finished_at ≡ 0) × (run.finished_at ≡ some time))
      ⊎ ((0 < result.finished_at) × (run.finished_at ≡ some result.finished_at))

-- The end of a run is that of the last success or that of the last failure.
pub data IsDated (run : Run) (x : DeviceStatus) : Type 0 where
  success :
      run.status ≡ succeeded
      → x.last_success_at ≡ run.finished_at
      → x.last_failure_at ≡ none
      → IsDated run x
  failure :
      (run.status ≡ failed) ⊎ (run.status ≡ timed_out) ⊎ (run.status ≡ canceled)
      → x.last_success_at ≡ none
      → x.last_failure_at ≡ run.finished_at
      → IsDated run x

-- The status of a device whose backup is finished.
pub record IsClosed (time : Time) (run : Run) (x : DeviceStatus) : Type 0 where
  pub tells : Tells x run
  pub current_status : x.current_status ≡ run.status
  pub in_progress : x.in_progress_backup_id ≡ ""
  pub dated : IsDated run x
  pub overdue_after : x.overdue_after ≡ none
  pub artifact_upload_id : x.artifact_upload_id ≡ run.artifact_upload_id
  pub reason_code : x.reason_code ≡ run.reason_code
  pub updated_at : x.updated_at ≡ time

-- A run that is stored under the command's id and finished as the result says, and the status of its
-- device.
pub record IsFinished {W : Type 0} (s : Service W) (v : Snapshot) (result : BackupResult)
    (run : Run) (x : DeviceStatus) : Type 0 where
  pub existing : Run
  pub found : v.runs existing.backup_id ≡ some existing
  pub command : existing.command_id ≡ trim_space result.command_id
  pub time : Time
  pub reading_world : W
  pub is_time : (clock_or s.clock s.wall_clock reading_world).0 ≡ ok time
  pub is_finished : IsFinishedRun result time existing run
  pub closed : IsClosed time run x
