-- ===== src/Backups/Service.antt =====
-- The operations of backend/internal/domain/backups/service.go, over a world `W` on which the
-- repository, the creator of commands, the clock and the id generator act.
use home_assistant.Base.{
  String, not, ◌||◌, Option, none, some, [], is_empty, trim_space, codes, if◌then◌else◌, errorf,
  Exec, returns, lift, wrapping, ensure, present, ◌>>=◌, ◌>>◌,
}
use home_assistant.Base.Json
use home_assistant.Base.Sources.{clock_or, generated_id}
use home_assistant.Base.Time.{Time, is_zero}
use home_assistant.Commands.Model.{Command, CreateRequest, trigger_backup as trigger_backup_type}
use home_assistant.Backups.Model.{
  Status, requested, Run, DeviceStatus, TriggerRequest, BackupResult,
  backup_status_from_command_status, is_failure, is_success,
}

pub record Repository (W : Type 0) : Type 0 where
  pub create_run : Run → Exec W (Unit {0})
  pub get_run_by_command_id : String → Exec W Run
  pub save_run : Run → Exec W (Unit {0})
  pub upsert_device_status : DeviceStatus → Exec W (Unit {0})

pub record Service (W : Type 0) : Type 0 where
  pub repository : Option (Repository W)
  pub command_creator : Option (CreateRequest → Exec W Command)
  pub id_generator : Option (W → String × W)
  pub clock : Option (W → Time × W)
  pub wall_clock : W → Time × W

-- The command that a backup asks for.
abbrev pub command_request : TriggerRequest → CreateRequest
command_request req = record {
  command_id = "";
  account_id = trim_space req.account_id;
  site_id = trim_space req.site_id;
  device_id = trim_space req.device_id;
  command_type = trigger_backup_type;
  idempotency_key = trim_space req.idempotency_key;
  requested_by_user_id = trim_space req.requested_by_user_id;
  payload = codes "{\"backup_scope\":\"home_assistant\"}";
}

abbrev pub new_run : String → TriggerRequest → Time → Command → Run
new_run id req t command = record {
  backup_id = id;
  account_id = trim_space req.account_id;
  site_id = trim_space req.site_id;
  device_id = trim_space req.device_id;
  command_id = command.command_id;
  artifact_upload_id = "";
  status = requested;
  requested_by_user_id = trim_space req.requested_by_user_id;
  reason_code = "";
  metadata = Json.or_empty_object req.metadata;
  requested_at = t;
  started_at = none;
  finished_at = none;
}

abbrev pub requested_status : Run → DeviceStatus
requested_status run = record {
  account_id = run.account_id;
  site_id = run.site_id;
  device_id = run.device_id;
  current_status = requested;
  last_backup_id = run.backup_id;
  in_progress_backup_id = run.backup_id;
  last_success_at = none;
  last_failure_at = none;
  overdue_after = none;
  artifact_upload_id = "";
  reason_code = "";
  updated_at = run.requested_at;
}

abbrev pub finished_at_or : BackupResult → Time → Time
finished_at_or result t = if is_zero result.finished_at then t else result.finished_at

abbrev pub finished_run : BackupResult → Status → Time → Run → Run
finished_run result status t run = record run {
  status = status;
  reason_code = trim_space result.reason_code;
  artifact_upload_id = trim_space result.artifact_upload_id;
  finished_at = some (finished_at_or result t);
}

-- the status of a device after a run is finished
abbrev pub finished_status : Time → Run → DeviceStatus
finished_status t run = record {
  account_id = run.account_id;
  site_id = run.site_id;
  device_id = run.device_id;
  current_status = run.status;
  last_backup_id = run.backup_id;
  in_progress_backup_id = "";
  last_success_at = if is_success run.status then run.finished_at else none;
  last_failure_at = if is_failure run.status then run.finished_at else none;
  overdue_after = none;
  artifact_upload_id = run.artifact_upload_id;
  reason_code = run.reason_code;
  updated_at = t;
}

module _ {W : Type 0} where
  unfoldable pub trigger_backup : Service W → TriggerRequest → Exec W (Run × Command)
  trigger_backup s req = do
    repository ← present s.repository (errorf "backup repository is required" [])
    create_command ← present s.command_creator (errorf "command creator is required" [])
    t ← clock_or s.clock s.wall_clock
    id ←
        generated_id s.id_generator (errorf "backup id generator is required" [])
          (errorf "backup id is required" [])
    ensure (Json.valid (Json.or_empty_object req.metadata))
        (errorf "metadata must be valid JSON" [])
    ensure
        (not (
          is_empty (trim_space req.account_id)
          || is_empty (trim_space req.site_id)
          || is_empty (trim_space req.device_id)))
        (errorf "account_id, site_id, and device_id are required" [])
    command ← wrapping "create backup command" (create_command (command_request req))
    let run = new_run id req t command
    wrapping "create backup run" (repository.create_run run)
    wrapping "update backup status" (repository.upsert_device_status (requested_status run))
    returns (run, command)

  unfoldable pub record_command_result : Service W → BackupResult → Exec W (Run × DeviceStatus)
  record_command_result s result = do
    repository ← present s.repository (errorf "backup repository is required" [])
    run ←
        wrapping "load backup run" (repository.get_run_by_command_id (trim_space result.command_id))
    status ← lift (backup_status_from_command_status result.status)
    t ← clock_or s.clock s.wall_clock
    let run' = finished_run result status t run
    wrapping "save backup run" (repository.save_run run')
    wrapping "update backup status" (repository.upsert_device_status (finished_status t run'))
    returns (run', finished_status t run')
