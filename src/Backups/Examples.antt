-- ===== src/Backups/Examples.antt =====
-- Runs of the backup service over its repository in memory, and its theorems at them.
use home_assistant.Base.{
  ℕ, none, some, List, [], ◌∷◌, ◌≡◌, refl, ok, arith, ◌>>=◌, trim_space, codes,
}
use home_assistant.Base.Json
use home_assistant.Base.Ensures.{Settles}
use home_assistant.Base.Simulation.{Keeps}
use home_assistant.Base.Sources.{clock_or, generated_id}
use home_assistant.Commands.Model.{
  Command, queued, default_definitions, trigger_backup as trigger_backup_type,
}
use home_assistant.Commands.Model as CommandModel
use home_assistant.Commands.Updates.{normalize_payload, validate_command, new_command}
use home_assistant.Commands.Service as CommandService
use home_assistant.Backups.Model.{
  Run, TriggerRequest, BackupResult, requested, succeeded, backup_status_from_command_status,
  is_overdue,
}
use home_assistant.Backups.Service.{trigger_backup, record_command_result}
use home_assistant.Backups.Lifecycle.{Step, put_run, put_status}
use home_assistant.Backups.Results.{IsTriggered, IsFinished}
use home_assistant.Backups.Contracts.{trigger_backup_contract, record_command_result_contract}
use home_assistant.Backups.Calls.{Call, perform, serve, AllTold, serve-AllTold}
use home_assistant.Backups.Commanded.{IsCommandOf, trigger_backup-IsCommandOf}
use home_assistant.Backups.Memory.{Memory, view, memory_repository, commands, service, service_laws}

-- What a run computes through.
machinery : ℕ
unfolding trigger_backup record_command_result clock_or generated_id memory_repository ◌>>=◌
    trim_space Json.valid backup_status_from_command_status is_overdue perform serve
    CommandService.create CommandService.now CommandService.new_command_id
    CommandService.definition_for default_definitions normalize_payload validate_command new_command
machinery = 0

abbrev request : TriggerRequest
request = record {
  account_id = "a1";
  site_id = "s1";
  device_id = " d1";
  requested_by_user_id = "u1";
  idempotency_key = "k1";
  metadata = [];
}

abbrev result : BackupResult
result = record {
  command_id = "command-1";
  status = CommandModel.Status.succeeded;
  reason_code = "";
  artifact_upload_id = "upload-1";
  finished_at = 0;
}

abbrev empty : Memory
empty = record { slot = none; statuses = λ device. none; time = 1_000 }

abbrev run : Run
run = record {
  backup_id = "backup-1";
  account_id = "a1";
  site_id = "s1";
  device_id = "d1";
  command_id = "command-1";
  artifact_upload_id = "";
  status = requested;
  requested_by_user_id = "u1";
  reason_code = "";
  metadata = Json.empty_object;
  requested_at = 1_000;
  started_at = none;
  finished_at = none;
}

abbrev command : Command
command = record {
  command_id = "command-1";
  account_id = "a1";
  site_id = "s1";
  device_id = "d1";
  command_type = trigger_backup_type;
  status = queued;
  idempotency_key = "k1";
  requested_by_user_id = "u1";
  payload = codes "{\"backup_scope\":\"home_assistant\"}";
  ack_deadline_at = 15_000_001_000;
  result_deadline_at = 1_800_000_001_000;
  queued_at = 1_000;
  sent_at = none;
  acked_at = none;
  terminal_at = none;
  created_at = 1_000;
  updated_at = 1_000;
}

triggered_run : (trigger_backup service request empty).0 ≡ ok (run, command)
unfolding machinery
triggered_run = refl

abbrev started : Memory
started = record empty { slot = some run; time = 2_000 }

completed_run :
    (view (record_command_result service result started).1).runs "backup-1"
    ≡ some (record run {
      status = succeeded;
      artifact_upload_id = "upload-1";
      finished_at = some 2_000;
    })
unfolding machinery
completed_run = refl

trigger_backup_contract_example :
    Settles
      (λ x u.
        (t : IsTriggered service request (view empty) x.0 x.1) × (view u
          ≡ put_status t.report (put_run x.0 (view empty))))
      (Keeps view Step (view empty))
      (trigger_backup service request empty).0
      (trigger_backup service request empty).1
trigger_backup_contract_example = trigger_backup_contract view service service_laws request empty

record_command_result_contract_example :
    Settles
      (λ x u.
        IsFinished service (view started) result x.0 x.1
        × (view u ≡ put_status x.1 (put_run x.0 (view started))))
      (Keeps view Step (view started))
      (record_command_result service result started).0
      (record_command_result service result started).1
record_command_result_contract_example =
    record_command_result_contract view service service_laws result started

none_told : AllTold (view empty)
none_told device x h = absurd (ground arith)

abbrev calls : List Call
calls = Call.trigger_backup request ∷ Call.record_command_result result ∷ []

serve-AllTold_example : AllTold (view (serve service calls empty))
serve-AllTold_example = serve-AllTold view service service_laws calls empty none_told

trigger_backup-IsCommandOf_example : IsCommandOf run command
trigger_backup-IsCommandOf_example =
    trigger_backup-IsCommandOf view service service_laws commands refl request empty run command
      triggered_run
