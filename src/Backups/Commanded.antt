-- ===== src/Backups/Commanded.antt =====
-- The backup service with the command service as its creator of commands.
use mathlib.Core.Option.{some-injective}
use home_assistant.Base.{
  String, some, ◌≡◌, ◌<◌, sym, ◌∙◌, ap, ok, Exec, trim_space, trim_space_idem,
}
use home_assistant.Base.Ensures.{Settles-ok}
use home_assistant.Commands.Model.{
  Command, CreateRequest, queued, trigger_backup as trigger_backup_type,
}
use home_assistant.Commands.Service.{Service as CommandService, create}
use home_assistant.Commands.Creation.{IsComplete, create-IsComplete}
use home_assistant.Backups.Model.{Run, TriggerRequest}
use home_assistant.Backups.Service.{Service, trigger_backup}
use home_assistant.Backups.Lifecycle.{Snapshot}
use home_assistant.Backups.Laws.{ServiceLaws}
use home_assistant.Backups.Results.{IsRequestFor, IsNewRun}
use home_assistant.Backups.Contracts.{trigger_backup_contract}

-- The command of a run: queued to take a backup of the run's device.
pub record IsCommandOf (run : Run) (command : Command) : Type 0 where
  pub command_id : run.command_id ≡ command.command_id
  pub account_id : run.account_id ≡ command.account_id
  pub site_id : run.site_id ≡ command.site_id
  pub device_id : run.device_id ≡ command.device_id
  pub kind : command.command_type ≡ trigger_backup_type
  pub status : command.status ≡ queued
  pub ack_window : command.queued_at < command.ack_deadline_at
  pub result_window : command.ack_deadline_at < command.result_deadline_at

created_lem :
    {W : Type 0} (commands : CommandService W) (f : CreateRequest → Exec W Command)
    (req : CreateRequest) (w : W) (c : Command)
    → some (create commands) ≡ some f
    → (f req w).0 ≡ ok c
    → IsComplete req c
created_lem commands f req w c e h =
    create-IsComplete commands req w c (ap (λ g. (g req w).0) (some-injective _ _ e) ∙ h)

command_lem :
    (req : TriggerRequest) (run : Run) (c : Command) (asked : CreateRequest)
    → IsNewRun req c run
    → IsRequestFor req run asked
    → IsComplete asked c
    → IsCommandOf run c
command_lem req run c asked n a h = record {
  command_id = n.command_id;
  account_id = same_lem req.account_id n.account_id a.account_id h.account;
  site_id = same_lem req.site_id n.site_id a.site_id h.site;
  device_id = same_lem req.device_id n.device_id a.device_id h.device;
  kind = h.kind ∙ a.kind;
  status = h.status;
  ack_window = h.ack_window;
  result_window = h.result_window;
}
  where
    same_lem :
        (raw : String) {x y z : String} → x ≡ trim_space raw → y ≡ x → z ≡ trim_space y → x ≡ z
    same_lem raw e d f = e ∙ sym (f ∙ ap trim_space (d ∙ e) ∙ trim_space_idem raw)

-- Where the backup service creates commands by the command service, the command that TriggerBackup
-- returns with a run is queued to take a backup, with its acknowledgement and its result due in this
-- order; it is for the account, the site and the device of the run, and the run has its id. The backup
-- service meets its laws.
pub trigger_backup-IsCommandOf :
    {W : Type 0} (view : W → Snapshot) (s : Service W) (laws : ServiceLaws view s)
    (commands : CommandService W)
    → s.command_creator ≡ some (create commands)
    → (req : TriggerRequest) (w : W) (run : Run) (command : Command)
    → (trigger_backup s req w).0 ≡ ok (run, command)
    → IsCommandOf run command
trigger_backup-IsCommandOf view s laws commands creator req w run command h =
    let (t, _) =
      Settles-ok _ _ (trigger_backup s req w).0 (trigger_backup s req w).1 (run, command)
        (trigger_backup_contract view s laws req w) h in
    command_lem req run command t.asked t.is_new t.is_request (
      created_lem commands t.create_command t.asked t.world command (sym creator ∙ t.is_creator)
        t.is_created)
