-- ===== src/Backups/Lifecycle.antt =====
-- What the backup service's repository holds, and how it may change.
use home_assistant.Base.{String, Option, none, some, ◌≡◌, ◌⊎◌, ◌==◌, if◌then◌else◌}
use home_assistant.Backups.Model.{requested, Run, DeviceStatus}

-- The runs by their ids, and the statuses by their devices.
pub record Snapshot : Type 0 where
  pub runs : String → Option Run
  pub statuses : String → Option DeviceStatus

abbrev pub put_run : Run → Snapshot → Snapshot
put_run r v = record v { runs = λ id. if r.backup_id == id then some r else v.runs id }

abbrev pub put_status : DeviceStatus → Snapshot → Snapshot
put_status x v = record v { statuses = λ id. if x.device_id == id then some x else v.statuses id }

-- A run is another's continuation: only its status, its reason, its artifact and its end may differ.
pub record SameRun (a b : Run) : Type 0 where
  pub backup_id : b.backup_id ≡ a.backup_id
  pub account_id : b.account_id ≡ a.account_id
  pub site_id : b.site_id ≡ a.site_id
  pub device_id : b.device_id ≡ a.device_id
  pub command_id : b.command_id ≡ a.command_id
  pub requested_by_user_id : b.requested_by_user_id ≡ a.requested_by_user_id
  pub requested_at : b.requested_at ≡ a.requested_at

-- The status of a device tells of a run of this device.
pub record Tells (x : DeviceStatus) (r : Run) : Type 0 where
  pub account_id : x.account_id ≡ r.account_id
  pub site_id : x.site_id ≡ r.site_id
  pub device_id : x.device_id ≡ r.device_id
  pub last_backup_id : x.last_backup_id ≡ r.backup_id
  pub in_progress : (x.in_progress_backup_id ≡ "") ⊎ (x.in_progress_backup_id ≡ r.backup_id)

pub data Step (v : Snapshot) : Snapshot → Type 0 where
  request : (r : Run) → v.runs r.backup_id ≡ none → r.status ≡ requested → Step v (put_run r v)
  finish : (a r : Run) → v.runs a.backup_id ≡ some a → SameRun a r → Step v (put_run r v)
  report :
      (x : DeviceStatus) (r : Run)
      → v.runs r.backup_id ≡ some r
      → Tells x r
      → x.current_status ≡ r.status
      → Step v (put_status x v)
