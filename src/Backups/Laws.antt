-- ===== src/Backups/Laws.antt =====
-- What the backup service relies on.
use home_assistant.Base.{String, none, some, ◌≡◌, Exec, reading}
use home_assistant.Base.Ensures.{Ensures}
use home_assistant.Base.Simulation.{Shows, Quiet}
use home_assistant.Base.Time.{Time}
use home_assistant.Commands.Model.{Command, CreateRequest}
use home_assistant.Backups.Model.{Run, DeviceStatus}
use home_assistant.Backups.Service.{Repository, Service}
use home_assistant.Backups.Lifecycle.{Snapshot, put_run, put_status}

-- The contract of the repository: an error has changed nothing, and a run is created only under an id
-- that is free.
pub record RepositoryLaws {W : Type 0} (view : W → Snapshot) (r : Repository W) : Type 0 where
  pub create_lem :
      (x : Run) (v : Snapshot)
      → Ensures
          (Shows view v)
          (λ _ w. (v.runs x.backup_id ≡ none) × (view w ≡ put_run x v))
          (Shows view v)
          (r.create_run x)
  pub get_lem :
      (id : String) (v : Snapshot)
      → Ensures
          (Shows view v)
          (λ x w. ((v.runs x.backup_id ≡ some x) × (x.command_id ≡ id)) × (view w ≡ v))
          (Shows view v)
          (r.get_run_by_command_id id)
  pub save_lem :
      (x : Run) (v : Snapshot)
      → Ensures (Shows view v) (λ _. Shows view (put_run x v)) (Shows view v) (r.save_run x)
  pub upsert_lem :
      (x : DeviceStatus) (v : Snapshot)
      → Ensures
          (Shows view v)
          (λ _. Shows view (put_status x v))
          (Shows view v)
          (r.upsert_device_status x)

pub record ServiceLaws {W : Type 0} (view : W → Snapshot) (s : Service W) : Type 0 where
  pub repository_lem : (r : Repository W) → s.repository ≡ some r → RepositoryLaws view r
  pub creator_lem :
      (f : CreateRequest → Exec W Command) (req : CreateRequest)
      → s.command_creator ≡ some f
      → Quiet view (f req)
  pub clock_lem : (f : W → Time × W) → s.clock ≡ some f → Quiet view (reading f)
  pub wall_clock_lem : Quiet view (reading s.wall_clock)
  pub id_generator_lem : (f : W → String × W) → s.id_generator ≡ some f → Quiet view (reading f)
