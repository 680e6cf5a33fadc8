-- ===== src/Backups/Outcomes.antt =====
-- The runs and the device statuses that the backup service makes are what its results are to be.
use home_assistant.Base.{
  ◌<◌, String, none, some, ◌≡◌, ◌⊎◌, inl, inr, refl, ok, Bool-cases, arith, subst, ap, Bool, Option,
  if◌then◌else◌,
}
use home_assistant.Base.Time.{Time, is_zero}
use home_assistant.Commands.Model
use home_assistant.Commands.Model.{Command, CreateRequest}
use home_assistant.Backups.Model.{
  Status, succeeded, failed, timed_out, canceled, Run, TriggerRequest, BackupResult, is_success,
  is_failure, backup_status_from_command_status,
}
use home_assistant.Backups.Service.{
  command_request, new_run, requested_status, finished_at_or, finished_run, finished_status,
}
use home_assistant.Backups.Results.{
  IsRequestFor, IsNewRun, IsOpened, IsStatusOf, of_succeeded, of_failed, of_timed_out, of_canceled,
  IsFinishedRun, IsDated, success, failure, IsClosed,
}

pub command_request_lem :
    (id : String) (req : TriggerRequest) (t : Time) (c : Command)
    → IsRequestFor req (new_run id req t c) (command_request req)
command_request_lem id req t c = record {
  command_id = refl;
  account_id = refl;
  site_id = refl;
  device_id = refl;
  kind = refl;
  idempotency_key = refl;
  requested_by_user_id = refl;
  payload = refl;
}

pub new_run_lem :
    (id : String) (req : TriggerRequest) (t : Time) (c : Command)
    → IsNewRun req c (new_run id req t c)
new_run_lem id req t c = record {
  command_id = refl;
  status = refl;
  account_id = refl;
  site_id = refl;
  device_id = refl;
  requested_by_user_id = refl;
  metadata = refl;
  artifact_upload_id = refl;
  reason_code = refl;
  started_at = refl;
  finished_at = refl;
}

pub requested_status_lem : (run : Run) → IsOpened run (requested_status run)
requested_status_lem run = record {
  tells = ground arith;
  current_status = refl;
  in_progress = refl;
  last_success_at = refl;
  last_failure_at = refl;
  overdue_after = refl;
  artifact_upload_id = refl;
  reason_code = refl;
  updated_at = refl;
}

ok_eq {ℓ} : {A : Type ℓ} {a b : A} → ok a ≡ ok b → a ≡ b
ok_eq h = cc

status_lem :
    (c : Model.Status) (x : Status) → backup_status_from_command_status c ≡ ok x → IsStatusOf c x
unfolding backup_status_from_command_status
status_lem Model.Status.succeeded x h =
    subst (IsStatusOf Model.Status.succeeded) (ok_eq h) of_succeeded
status_lem Model.Status.failed x h = subst (IsStatusOf Model.Status.failed) (ok_eq h) of_failed
status_lem Model.Status.timed_out x h =
    subst (IsStatusOf Model.Status.timed_out) (ok_eq h) of_timed_out
status_lem Model.Status.canceled x h =
    subst (IsStatusOf Model.Status.canceled) (ok_eq h) of_canceled
status_lem Model.Status.queued x h = absurd cc
status_lem Model.Status.sent x h = absurd cc
status_lem Model.Status.ack_accepted x h = absurd cc
status_lem Model.Status.ack_rejected x h = absurd cc
status_lem Model.Status.ack_timed_out x h = absurd cc
status_lem Model.Status.running x h = absurd cc
status_lem (Model.Status.unknown name) x h = absurd cc

ended_lem :
    (result : BackupResult) (t : Time)
    → ((result.finished_at ≡ 0) × (some (finished_at_or result t) ≡ some t))
      ⊎ ((0 < result.finished_at) × (some (finished_at_or result t) ≡ some result.finished_at))
ended_lem result t = elim (Bool-cases (is_zero result.finished_at)) [
  | inl e ↦ inl (ground arith, rw e refl)
  | inr e ↦ inr (ground arith, rw e refl)
]

pub finished_run_lem :
    (result : BackupResult) (status : Status) (t : Time) (existing : Run)
    → backup_status_from_command_status result.status ≡ ok status
    → IsFinishedRun result t existing (finished_run result status t existing)
finished_run_lem result status t existing h = record {
  same = ground arith;
  metadata = refl;
  started_at = refl;
  status = status_lem result.status status h;
  reason_code = refl;
  artifact_upload_id = refl;
  finished_at = ended_lem result t;
}

ended_status_lem :
    (c : Model.Status) (x : Status)
    → IsStatusOf c x
    → (x ≡ succeeded) ⊎ ((x ≡ failed) ⊎ (x ≡ timed_out) ⊎ (x ≡ canceled))
ended_status_lem _ _ of_succeeded = inl refl
ended_status_lem _ _ of_failed = inr (inl refl)
ended_status_lem _ _ of_timed_out = inr (inr (inl refl))
ended_status_lem _ _ of_canceled = inr (inr (inr refl))

-- where the status has a date, and where not
pick :
    (f : Status → Bool) (o : Option Time) {x y : Status}
    → x ≡ y
    → (if f x then o else none) ≡ (if f y then o else none)
pick f o e = ap (λ st. if f st then o else none) e

dated_lem :
    (t : Time) (run : Run) (c : Model.Status)
    → IsStatusOf c run.status
    → IsDated run (finished_status t run)
dated_lem t run c h = elim (ended_status_lem c run.status h) [
  | inl e ↦ success e (pick is_success run.finished_at e) (pick is_failure run.finished_at e)
  | inr (inl e) ↦
      failure (inl e) (pick is_success run.finished_at e) (pick is_failure run.finished_at e)
  | inr (inr (inl e)) ↦
      failure (inr (inl e)) (pick is_success run.finished_at e) (pick is_failure run.finished_at e)
  | inr (inr (inr e)) ↦
      failure (inr (inr e)) (pick is_success run.finished_at e) (pick is_failure run.finished_at e)
]

pub finished_status_lem :
    (t : Time) (run : Run) (c : Model.Status)
    → IsStatusOf c run.status
    → IsClosed t run (finished_status t run)
finished_status_lem t run c h = record {
  tells = ground arith;
  current_status = refl;
  in_progress = refl;
  dated = dated_lem t run c h;
  overdue_after = refl;
  artifact_upload_id = refl;
  reason_code = refl;
  updated_at = refl;
}
