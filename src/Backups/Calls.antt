-- ===== src/Backups/Calls.antt =====
-- Any sequence of calls of the backup service, failing ones included.
use home_assistant.Base.{
  String, none, some, List, [], ◌∷◌, ◌≡◌, inl, inr, refl, sym, ◌∙◌, ap, subst, ◌==◌, eq_iff,
  eq_refl, arith, Bool-cases,
}
use home_assistant.Base.Ensures.{Ensures-mono}
use home_assistant.Base.Simulation.{Steps, here, next, Shows-Keeps, Steps-trans, reached}
use home_assistant.Commands.Model.{Command}
use home_assistant.Backups.Model.{Run, DeviceStatus, TriggerRequest, BackupResult}
use home_assistant.Backups.Service
use home_assistant.Backups.Service.{Service, requested_status, finished_status}
use home_assistant.Backups.Lifecycle.{
  Snapshot, put_run, put_status, SameRun, Tells, Step, request, finish, report,
}
use home_assistant.Backups.Laws.{ServiceLaws}
use home_assistant.Backups.Results.{IsTriggered, IsFinished}
use home_assistant.Backups.Contracts.{trigger_backup-Ensures, record_command_result-Ensures}

pub data Call : Type 0 where
  trigger_backup : TriggerRequest → Call
  record_command_result : BackupResult → Call

module _ {W : Type 0} where
  unfoldable pub perform : Service W → Call → W → W
  perform s (Call.trigger_backup req) w = (Service.trigger_backup s req w).1
  perform s (Call.record_command_result result) w = (Service.record_command_result s result w).1

  unfoldable pub serve : Service W → List Call → W → W
  unfolding perform
  serve s [] w = w
  serve s (call ∷ calls) w = serve s calls (perform s call w)

-- The status of each device tells of a run that is stored.
abbrev pub AllTold : Snapshot → Type 0
AllTold v =
    (device : String) (x : DeviceStatus)
    → v.statuses device ≡ some x
    → (r : Run) × (v.runs x.last_backup_id ≡ some r) × Tells x r

some_eq {ℓ} : {A : Type ℓ} {a b : A} → some a ≡ some b → a ≡ b
some_eq h = cc

continued : {x : DeviceStatus} {a b : Run} → Tells x a → SameRun a b → Tells x b
continued t s = ground arith

request-AllTold :
    (v : Snapshot) (r : Run) → v.runs r.backup_id ≡ none → AllTold v → AllTold (put_run r v)
request-AllTold v r free told device x h =
    let (a, stored, tells) = told device x h in
    elim (Bool-cases (r.backup_id == x.last_backup_id)) [
      | inl e ↦ absurd (let same = ap v.runs ((eq_iff _ _).0 e) in cc)
      | inr e ↦ (a, rw e stored, tells)
    ]

finish-AllTold :
    (v : Snapshot) (a r : Run)
    → v.runs a.backup_id ≡ some a
    → SameRun a r
    → AllTold v
    → AllTold (put_run r v)
finish-AllTold v a r found same told device x h =
    let (b, stored, tells) = told device x h in
    elim (Bool-cases (r.backup_id == x.last_backup_id)) [
      | inl e ↦
          (let id : a.backup_id ≡ x.last_backup_id = sym same.backup_id ∙ (eq_iff _ _).0 e in
            let is_run : b ≡ a = some_eq (sym stored ∙ ap v.runs (sym id) ∙ found) in
            (r, rw e refl, continued (subst (Tells x) is_run tells) same))
      | inr e ↦ (b, rw e stored, tells)
    ]

report-AllTold :
    (v : Snapshot) (x : DeviceStatus) (r : Run)
    → v.runs r.backup_id ≡ some r
    → Tells x r
    → AllTold v
    → AllTold (put_status x v)
report-AllTold v x r stored tells told device y h = elim (Bool-cases (x.device_id == device)) [
  | inl e ↦
      (let same : x ≡ y = some_eq (rw e at h) in
        subst (λ z. (b : Run) × (v.runs z.last_backup_id ≡ some b) × Tells z b) same
          (r, ap v.runs tells.last_backup_id ∙ stored, tells))
  | inr e ↦ told device y (rw e at h)
]

Step-AllTold : {v u : Snapshot} → Step v u → AllTold v → AllTold u
Step-AllTold {v} (request r free open_) told = request-AllTold v r free told
Step-AllTold {v} (finish a r found same) told = finish-AllTold v a r found same told
Step-AllTold {v} (report x r stored tells status) told = report-AllTold v x r stored tells told

Steps-AllTold : {v u : Snapshot} → Steps Step v u → AllTold v → AllTold u
Steps-AllTold here told = told
Steps-AllTold (next path step) told = Step-AllTold step (Steps-AllTold path told)

IsTriggered-Steps :
    {W : Type 0} (s : Service W) (req : TriggerRequest) (v : Snapshot) (run : Run)
    (command : Command) (t : IsTriggered s req v run command)
    → Steps Step v (put_status t.report (put_run run v))
IsTriggered-Steps s req v run command t = next (next here (request run t.fresh t.is_new.status)) (
    report t.report run (rw (eq_refl run.backup_id) refl) t.opened.tells
      (t.opened.current_status ∙ sym t.is_new.status))

IsFinished-Steps :
    {W : Type 0} (s : Service W) (result : BackupResult) (v : Snapshot) (run : Run)
    (x : DeviceStatus)
    → IsFinished s v result run x
    → Steps Step v (put_status x (put_run run v))
IsFinished-Steps s result v run x h =
    next (next here (finish h.existing run h.found h.is_finished.same))
      (report x run (rw (eq_refl run.backup_id) refl) h.closed.tells h.closed.current_status)

module _ {W : Type 0} (view : W → Snapshot) (s : Service W) (laws : ServiceLaws view s) where
  perform_simulates : (call : Call) (w : W) → Steps Step (view w) (view (perform s call w))
  unfolding perform
  perform_simulates (Call.trigger_backup req) w = reached view Step _ w (
      Ensures-mono (trigger_backup-Ensures view s laws (view w) req) (λ u p. p)
        (λ x u q.
          Shows-Keeps view Step (view w) _ u (IsTriggered-Steps s req (view w) x.0 x.1 q.0) q.1)
        (λ u p. p))
  perform_simulates (Call.record_command_result result) w = reached view Step _ w (
      Ensures-mono (record_command_result-Ensures view s laws (view w) result) (λ u p. p)
        (λ x u q.
          Shows-Keeps view Step (view w) _ u (IsFinished-Steps s result (view w) x.0 x.1 q.0) q.1)
        (λ u p. p))

  serve_simulates : (calls : List Call) (w : W) → Steps Step (view w) (view (serve s calls w))
  unfolding serve
  serve_simulates [] w = here
  serve_simulates (call ∷ calls) w =
      Steps-trans (perform_simulates call w) (serve_simulates calls (perform s call w))

  -- If the status of each device tells of a stored run, by its id, its account, its site and its
  -- device, and has no backup in progress or this one, then so it is after any sequence of calls,
  -- failing ones included, provided that the service meets its laws.
  pub serve-AllTold :
      (calls : List Call) (w : W) → AllTold (view w) → AllTold (view (serve s calls w))
  serve-AllTold calls w = Steps-AllTold (serve_simulates calls w)
