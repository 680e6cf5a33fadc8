-- ===== src/Backups/Memory.antt =====
-- A repository in memory with room for one run, which meets the laws of the repository of backups, for
-- its examples.
use mathlib.Core.Option.{some-injective}
use home_assistant.Base.{
  String, Option, none, some, [], ◌≡◌, refl, ◌==◌, eq_iff, eq_refl, arith, ap, sym, subst, fun_ext,
  Bool-cases, inl, inr, errorf, ok, err, Exec, wrapping, is_empty, trim_space, ◌>>=◌, if◌then◌else◌,
}
use home_assistant.Base.Ensures.{
  Settles, Ensures, Ensures-bind, Ensures-fact, Ensures-lift, Ensures-ensure, Ensures-returns,
  Ensures-if,
}
use home_assistant.Base.Simulation.{Shows, check-Ensures, settled}
use home_assistant.Base.Time.{Time}
use home_assistant.Commands.Model.{Command, CreateRequest}
use home_assistant.Commands.Service.{
  Repository as CommandRepository, Service as CommandService, create, now, new_command_id,
}
use home_assistant.Backups.Model.{Run, DeviceStatus}
use home_assistant.Backups.Service.{Repository, Service}
use home_assistant.Backups.Lifecycle.{Snapshot, put_run, put_status}
use home_assistant.Backups.Laws.{RepositoryLaws, ServiceLaws}

pub record Memory : Type 0 where
  pub slot : Option Run
  pub statuses : String → Option DeviceStatus
  pub time : Time

abbrev pub slot_runs : Option Run → String → Option Run
slot_runs none id = none
slot_runs (some r) id = if r.backup_id == id then some r else none

abbrev pub view : Memory → Snapshot
view m = record { runs = slot_runs m.slot; statuses = m.statuses }

get : Option Run → String → Exec Memory Run
get none id m = (err (errorf "not found" []), m)
get (some r) id m = (if r.command_id == id then ok r else err (errorf "not found" []), m)

create_run : Option Run → Run → Exec Memory (Unit {0})
create_run none r m = (ok tt, record m { slot = some r })
create_run (some x) r m = (err (errorf "no room" []), m)

save : Option Run → Run → Exec Memory (Unit {0})
save none r m = (err (errorf "no room" []), m)
save (some x) r m =
    if x.backup_id == r.backup_id
    then (ok tt, record m { slot = some r })
    else (err (errorf "no room" []), m)

unfoldable pub memory_repository : Repository Memory
unfolding get create_run save
memory_repository = record {
  create_run = λ r m. create_run m.slot r m;
  get_run_by_command_id = λ id m. get m.slot id m;
  save_run = λ r m. save m.slot r m;
  upsert_device_status = λ x m.
      (ok tt, record m { statuses = λ id. if x.device_id == id then some x else m.statuses id });
}

-- `m` with the slot that is split on
abbrev with_slot : Option Run → Memory → Memory
with_slot o m = record m { slot = o }

create_run_lem :
    (o : Option Run) (r : Run) (m : Memory)
    → Settles
        (λ _ m'.
          ((view (with_slot o m)).runs r.backup_id ≡ none)
          × (view m' ≡ put_run r (view (with_slot o m))))
        (Shows view (view (with_slot o m)))
        (create_run o r (with_slot o m)).0
        (create_run o r (with_slot o m)).1
unfolding create_run
create_run_lem none r m = (refl, refl)
create_run_lem (some x) r m = refl

replaced :
    (r x : Run) (id : String)
    → x.backup_id ≡ r.backup_id
    → slot_runs (some r) id ≡ (if r.backup_id == id then some r else slot_runs (some x) id)
replaced r x id e = rw e (ground arith)

save_lem :
    (o : Option Run) (r : Run) (m : Memory)
    → Settles
        (λ _. Shows view (put_run r (view (with_slot o m))))
        (Shows view (view (with_slot o m)))
        (save o r (with_slot o m)).0
        (save o r (with_slot o m)).1
unfolding save
save_lem none r m = refl
save_lem (some x) r m = elim (Bool-cases (x.backup_id == r.backup_id)) [
  | inl e ↦ rw e (λ i. record (view (with_slot (some x) m)) {
    runs = fun_ext (λ id. replaced r x id ((eq_iff _ _).0 e)) i;
  })
  | inr e ↦ rw e refl
]

get_lem :
    (o : Option Run) (id : String) (m : Memory)
    → Settles
        (λ r m'.
          (((view (with_slot o m)).runs r.backup_id ≡ some r) × (r.command_id ≡ id))
          × (view m' ≡ view (with_slot o m)))
        (Shows view (view (with_slot o m)))
        (get o id (with_slot o m)).0
        (get o id (with_slot o m)).1
unfolding get
get_lem none id m = refl
get_lem (some r) id m = elim (Bool-cases (r.command_id == id)) [
  | inl e ↦ rw e ((rw (eq_refl r.backup_id) refl, (eq_iff _ _).0 e), refl)
  | inr e ↦ rw e refl
]

-- what holds of each snapshot that a world shows
at_view :
    {A : Type 0} (Q : Snapshot → A → Memory → Type 0) (f : Exec Memory A)
    → ((m : Memory) → Settles (Q (view m)) (Shows view (view m)) (f m).0 (f m).1)
    → (v : Snapshot) → Ensures (Shows view v) (Q v) (Shows view v) f
at_view Q f h v = record {
  at = λ m e. subst (λ u. Settles (Q u) (Shows view u) (f m).0 (f m).1) e (h m);
}

memory_laws : RepositoryLaws view memory_repository
unfolding memory_repository
memory_laws = record {
  create_lem = λ r.
      at_view (λ u _ m'. (u.runs r.backup_id ≡ none) × (view m' ≡ put_run r u)) _
        (λ m. create_run_lem m.slot r m);
  get_lem = λ id.
      at_view (λ u r m'. ((u.runs r.backup_id ≡ some r) × (r.command_id ≡ id)) × (view m' ≡ u)) _
        (λ m. get_lem m.slot id m);
  save_lem = λ r. at_view (λ u _. Shows view (put_run r u)) _ (λ m. save_lem m.slot r m);
  upsert_lem = λ x. at_view (λ u _. Shows view (put_status x u)) _ (λ m. refl);
}

-- A command service that forgets the commands that it creates.
abbrev command_repository : CommandRepository Memory
command_repository = record {
  create_command = λ c m. (ok tt, m);
  get_command = λ id m. (err (errorf "not found" []), m);
  save_command = λ c m. (ok tt, m);
  append_progress_event = λ e m. (ok tt, m);
  record_result = λ r m. (ok tt, m);
}

abbrev pub commands : CommandService Memory
commands = record {
  repository = some command_repository;
  definitions = none;
  id_generator = some (λ m. ("command-1", m));
  clock = some (λ m. (m.time, m));
  wall_clock = λ m. (m.time, m);
}

abbrev pub service : Service Memory
service = record {
  repository = some memory_repository;
  command_creator = some (create commands);
  id_generator = some (λ m. ("backup-1", m));
  clock = some (λ m. (m.time, m));
  wall_clock = λ m. (m.time, m);
}

named_lem :
    (v : Snapshot) (id : String)
    → Ensures (Shows view v) (λ _. Shows view v) (Shows view v) (new_command_id commands id)
unfolding new_command_id trim_space ◌>>=◌
named_lem v id =
    Ensures-if (is_empty id) (λ _. record { at = λ m p. p }) (λ _. record { at = λ m p. p })

stored_lem :
    (v : Snapshot) (r : CommandRepository Memory) (c : Command)
    → r ≡ command_repository
    → Ensures
        (Shows view v)
        (λ _. Shows view v)
        (Shows view v)
        (wrapping "create command" (r.create_command c))
stored_lem v r c e =
    subst
      (λ (q : CommandRepository Memory).
        Ensures (Shows view v) (λ _. Shows view v) (Shows view v)
          (wrapping "create command" (q.create_command c)))
      (sym e) (record { at = λ m p. p })

creator_quiet :
    (v : Snapshot) (req : CreateRequest)
    → Ensures (Shows view v) (λ _. Shows view v) (Shows view v) (create commands req)
unfolding create now
creator_quiet v req =
    Ensures-bind {Q = λ r w. (r ≡ command_repository) × (view w ≡ v)}
      (record { at = λ m p. (refl, p) })
      λ r. Ensures-fact λ same.
        Ensures-bind {Q = λ _. Shows view v} (Ensures-lift _ (λ d w e p. p) (λ w p. p)) λ d.
          Ensures-bind {Q = λ _. Shows view v} (record { at = λ m p. p })
            λ t.
              Ensures-bind {Q = λ _. Shows view v} (named_lem v (trim_space req.command_id)) λ id.
                Ensures-bind (Ensures-ensure _ _ (λ w p. p)) λ _. Ensures-fact λ _.
                  Ensures-bind (check-Ensures view v _) λ _. Ensures-fact λ _.
                    Ensures-bind {Q = λ _. Shows view v} (stored_lem v r _ same)
                      λ _. Ensures-returns _ λ w p. p

pub service_laws : ServiceLaws view service
service_laws = record {
  repository_lem = λ r e. subst (RepositoryLaws view) (some-injective _ _ e) memory_laws;
  creator_lem = λ f req e m. settled (Shows view (view m)) (f req m).0 (f req m).1 (
      subst
        (λ (g : CreateRequest → Exec Memory Command).
          Settles (λ _. Shows view (view m)) (Shows view (view m)) (g req m).0 (g req m).1)
        (some-injective _ _ e) ((creator_quiet (view m) req).at m refl));
  clock_lem =
      λ f e m. sym (ap (λ (g : Memory → Time × Memory). view (g m).1) (some-injective _ _ e));
  wall_clock_lem = λ m. refl;
  id_generator_lem =
      λ f e m. sym (ap (λ (g : Memory → String × Memory). view (g m).1) (some-injective _ _ e));
}
