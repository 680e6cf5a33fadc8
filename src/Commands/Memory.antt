-- ===== src/Commands/Memory.antt =====
-- A repository in memory that meets the laws of the command service's repository, for its examples.
use mathlib.Core.Option.{some-injective}
use home_assistant.Base.{
  String, Option, none, some, [], ◌∷◌, ◌++◌, ◌≡◌, ◌+◌, refl, ◌==◌, eq_iff, arith, ap, sym, ◌∙◌,
  subst, Bool-cases, inl, inr, Error, errorf, ok, err, Exec, if◌then◌else◌,
}
use home_assistant.Base.Ensures.{Settles}
use home_assistant.Base.Time.{Time, Duration}
use home_assistant.Commands.Model.{Command}
use home_assistant.Commands.Service.{Repository, Service}
use home_assistant.Commands.Lifecycle.{Snapshot, put}
use home_assistant.Commands.Laws.{RepositoryLaws, ServiceLaws}

pub record Memory : Type 0 where
  pub stored : Snapshot
  pub time : Time

abbrev pub view : Memory → Snapshot
view m = m.stored

abbrev missing : Error
missing = errorf "not found" []

get_stored : String → Option Command → Exec Memory Command
get_stored id none m = (err missing, m)
get_stored id (some c) m = (if c.command_id == id then ok c else err missing, m)

create_free : Command → Option Command → Exec Memory (Unit {0})
create_free c none m = (ok tt, record m { stored = put c m.stored })
create_free c (some d) m = (err missing, m)

unfoldable pub memory_repository : Repository Memory
unfolding get_stored create_free
memory_repository = record {
  create_command = λ c m. create_free c (m.stored.commands c.command_id) m;
  get_command = λ id m. get_stored id (m.stored.commands id) m;
  save_command = λ c m. (ok tt, record m { stored = put c m.stored });
  append_progress_event =
      λ e m. (ok tt, record m { stored = record m.stored { events = m.stored.events ++ e ∷ [] } });
  record_result = λ x m.
      (ok tt, record m { stored = record m.stored { results = m.stored.results ++ x ∷ [] } });
}

module _ (v : Snapshot) where
  create_free_lem :
      (c : Command) (o : Option Command) (m : Memory)
      → m.stored.commands c.command_id ≡ o
      → m.stored ≡ v
      → Settles
          (λ _ m'. (v.commands c.command_id ≡ none) × (m'.stored ≡ put c v))
          (λ m'. m'.stored ≡ v)
          (create_free c o m).0
          (create_free c o m).1
  unfolding create_free
  create_free_lem c none m h e = (ap (λ u. u.commands c.command_id) (sym e) ∙ h, ap (put c) e)
  create_free_lem c (some d) m h e = e

  get_stored_lem :
      (id : String) (o : Option Command) (m : Memory)
      → m.stored.commands id ≡ o
      → m.stored ≡ v
      → Settles
          (λ c m'. (v.commands c.command_id ≡ some c) × (m'.stored ≡ v))
          (λ m'. m'.stored ≡ v)
          (get_stored id o m).0
          (get_stored id o m).1
  unfolding get_stored
  get_stored_lem id none m h e = e
  get_stored_lem id (some c) m h e = elim (Bool-cases (c.command_id == id)) [
    | inl same ↦ rw same (
      subst (λ i. v.commands i ≡ some c) (sym ((eq_iff c.command_id id).0 same))
          (ap (λ (u : Snapshot). u.commands id) (sym e) ∙ h),
      e,
    )
    | inr other ↦ rw other e
  ]

memory_laws : RepositoryLaws view memory_repository
unfolding memory_repository
memory_laws = record {
  create_lem = λ c v. record { at = λ m e. create_free_lem v c _ m refl e };
  get_lem = λ id v. record { at = λ m e. get_stored_lem v id _ m refl e };
  save_lem = λ c v. record { at = λ m e. ap (put c) e };
  append_lem = λ x v. record {
    at = λ m e. ap (λ (u : Snapshot). record u { events = u.events ++ x ∷ [] }) e;
  };
  record_lem = λ x v. record {
    at = λ m e. ap (λ (u : Snapshot). record u { results = u.results ++ x ∷ [] }) e;
  };
}

abbrev pub empty : Memory
empty = record {
  stored = record { commands = λ id. none; events = []; results = [] };
  time = 1_000;
}

abbrev pub later : Duration → Memory → Memory
later d m = record m { time = m.time + d }

abbrev pub service : Service Memory
service = record {
  repository = some memory_repository;
  definitions = none;
  id_generator = none;
  clock = some (λ m. (m.time, m));
  wall_clock = λ m. (m.time, m);
}

pub service_laws : ServiceLaws view service
service_laws = record {
  repository_lem = λ r e. subst (RepositoryLaws view) (some-injective _ _ e) memory_laws;
  clock_lem =
      λ f m e. sym (ap (λ (g : Memory → Time × Memory). (g m).1.stored) (some-injective _ _ e));
  wall_clock_lem = λ m. refl;
  id_generator_lem = λ f m e. absurd (ground arith);
}
