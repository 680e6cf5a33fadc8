-- ===== src/Edgestate/Examples.antt =====
-- Desired states that are put, one of them without JSON.
use mathlib.Core.Option.{some-injective}
use home_assistant.Base.{none, some, [], ◌∷◌, codes, ok, Exec, subst, String}
use home_assistant.Base.Ensures.{Ensures}
use home_assistant.Base.Simulation.{Shows}
use home_assistant.Edgestate.Service.{DesiredState, Service, put_all, key_update}
use home_assistant.Edgestate.Stored.{
  Snapshot, put_stored, put_published, ServiceLaws, IsFrom, done, put_all-IsFrom,
}

abbrev view : Snapshot → Snapshot
view v = v

abbrev upsert : DesiredState → Exec Snapshot (Unit {0})
upsert state v = (ok tt, put_stored state v)

abbrev adapter : DesiredState → Exec Snapshot (Unit {0})
adapter state v = (ok tt, put_published state v)

abbrev service : Service Snapshot
service = record { repository = some upsert; adapter = some adapter }

service_laws : ServiceLaws view service
service_laws = record {
  upsert_lem = λ f state v e.
      subst
        (λ (g : DesiredState → Exec Snapshot (Unit {0})).
          Ensures (Shows view v) (λ _. Shows view (put_stored state v)) (Shows view v) (g state))
        (some-injective _ _ e) (record { at = λ w h i. put_stored state (h i) });
  adapter_lem = λ f state v e.
      subst
        (λ (g : DesiredState → Exec Snapshot (Unit {0})).
          Ensures (Shows view v) (λ _. Shows view (put_published state v)) (Shows view v) (g state))
        (some-injective _ _ e) (record { at = λ w h i. put_published state (h i) });
}

abbrev state : String → DesiredState
state document = record {
  device_id = "device-1";
  state_key = key_update;
  desired_version = "1.2.3";
  desired = codes document;
  convergence_deadline_at = none;
}

abbrev empty : Snapshot
empty = record { stored = []; published = [] }

abbrev after_calls : Snapshot
after_calls = put_all service (state "{}" ∷ state "{" ∷ []) empty

put_all-IsFrom_example : IsFrom after_calls.published after_calls.stored
put_all-IsFrom_example =
    put_all-IsFrom view service service_laws (state "{}" ∷ state "{" ∷ []) empty done
