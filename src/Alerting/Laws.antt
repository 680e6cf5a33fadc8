-- ===== src/Alerting/Laws.antt =====
-- What the alert service relies on: the contract of its repository, and a verifier, a clock and an id
-- generator that leave the repository alone. A call that returns an error has changed nothing.
use home_assistant.Base.{
  String, Bool, true, false, none, some, ◌≡◌, reading, is_error, Outcome, ok, err, Exec,
}
use home_assistant.Base.Ensures.{Ensures}
use home_assistant.Base.Simulation.{Shows, Quiet}
use home_assistant.Base.Time.{Time}
use home_assistant.Alerting.Model.{Candidate, Alert, AlertEvent, CandidateVerification, active}
use home_assistant.Alerting.Service.{Repository, Service, not_found}
use home_assistant.Alerting.Lifecycle.{Snapshot, put, note, log, NoneActive}

-- A candidate is recorded once: the answer is false where its id is on record.
abbrev pub Recorded : {W : Type 0} → (W → Snapshot) → Candidate → Snapshot → Bool → W → Type 0
Recorded view c v true w = (v.candidates c.candidate_id ≡ false) × (view w ≡ note c.candidate_id v)
Recorded view c v false w = (v.candidates c.candidate_id ≡ true) × (view w ≡ v)

abbrev pub FoundActive : String → Snapshot → Outcome Alert → Type 0
FoundActive key v (ok a) =
    (v.alerts a.alert_id ≡ some a) × (a.status ≡ active) × (a.alert_key ≡ key)
FoundActive key v (err e) = is_error not_found e ≡ true → NoneActive key v

pub record RepositoryLaws {W : Type 0} (view : W → Snapshot) (r : Repository W) : Type 0 where
  pub try_record_lem :
      (c : Candidate) (v : Snapshot)
      → Ensures (Shows view v) (Recorded view c v) (Shows view v) (r.try_record_candidate c)
  pub get_active_lem :
      (key : String) (w : W)
      → (view (r.get_active_alert_by_key key w).1 ≡ view w)
        × FoundActive key (view w) (r.get_active_alert_by_key key w).0
  pub get_lem :
      (id : String) (v : Snapshot)
      → Ensures
          (Shows view v)
          (λ a w. (v.alerts a.alert_id ≡ some a) × (view w ≡ v))
          (Shows view v)
          (r.get_alert id)
  pub create_lem :
      (a : Alert) (v : Snapshot)
      → Ensures
          (Shows view v)
          (λ _ w. (v.alerts a.alert_id ≡ none) × (view w ≡ put a v))
          (Shows view v)
          (r.create_alert a)
  pub save_lem :
      (a : Alert) (v : Snapshot)
      → Ensures (Shows view v) (λ _. Shows view (put a v)) (Shows view v) (r.save_alert a)
  pub event_lem :
      (e : AlertEvent) (v : Snapshot)
      → Ensures (Shows view v) (λ _. Shows view (log e v)) (Shows view v) (r.record_alert_event e)

pub record ServiceLaws {W : Type 0} (view : W → Snapshot) (s : Service W) : Type 0 where
  pub repository_lem : (r : Repository W) → s.repository ≡ some r → RepositoryLaws view r
  pub verifier_lem :
      (f : Candidate → Exec W CandidateVerification) (c : Candidate)
      → s.verifier ≡ some f
      → Quiet view (f c)
  pub clock_lem : (f : W → Time × W) → s.clock ≡ some f → Quiet view (reading f)
  pub wall_clock_lem : Quiet view (reading s.wall_clock)
  pub id_generator_lem : (f : W → String × W) → s.id_generator ≡ some f → Quiet view (reading f)
