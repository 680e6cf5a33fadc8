-- ===== src/Alerting/Service.antt =====
-- The operations of backend/internal/domain/alerting/service.go, over a world `W` on which the
-- repository, the verifier, the clock and the id generator act.
use home_assistant.Base.{
  String, Bool, true, false, Option, none, some, [], not, is_empty, trim_space, if◌then◌else◌,
  errorf, errorw, is_error, Outcome, ok, err, Exec, returns, lift, wrapping, reading, attempt,
  check, ensure, present, ◌>>=◌, ◌>>◌,
}
use home_assistant.Base.Time.{Time, after}
use home_assistant.Alerting.Model.{
  EventType, created, updated, acknowledged, snoozed, RawMessage, Candidate, Alert, AlertEvent,
  CandidateVerification, CandidateResult, AlertActionRequest, is_resolved,
}
use home_assistant.Alerting.Updates.{
  actor_type, actor_id, reason_metadata, snooze_metadata, normalize_candidate, validate_candidate,
  validate_verification, validate_alert, validate_alert_event, new_alert, repeated, acknowledged_by,
  snoozed_to, resolved_by, alert_event,
}

-- `ErrNotFound`
abbrev pub not_found : String
not_found = "alert record not found"

pub record Repository (W : Type 0) : Type 0 where
  pub try_record_candidate : Candidate → Exec W Bool
  pub get_active_alert_by_key : String → Exec W Alert
  pub get_alert : String → Exec W Alert
  pub create_alert : Alert → Exec W (Unit {0})
  pub save_alert : Alert → Exec W (Unit {0})
  pub record_alert_event : AlertEvent → Exec W (Unit {0})

-- A nil field is `none`; `wall_clock` is `time.Now`.
pub record Service (W : Type 0) : Type 0 where
  pub repository : Option (Repository W)
  pub verifier : Option (Candidate → Exec W CandidateVerification)
  pub id_generator : Option (W → String × W)
  pub clock : Option (W → Time × W)
  pub wall_clock : W → Time × W

-- The lookup of the active alert: `none` where there is none.
abbrev pub found_or_absent : Outcome Alert → Outcome (Option Alert)
found_or_absent (ok alert) = ok (some alert)
found_or_absent (err e) =
    if is_error not_found e then ok none else err (errorw "load active alert" e)

abbrev pub result_of : Alert → CandidateResult
result_of alert = record {
  duplicate = false;
  ignored = false;
  resolved = false;
  alert = some alert;
}

abbrev pub resolved_result : Alert → CandidateResult
resolved_result alert = record {
  duplicate = false;
  ignored = false;
  resolved = true;
  alert = some alert;
}

abbrev pub ignored_result : Bool → CandidateResult
ignored_result duplicate = record {
  duplicate = duplicate;
  ignored = true;
  resolved = false;
  alert = none;
}

module _ {W : Type 0} where
  unfoldable pub now : Service W → Exec W Time
  now s = elim s.clock [ none ↦ reading s.wall_clock | some clock ↦ reading clock ]

  unfoldable pub load_alert : Service W → String → Exec W (Alert × Repository W)
  load_alert s alert_id = do
    repository ← present s.repository (errorf "alert repository is required" [])
    let id = trim_space alert_id
    ensure (not (is_empty id)) (errorf "alert_id is required" [])
    alert ← wrapping "load alert" (repository.get_alert id)
    returns (alert, repository)

  unfoldable pub record_event :
      Service W
      → Repository W
      → Alert
      → String
      → EventType
      → String
      → String
      → RawMessage
      → Exec W (Unit {0})
  record_event s repository alert candidate_id kind actor_kind actor metadata = do
    t ← now s
    let event = alert_event alert candidate_id kind actor_kind actor metadata t
    check (validate_alert_event event)
    wrapping "record alert event" (repository.record_alert_event event)

  -- `alertID := ""` stays blank without a generator
  unfoldable pub generated_id : Service W → Exec W String
  generated_id s = elim s.id_generator [
    | none ↦ returns ""
    | some generator ↦ (do id ← reading generator; returns (trim_space id))
  ]

  unfoldable pub create_alert :
      Service W → Repository W → Candidate → CandidateVerification → Exec W Alert
  create_alert s repository candidate verification = do
    id ← generated_id s
    ensure (not (is_empty id)) (errorf "alert id is required" [])
    t ← now s
    let alert = new_alert id candidate verification t
    check (validate_alert alert)
    wrapping "create alert" (repository.create_alert alert)
    record_event s repository alert candidate.candidate_id created "system" "system"
        verification.metadata
    returns alert

  -- the method `resolveAlert`
  unfoldable pub resolve_loaded :
      Service W → Repository W → Alert → String → String → String → String → Exec W Alert
  resolve_loaded s repository alert candidate_id reason_code actor_kind actor =
      if is_resolved alert.status then returns alert else do
        t ← now s
        let alert' = resolved_by candidate_id reason_code t alert
        wrapping "resolve alert" (repository.save_alert alert')
        record_event s repository alert' (trim_space candidate_id) EventType.resolved actor_kind
            actor (reason_metadata reason_code)
        returns alert'

  unfoldable pub update_active :
      Service W → Repository W → Candidate → CandidateVerification → Alert → Exec W CandidateResult
  update_active s repository candidate verification active = do
    t ← now s
    let alert = repeated candidate verification t active
    wrapping "update alert" (repository.save_alert alert)
    record_event s repository alert candidate.candidate_id updated "system" "system"
        verification.metadata
    returns (result_of alert)

  -- the rest of the intake, once it is known which alert is active
  unfoldable pub respond :
      Service W
      → Repository W
      → Candidate
      → CandidateVerification
      → Option Alert
      → Exec W CandidateResult
  respond s repository candidate verification none =
      if verification.healthy
      then returns (ignored_result false)
      else do alert ← create_alert s repository candidate verification; returns (result_of alert)
  respond s repository candidate verification (some active) =
      if verification.healthy
      then (do
        alert ←
            resolve_loaded s repository active candidate.candidate_id "candidate_recovered" "system"
              "system"
        returns (resolved_result alert))
      else update_active s repository candidate verification active

  unfoldable pub intake_candidate : Service W → Candidate → Exec W CandidateResult
  intake_candidate s raw = do
    repository ← present s.repository (errorf "alert repository is required" [])
    verifier ← present s.verifier (errorf "alert candidate verifier is required" [])
    t ← now s
    let candidate = normalize_candidate raw t
    check (validate_candidate candidate)
    recorded ← wrapping "record alert candidate" (repository.try_record_candidate candidate)
    if not recorded then returns (ignored_result true) else do
      verification ← wrapping "verify alert candidate" (verifier candidate)
      check (validate_verification verification)
      found ← attempt (repository.get_active_alert_by_key verification.alert_key)
      active ← lift (found_or_absent found)
      respond s repository candidate verification active

  unfoldable pub acknowledge_alert : Service W → AlertActionRequest → Exec W Alert
  acknowledge_alert s req = do
    (alert, repository) ← load_alert s req.alert_id
    t ← now s
    let alert' = acknowledged_by req.actor_subject_id t alert
    wrapping "acknowledge alert" (repository.save_alert alert')
    record_event s repository alert' "" acknowledged (actor_type req.actor_type)
        (actor_id req.actor_subject_id) (reason_metadata req.reason_code)
    returns alert'

  unfoldable pub snooze_alert : Service W → AlertActionRequest → Exec W Alert
  snooze_alert s req = do
    (alert, repository) ← load_alert s req.alert_id
    t ← now s
    ensure (after req.snoozed_until t) (errorf "snoozed_until must be in the future" [])
    u ← now s
    let alert' = snoozed_to req.snoozed_until u alert
    wrapping "snooze alert" (repository.save_alert alert')
    record_event s repository alert' "" snoozed (actor_type req.actor_type)
        (actor_id req.actor_subject_id) (snooze_metadata req)
    returns alert'

  unfoldable pub resolve_alert : Service W → AlertActionRequest → Exec W Alert
  resolve_alert s req = do
    (alert, repository) ← load_alert s req.alert_id
    resolve_loaded s repository alert "" (trim_space req.reason_code) (actor_type req.actor_type)
        (actor_id req.actor_subject_id)
