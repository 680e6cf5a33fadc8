-- ===== src/Alerting/Examples.antt =====
-- Runs of the alert service over the repository in memory, and its theorems at them.
use home_assistant.Base.{
  ℕ, true, false, none, some, List, [], ◌∷◌, ◌≡◌, refl, arith, ◌>>=◌, trim_space,
}
use home_assistant.Base.Json
use home_assistant.Base.Ensures.{Settles}
use home_assistant.Base.Simulation.{Steps, Shows}
use home_assistant.Alerting.Model.{
  Status, Candidate, Alert, CandidateVerification, device_disconnected, critical, active,
}
use home_assistant.Alerting.Updates.{
  normalize_candidate, validate_candidate, validate_verification, validate_alert,
  validate_alert_event,
}
use home_assistant.Alerting.Service
use home_assistant.Alerting.Service.{ignored_result}
use home_assistant.Alerting.Lifecycle.{Step}
use home_assistant.Alerting.Invariants.{SameAlert, StaysResolved, UniqueActive}
use home_assistant.Alerting.Calls.{
  Call, perform, serve, perform_simulates, serve-UniqueActive, serve_keeps_alert,
  serve_keeps_resolved,
}
use home_assistant.Alerting.Intake.{Ignores, intake_duplicate}
use home_assistant.Alerting.Memory.{Memory, view, memory_repository, empty, service, service_laws}

-- What a run computes through.
machinery : ℕ
unfolding Service.intake_candidate Service.respond Service.create_alert Service.resolve_loaded
    Service.update_active Service.generated_id Service.record_event Service.load_alert Service.now
    memory_repository ◌>>=◌ trim_space Json.valid normalize_candidate validate_candidate
    validate_verification validate_alert validate_alert_event perform serve
machinery = 0

abbrev trouble : CandidateVerification
trouble = record {
  healthy = false;
  alert_key = "device_disconnected:d1";
  family = device_disconnected;
  severity = critical;
  title = "Offline";
  detail = "The device is offline.";
  reason_code = "lwt";
  metadata = [];
}

abbrev candidate : Candidate
candidate = record {
  candidate_id = " k1";
  event_type = "disconnected";
  account_id = "a1";
  site_id = "s1";
  device_id = "d1";
  source = "lifecycle";
  previous_state = [];
  new_state = [];
  metadata = [];
  occurred_at = 900;
  received_at = 0;
}

abbrev raised : Memory
raised = perform (service trouble) (Call.intake_candidate candidate) empty

abbrev second_candidate : Candidate
second_candidate = record candidate { candidate_id = "k2" }

abbrev calls : List Call
calls = Call.intake_candidate candidate ∷ Call.intake_candidate second_candidate ∷ []

abbrev alert : Alert
alert = record {
  alert_id = "alert-1";
  alert_key = "device_disconnected:d1";
  account_id = "a1";
  site_id = "s1";
  device_id = "d1";
  family = device_disconnected;
  severity = critical;
  status = active;
  title = "Offline";
  detail = "The device is offline.";
  reason_code = "lwt";
  first_candidate_id = "k1";
  last_candidate_id = "k1";
  occurrence_count = 1;
  acknowledged_by_user_id = "";
  acknowledged_at = none;
  snoozed_until = none;
  resolved_at = none;
  created_at = 1_000;
  updated_at = 1_000;
}

raised_run : (view raised).alerts "alert-1" ≡ some alert
unfolding machinery
raised_run = refl

repeated_run :
    (view (serve (service trouble) calls empty)).alerts "alert-1"
    ≡ some (record alert { last_candidate_id = "k2"; occurrence_count = 2 })
unfolding machinery
repeated_run = refl

perform_simulates_example : Steps Step (view empty) (view raised)
perform_simulates_example =
    perform_simulates view (service trouble) (service_laws trouble)
      (Call.intake_candidate candidate) empty

none_active : UniqueActive (view empty)
none_active i j a b ha hb ka kb key = absurd (ground arith)

serve-UniqueActive_example : UniqueActive (view (serve (service trouble) calls empty))
serve-UniqueActive_example =
    serve-UniqueActive view (service trouble) (service_laws trouble) calls empty none_active

serve_keeps_alert_example :
    (b : Alert) × ((view (serve (service trouble) calls raised)).alerts "alert-1" ≡ some b)
    × SameAlert alert b
serve_keeps_alert_example =
    serve_keeps_alert view (service trouble) (service_laws trouble) calls raised "alert-1" alert
      raised_run

abbrev closed_alert : Alert
closed_alert = record alert {
  status = Status.resolved;
  resolved_at = some 1_000;
  reason_code = "fixed";
}

abbrev closed : Memory
closed = record empty { slot = some closed_alert }

serve_keeps_resolved_example :
    (b : Alert) × ((view (serve (service trouble) calls closed)).alerts "alert-1" ≡ some b)
    × StaysResolved closed_alert b
serve_keeps_resolved_example =
    serve_keeps_resolved view (service trouble) (service_laws trouble) calls closed "alert-1"
      closed_alert refl refl

known_run : (view raised).candidates (trim_space candidate.candidate_id) ≡ true
unfolding machinery
known_run = refl

intake_duplicate_example :
    Settles
      (Ignores view (view raised))
      (Shows view (view raised))
      (Service.intake_candidate (service trouble) candidate raised).0
      (Service.intake_candidate (service trouble) candidate raised).1
intake_duplicate_example =
    intake_duplicate view (service trouble) (service_laws trouble) candidate raised known_run
