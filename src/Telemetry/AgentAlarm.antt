-- ===== src/Telemetry/AgentAlarm.antt =====
-- The payload of telemetry-ingest/internal/pipeline/agent_alarm.go. Of the payload's type, the fields
-- that the code reads.
use home_assistant.Base.{
  String, Bool, not, ◌&&◌, ◌||◌, Option, List, [], ◌∷◌, ◌==◌, errorf, Error, Outcome, relabel,
}
use home_assistant.Base.Decimal.{decimal}
use home_assistant.Base.Int.{ℤ, is_negative, is_nonpositive}
use home_assistant.Base.Time.{Time, is_zero, before}
use home_assistant.Telemetry.Model.{
  SchemaKey, type_event, agent_alarm, version_1, Projection, RuntimeEnvelope, first_error, checked,
}
use home_assistant.Telemetry.HealthSnapshot.{
  max_diagnostic_excerpt_bytes, excerpt_too_long, is_blank,
}

pub record AgentAlarmPayload : Type 0 where
  pub alarm_type : String
  pub severity : String
  pub reason_code : String
  pub occurrence_count : ℤ
  pub first_seen_at : Time
  pub last_seen_at : Time
  pub diagnostic_excerpt : Option String
  pub more_logs_available : Bool
  pub local_artifact_ref : String
  pub suppressed_count : ℤ

abbrev pub agent_alarm_key : SchemaKey
agent_alarm_key = record {
  message_type = type_event;
  schema_type = agent_alarm;
  version = version_1;
}

unfoldable pub valid_agent_alarm_type : String → Bool
valid_agent_alarm_type value =
    (value == "potential_abuse_detected")
    || (value == "publish_policy_apply_failed")
    || (value == "publish_policy_rejected_suspicious")
    || (value == "artifact_upload_failed")

unfoldable pub valid_agent_alarm_severity : String → Bool
valid_agent_alarm_severity value =
    (value == "info") || (value == "warning") || (value == "critical")

abbrev pub alarm_checks : AgentAlarmPayload → List (Bool × Error)
alarm_checks p =
    (not (valid_agent_alarm_type p.alarm_type), errorf "payload.alarm_type is invalid" [])
    ∷ (not (valid_agent_alarm_severity p.severity), errorf "payload.severity is invalid" [])
    ∷ (is_blank p.reason_code, errorf "payload.reason_code is required" [])
    ∷ (is_nonpositive p.occurrence_count, errorf "payload.occurrence_count must be positive" [])
    ∷ (
      is_zero p.first_seen_at || is_zero p.last_seen_at,
      errorf "payload first_seen_at and last_seen_at are required" [],
    )
    ∷ (
      before p.last_seen_at p.first_seen_at,
      errorf "payload.last_seen_at cannot be before first_seen_at" [],
    )
    ∷ (
      excerpt_too_long p.diagnostic_excerpt,
      errorf "payload.diagnostic_excerpt exceeds %d bytes"
          (decimal max_diagnostic_excerpt_bytes ∷ []),
    )
    ∷ (
      p.more_logs_available && is_blank p.local_artifact_ref,
      errorf "payload.local_artifact_ref is required when more_logs_available is true" [],
    )
    ∷ (
      (p.alarm_type == "artifact_upload_failed") && p.more_logs_available,
      errorf "payload.more_logs_available must be false for artifact_upload_failed" [],
    )
    ∷ (is_negative p.suppressed_count, errorf "payload.suppressed_count cannot be negative" [])
    ∷ []

unfoldable pub validate_alarm : AgentAlarmPayload → Option Error
validate_alarm p = first_error (alarm_checks p)

abbrev pub alarm_projection : AgentAlarmPayload → Projection
alarm_projection p = record {
  material = ("alarm_type", p.alarm_type) ∷ ("severity", p.severity) ∷ [];
  sidecar = ("reason_code", p.reason_code) ∷ [];
}

-- `AgentAlarmHandler.Validate`, where `decode` is the decoding of the payload
unfoldable pub agent_alarm_validate :
    (String → Outcome AgentAlarmPayload) → RuntimeEnvelope → Outcome Projection
unfolding validate_alarm
agent_alarm_validate decode e =
    checked (relabel "decode agent_alarm payload" (decode e.payload)) validate_alarm
      alarm_projection
