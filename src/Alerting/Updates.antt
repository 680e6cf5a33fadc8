-- ===== src/Alerting/Updates.antt =====
-- What the alert service makes of its inputs, with no effect: normalisation, validation and the
-- updates of an alert (backend/internal/domain/alerting/service.go).
use home_assistant.Base.{
  String, Option, none, some, [], ◌∷◌, ◌++◌, ◌+◌, not, ◌||◌, leb, is_empty, trim_space,
  if◌then◌else◌, Error, errorf,
}
use home_assistant.Base.Json
use home_assistant.Base.Json.Encode.{encode_string, encode_entries, encode_map}
use home_assistant.Base.Time.{Time, is_zero}
use home_assistant.Base.Time.Format.{format_rfc3339}
use home_assistant.Alerting.Model.{
  Status, EventType, active, RawMessage, Candidate, Alert, AlertEvent, CandidateVerification,
  AlertActionRequest, is_named_status, is_named_family, is_named_severity, is_named_event_type,
  family_text, severity_text, status_text, event_type_text,
}

abbrev pub normalize_json : RawMessage → RawMessage
normalize_json [] = Json.empty_object
normalize_json (c ∷ rest) = c ∷ rest

abbrev pub or_system : String → String
or_system value = if is_empty value then "system" else value

abbrev pub actor_type : String → String
actor_type value = or_system (trim_space value)

abbrev pub actor_id : String → String
actor_id value = or_system (trim_space value)

pub reason_metadata : String → RawMessage
reason_metadata reason_code = encode_map (("reason_code", trim_space reason_code) ∷ [])

-- A formatted time needs no escape.
pub snooze_metadata : AlertActionRequest → RawMessage
snooze_metadata req = encode_entries (
    ("reason_code", encode_string (trim_space req.reason_code))
    ∷ ("snoozed_until", b'"' ∷ (format_rfc3339 req.snoozed_until ++ b'"' ∷ []))
    ∷ [])

unfoldable pub normalize_candidate : Candidate → Time → Candidate
normalize_candidate candidate now = record {
  candidate_id = trim_space candidate.candidate_id;
  event_type = trim_space candidate.event_type;
  account_id = trim_space candidate.account_id;
  site_id = trim_space candidate.site_id;
  device_id = trim_space candidate.device_id;
  source = trim_space candidate.source;
  previous_state = normalize_json candidate.previous_state;
  new_state = normalize_json candidate.new_state;
  metadata = normalize_json candidate.metadata;
  occurred_at = candidate.occurred_at;
  received_at = if is_zero candidate.received_at then now else candidate.received_at;
}

unfoldable pub validate_candidate : Candidate → Option Error
validate_candidate c =
    if is_empty c.candidate_id || is_empty c.event_type
    then some (errorf "candidate_id and event_type are required" [])
    else if is_empty c.account_id || is_empty c.site_id
    then some (errorf "account_id and site_id are required" [])
    else if is_empty c.source
    then some (errorf "candidate source is required" [])
    else if is_zero c.occurred_at
    then some (errorf "occurred_at is required" [])
    else if not (Json.valid c.previous_state)
        || not (Json.valid c.new_state)
        || not (Json.valid c.metadata)
    then some (errorf "candidate JSON fields must be valid" [])
    else none

unfoldable pub validate_verification : CandidateVerification → Option Error
validate_verification v =
    if is_empty (trim_space v.alert_key)
    then some (errorf "alert_key is required" [])
    else if v.healthy
    then none
    else if is_empty (family_text v.family)
        || is_empty (severity_text v.severity)
        || is_empty (trim_space v.title)
        || is_empty (trim_space v.detail)
    then some
        (errorf "unhealthy alert verification requires family, severity, title, and detail" [])
    else if not (Json.valid (normalize_json v.metadata))
    then some (errorf "verification metadata must be valid JSON" [])
    else none

unfoldable pub validate_alert : Alert → Option Error
validate_alert a =
    if is_empty a.alert_id || is_empty a.alert_key
    then some (errorf "alert_id and alert_key are required" [])
    else if is_empty a.account_id || is_empty a.site_id
    then some (errorf "account_id and site_id are required" [])
    else if not (is_named_family a.family)
    then some (errorf "unsupported alert family %q" (family_text a.family ∷ []))
    else if not (is_named_severity a.severity)
    then some (errorf "unsupported alert severity %q" (severity_text a.severity ∷ []))
    else if not (is_named_status a.status)
    then some (errorf "unsupported alert status %q" (status_text a.status ∷ []))
    else if is_empty a.title || is_empty a.detail || is_empty a.reason_code
    then some (errorf "title, detail, and reason_code are required" [])
    else if leb a.occurrence_count 0
    then some (errorf "occurrence_count must be positive" [])
    else none

unfoldable pub validate_alert_event : AlertEvent → Option Error
validate_alert_event e =
    if is_empty e.alert_id
    then some (errorf "alert_id is required" [])
    else if not (is_named_event_type e.event_type)
    then some (errorf "unsupported alert event type %q" (event_type_text e.event_type ∷ []))
    else if is_empty e.actor_subject_type || is_empty e.actor_subject_id
    then some (errorf "alert event actor is required" [])
    else if not (Json.valid e.metadata)
    then some (errorf "alert event metadata must be valid JSON" [])
    else none

-- `createAlert`
abbrev pub new_alert : String → Candidate → CandidateVerification → Time → Alert
new_alert id candidate v now = record {
  alert_id = id;
  alert_key = v.alert_key;
  account_id = candidate.account_id;
  site_id = candidate.site_id;
  device_id = candidate.device_id;
  family = v.family;
  severity = v.severity;
  status = active;
  title = v.title;
  detail = v.detail;
  reason_code = v.reason_code;
  first_candidate_id = candidate.candidate_id;
  last_candidate_id = candidate.candidate_id;
  occurrence_count = 1;
  acknowledged_by_user_id = "";
  acknowledged_at = none;
  snoozed_until = none;
  resolved_at = none;
  created_at = now;
  updated_at = now;
}

-- an unhealthy candidate for an alert that is active
abbrev pub repeated : Candidate → CandidateVerification → Time → Alert → Alert
repeated candidate v now alert = record alert {
  severity = v.severity;
  title = v.title;
  detail = v.detail;
  reason_code = v.reason_code;
  last_candidate_id = candidate.candidate_id;
  occurrence_count = alert.occurrence_count + 1;
  updated_at = now;
}

abbrev pub acknowledged_by : String → Time → Alert → Alert
acknowledged_by actor now alert = record alert {
  acknowledged_at = some now;
  acknowledged_by_user_id = trim_space actor;
  updated_at = now;
}

abbrev pub snoozed_to : Time → Time → Alert → Alert
snoozed_to until now alert = record alert { snoozed_until = some until; updated_at = now }

abbrev pub or_else : String → String → String
or_else value default = if is_empty value then default else value

-- `resolveAlert`, for an alert that is not resolved
abbrev pub resolved_by : String → String → Time → Alert → Alert
resolved_by candidate_id reason_code now alert = record alert {
  status = Status.resolved;
  resolved_at = some now;
  updated_at = now;
  last_candidate_id = or_else (trim_space candidate_id) alert.last_candidate_id;
  reason_code = or_else (trim_space reason_code) alert.reason_code;
}

-- the event of `recordEvent`
abbrev pub alert_event :
    Alert → String → EventType → String → String → RawMessage → Time → AlertEvent
alert_event alert candidate_id kind actor_kind actor metadata now = record {
  alert_id = alert.alert_id;
  candidate_id = trim_space candidate_id;
  event_type = kind;
  actor_subject_type = actor_type actor_kind;
  actor_subject_id = actor_id actor;
  metadata = normalize_json metadata;
  occurred_at = now;
}
