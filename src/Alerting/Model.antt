-- ===== src/Alerting/Model.antt =====
-- The data of backend/internal/domain/alerting/service.go. The occurrences of an alert, an `int` in the
-- source that starts at 1 and grows by 1, are a natural number: its wrap after 2 ^ 63 - 1 of them is left
-- out.
use home_assistant.Base.{ℕ, String, Bool, true, false, Option, List}
use home_assistant.Base.Time.{Time}

pub data Family : Type 0 where
  device_disconnected backup_failed backup_overdue app_update_attention : Family
  unknown : String → Family

pub data Severity : Type 0 where
  critical warning info : Severity
  unknown : String → Severity

pub data Status : Type 0 where
  active resolved : Status
  unknown : String → Status

pub data EventType : Type 0 where
  created updated resolved acknowledged snoozed : EventType
  unknown : String → EventType

abbrev pub RawMessage : Type 0
RawMessage = List ℕ

pub record Candidate : Type 0 where
  pub candidate_id : String
  pub event_type : String
  pub account_id : String
  pub site_id : String
  pub device_id : String
  pub source : String
  pub previous_state : RawMessage
  pub new_state : RawMessage
  pub metadata : RawMessage
  pub occurred_at : Time
  pub received_at : Time

pub record Alert : Type 0 where
  pub alert_id : String
  pub alert_key : String
  pub account_id : String
  pub site_id : String
  pub device_id : String
  pub family : Family
  pub severity : Severity
  pub status : Status
  pub title : String
  pub detail : String
  pub reason_code : String
  pub first_candidate_id : String
  pub last_candidate_id : String
  pub occurrence_count : ℕ
  pub acknowledged_by_user_id : String
  pub acknowledged_at : Option Time
  pub snoozed_until : Option Time
  pub resolved_at : Option Time
  pub created_at : Time
  pub updated_at : Time

pub record AlertEvent : Type 0 where
  pub alert_id : String
  pub candidate_id : String
  pub event_type : EventType
  pub actor_subject_type : String
  pub actor_subject_id : String
  pub metadata : RawMessage
  pub occurred_at : Time

pub record CandidateVerification : Type 0 where
  pub healthy : Bool
  pub alert_key : String
  pub family : Family
  pub severity : Severity
  pub title : String
  pub detail : String
  pub reason_code : String
  pub metadata : RawMessage

-- `alert` is `none` where Go returns the zero `Alert`
pub record CandidateResult : Type 0 where
  pub duplicate : Bool
  pub ignored : Bool
  pub resolved : Bool
  pub alert : Option Alert

pub record AlertActionRequest : Type 0 where
  pub alert_id : String
  pub actor_subject_id : String
  pub actor_type : String
  pub reason_code : String
  pub snoozed_until : Time

abbrev pub is_active : Status → Bool
is_active active = true
is_active _ = false

abbrev pub is_resolved : Status → Bool
is_resolved Status.resolved = true
is_resolved _ = false

abbrev pub is_named_status : Status → Bool
is_named_status (Status.unknown s) = false
is_named_status _ = true

abbrev pub is_named_family : Family → Bool
is_named_family (Family.unknown s) = false
is_named_family _ = true

abbrev pub is_named_severity : Severity → Bool
is_named_severity (Severity.unknown s) = false
is_named_severity _ = true

abbrev pub is_named_event_type : EventType → Bool
is_named_event_type (EventType.unknown s) = false
is_named_event_type _ = true

abbrev pub family_text : Family → String
family_text device_disconnected = "device_disconnected"
family_text backup_failed = "backup_failed"
family_text backup_overdue = "backup_overdue"
family_text app_update_attention = "app_update_attention"
family_text (Family.unknown s) = s

abbrev pub severity_text : Severity → String
severity_text critical = "critical"
severity_text warning = "warning"
severity_text info = "info"
severity_text (Severity.unknown s) = s

abbrev pub status_text : Status → String
status_text active = "active"
status_text Status.resolved = "resolved"
status_text (Status.unknown s) = s

abbrev pub event_type_text : EventType → String
event_type_text created = "created"
event_type_text updated = "updated"
event_type_text EventType.resolved = "resolved"
event_type_text acknowledged = "acknowledged"
event_type_text snoozed = "snoozed"
event_type_text (EventType.unknown s) = s
