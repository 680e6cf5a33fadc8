-- ===== src/Commands/Model.antt =====
-- The data of backend/internal/domain/commands/service.go. A Go string type with named values is a
-- data type with these values and `unknown`, for any other text.
use home_assistant.Base.{ℕ, String, Bool, true, false, Option, List, ◌*◌}
use home_assistant.Base.Time.{Time, Duration, second, minute}

pub data Status : Type 0 where
  queued sent ack_accepted ack_rejected ack_timed_out : Status
  running succeeded failed timed_out canceled : Status
  unknown : String → Status

pub data CommandType : Type 0 where
  refresh_publish_policy trigger_backup upload_artifact : CommandType
  enable_debug_capture disable_debug_capture collect_debug_snapshot : CommandType
  request_debug_bundle check_update_status repair_update_state : CommandType
  unknown : String → CommandType

abbrev pub status_text : Status → String
status_text queued = "queued"
status_text sent = "sent"
status_text ack_accepted = "ack_accepted"
status_text ack_rejected = "ack_rejected"
status_text ack_timed_out = "ack_timed_out"
status_text running = "running"
status_text succeeded = "succeeded"
status_text failed = "failed"
status_text timed_out = "timed_out"
status_text canceled = "canceled"
status_text (Status.unknown s) = s

abbrev pub command_type_text : CommandType → String
command_type_text refresh_publish_policy = "refresh_publish_policy"
command_type_text trigger_backup = "trigger_backup"
command_type_text upload_artifact = "upload_artifact"
command_type_text enable_debug_capture = "enable_debug_capture"
command_type_text disable_debug_capture = "disable_debug_capture"
command_type_text collect_debug_snapshot = "collect_debug_snapshot"
command_type_text request_debug_bundle = "request_debug_bundle"
command_type_text check_update_status = "check_update_status"
command_type_text repair_update_state = "repair_update_state"
command_type_text (CommandType.unknown s) = s

abbrev pub is_queued : Status → Bool
is_queued queued = true
is_queued _ = false

abbrev pub is_sent : Status → Bool
is_sent sent = true
is_sent _ = false

-- the `switch` of progress, result and result expiry
abbrev pub is_in_progress : Status → Bool
is_in_progress ack_accepted = true
is_in_progress running = true
is_in_progress _ = false

abbrev pub is_terminal_result_status : Status → Bool
is_terminal_result_status succeeded = true
is_terminal_result_status failed = true
is_terminal_result_status timed_out = true
is_terminal_result_status canceled = true
is_terminal_result_status _ = false

abbrev pub is_terminal_command_status : Status → Bool
is_terminal_command_status succeeded = true
is_terminal_command_status failed = true
is_terminal_command_status timed_out = true
is_terminal_command_status canceled = true
is_terminal_command_status _ = false

-- a `json.RawMessage`
abbrev pub RawMessage : Type 0
RawMessage = List ℕ

pub record CommandDefinition : Type 0 where
  pub ack_window : Duration
  pub result_window : Duration
  pub idempotent : Bool

pub record Command : Type 0 where
  pub command_id : String
  pub account_id : String
  pub site_id : String
  pub device_id : String
  pub command_type : CommandType
  pub status : Status
  pub idempotency_key : String
  pub requested_by_user_id : String
  pub payload : RawMessage
  pub ack_deadline_at : Time
  pub result_deadline_at : Time
  pub queued_at : Time
  pub sent_at : Option Time
  pub acked_at : Option Time
  pub terminal_at : Option Time
  pub created_at : Time
  pub updated_at : Time

pub record ProgressEvent : Type 0 where
  pub command_id : String
  pub phase : String
  pub reason_code : String
  pub payload : RawMessage
  pub reported_at : Time
  pub received_at : Time

pub record CommandResult : Type 0 where
  pub command_id : String
  pub status : Status
  pub result_type : String
  pub reason_code : String
  pub payload : RawMessage
  pub started_at : Option Time
  pub finished_at : Time
  pub received_at : Time

pub record CreateRequest : Type 0 where
  pub command_id : String
  pub account_id : String
  pub site_id : String
  pub device_id : String
  pub command_type : CommandType
  pub idempotency_key : String
  pub requested_by_user_id : String
  pub payload : RawMessage

pub record AckRequest : Type 0 where
  pub command_id : String
  pub accepted : Bool
  pub reason_code : String
  pub reported_at : Time

pub record ProgressRequest : Type 0 where
  pub command_id : String
  pub phase : String
  pub reason_code : String
  pub payload : RawMessage
  pub reported_at : Time

pub record ResultRequest : Type 0 where
  pub command_id : String
  pub status : Status
  pub result_type : String
  pub reason_code : String
  pub payload : RawMessage
  pub started_at : Option Time
  pub finished_at : Time

abbrev definition : Duration → Duration → Bool → Option CommandDefinition
definition ack result idempotent =
    Option.some (record { ack_window = ack; result_window = result; idempotent = idempotent })

-- a type that the map has no entry for is `none`
unfoldable pub default_definitions : CommandType → Option CommandDefinition
default_definitions refresh_publish_policy = definition (15 * second) minute true
default_definitions trigger_backup = definition (15 * second) (30 * minute) false
default_definitions upload_artifact = definition (15 * second) (30 * minute) false
default_definitions enable_debug_capture = definition (15 * second) (5 * minute) true
default_definitions disable_debug_capture = definition (15 * second) (5 * minute) true
default_definitions collect_debug_snapshot = definition (15 * second) (10 * minute) true
default_definitions request_debug_bundle = definition (15 * second) (30 * minute) false
default_definitions check_update_status = definition (15 * second) (2 * minute) true
default_definitions repair_update_state = definition (15 * second) (5 * minute) true
default_definitions (CommandType.unknown s) = Option.none
