-- ===== src/Commands/Updates.antt =====
-- What the command service makes of a command and a request, with no effect: the validation of a new
-- command, the updates of a command and the records that go with them.
use home_assistant.Base.{
  String, Option, none, some, [], ◌∷◌, ◌+◌, not, ◌||◌, is_empty, trim_space, if◌then◌else◌, Error,
  errorf,
}
use home_assistant.Base.Json
use home_assistant.Base.Time.{Time, is_zero, after}
use home_assistant.Commands.Model.{
  Status, queued, sent, ack_accepted, ack_rejected, ack_timed_out, command_type_text, is_queued,
  RawMessage, CommandDefinition, Command, ProgressEvent, CommandResult, CreateRequest, AckRequest,
  ProgressRequest, ResultRequest,
}

unfoldable pub normalize_payload : RawMessage → RawMessage
normalize_payload [] = Json.empty_object
normalize_payload (c ∷ rest) = c ∷ rest

unfoldable pub validate_command : Command → Option Error
validate_command command =
    if is_empty (trim_space command.command_id)
    then some (errorf "command_id is required" [])
    else if is_empty (trim_space command.account_id)
    then some (errorf "account_id is required" [])
    else if is_empty (trim_space command.site_id)
    then some (errorf "site_id is required" [])
    else if is_empty (trim_space command.device_id)
    then some (errorf "device_id is required" [])
    else if is_empty (command_type_text command.command_type)
    then some (errorf "command_type is required" [])
    else if not (is_queued command.status)
    then some (errorf "new command must start queued" [])
    else if is_zero command.ack_deadline_at
    then some (errorf "ack_deadline_at is required" [])
    else if is_zero command.result_deadline_at
        || not (after command.result_deadline_at command.ack_deadline_at)
    then some (errorf "result_deadline_at must be after ack_deadline_at" [])
    else none

unfoldable pub new_command :
    String → CreateRequest → RawMessage → Time → CommandDefinition → Command
new_command id req payload t definition = record {
  command_id = id;
  account_id = trim_space req.account_id;
  site_id = trim_space req.site_id;
  device_id = trim_space req.device_id;
  command_type = req.command_type;
  status = queued;
  idempotency_key = trim_space req.idempotency_key;
  requested_by_user_id = trim_space req.requested_by_user_id;
  payload = payload;
  ack_deadline_at = t + definition.ack_window;
  result_deadline_at = t + definition.result_window;
  queued_at = t;
  sent_at = none;
  acked_at = none;
  terminal_at = none;
  created_at = t;
  updated_at = t;
}

abbrev pub time_or : Time → Time → Time
time_or t default = if is_zero t then default else t

-- `RecordAck` before the deadline
abbrev pub acked : AckRequest → Time → Command → Command
acked req t command = record command {
  status = if req.accepted then ack_accepted else ack_rejected;
  acked_at = some (time_or req.reported_at t);
  updated_at = t;
}

abbrev pub ack_expired : Time → Command → Command
ack_expired t command = record command { status = ack_timed_out; updated_at = t }

abbrev pub sent_now : CommandDefinition → Time → Command → Command
sent_now definition t command = record command {
  status = sent;
  sent_at = some t;
  ack_deadline_at = t + definition.ack_window;
  updated_at = t;
}

abbrev pub in_state : Status → Time → Command → Command
in_state status t command = record command { status = status; updated_at = t }

abbrev pub finished : Status → Time → Command → Command
finished status t command = record command { status = status; terminal_at = some t; updated_at = t }

abbrev pub progress_event : ProgressRequest → Time → Command → ProgressEvent
progress_event req t command = record {
  command_id = command.command_id;
  phase = trim_space req.phase;
  reason_code = trim_space req.reason_code;
  payload = normalize_payload req.payload;
  reported_at = time_or req.reported_at t;
  received_at = t;
}

abbrev pub reported_result : ResultRequest → Time → Command → CommandResult
reported_result req t command = record {
  command_id = command.command_id;
  status = req.status;
  result_type = trim_space req.result_type;
  reason_code = trim_space req.reason_code;
  payload = normalize_payload req.payload;
  started_at = req.started_at;
  finished_at = time_or req.finished_at t;
  received_at = t;
}

-- the result that the service writes by itself, on expiry and on cancellation
abbrev pub own_result : Status → String → Time → Command → CommandResult
own_result status reason t command = record {
  command_id = command.command_id;
  status = status;
  result_type = command_type_text command.command_type;
  reason_code = reason;
  payload = Json.empty_object;
  started_at = none;
  finished_at = t;
  received_at = t;
}
