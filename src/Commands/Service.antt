-- ===== src/Commands/Service.antt =====
-- The operations of backend/internal/domain/commands/service.go, over a world `W` on which the
-- repository, the clock and the id generator act. A context is left out.
use home_assistant.Base.{
  String, Bool, true, false, Option, none, some, [], ◌∷◌, not, ◌||◌, leb, eqb, is_empty, trim_space,
  if◌then◌else◌, Error, errorf, Outcome, ok, err, Exec, returns, fails, lift, wrapping, reading,
  check, ensure, present, ◌>>=◌, ◌>>◌,
}
use home_assistant.Base.Json
use home_assistant.Base.Time.{Time, after, before}
use home_assistant.Commands.Model.{
  CommandType, running, timed_out, canceled, status_text, command_type_text, is_queued, is_sent,
  is_in_progress, is_terminal_result_status, is_terminal_command_status, CommandDefinition, Command,
  ProgressEvent, CommandResult, CreateRequest, AckRequest, ProgressRequest, ResultRequest,
  default_definitions,
}
use home_assistant.Commands.Updates.{
  normalize_payload, validate_command, new_command, acked, ack_expired, sent_now, in_state,
  finished, progress_event, reported_result, own_result,
}

pub record Repository (W : Type 0) : Type 0 where
  pub create_command : Command → Exec W (Unit {0})
  pub get_command : String → Exec W Command
  pub save_command : Command → Exec W (Unit {0})
  pub append_progress_event : ProgressEvent → Exec W (Unit {0})
  pub record_result : CommandResult → Exec W (Unit {0})

-- A nil field is `none`; `wall_clock` is `time.Now`, which a service without a clock reads.
pub record Service (W : Type 0) : Type 0 where
  pub repository : Option (Repository W)
  pub definitions : Option (CommandType → Option CommandDefinition)
  pub id_generator : Option (W → String × W)
  pub clock : Option (W → Time × W)
  pub wall_clock : W → Time × W

checked_definition : CommandType → Option CommandDefinition → Outcome CommandDefinition
checked_definition kind none =
    err (errorf "unsupported command type %q" (command_type_text kind ∷ []))
checked_definition kind (some definition) =
    if leb definition.ack_window 0
    then err (errorf "ack window is required for %q" (command_type_text kind ∷ []))
    else if leb definition.result_window definition.ack_window
    then err (errorf "result window must exceed ack window for %q" (command_type_text kind ∷ []))
    else ok definition

abbrev definitions_or_default :
    Option (CommandType → Option CommandDefinition) → CommandType → Option CommandDefinition
definitions_or_default none = default_definitions
definitions_or_default (some definitions) = definitions

abbrev cannot : String → Command → Error
cannot message command = errorf message (status_text command.status ∷ [])

module _ {W : Type 0} where
  unfoldable pub definition_for : Service W → CommandType → Outcome CommandDefinition
  unfolding checked_definition default_definitions
  definition_for s kind = checked_definition kind (definitions_or_default s.definitions kind)

  unfoldable pub now : Service W → Exec W Time
  now s = elim s.clock [ none ↦ reading s.wall_clock | some clock ↦ reading clock ]

  abbrev required : String → Exec W String
  required id = if is_empty id then fails (errorf "command id is required" []) else returns id

  -- the request's id, or a generated one
  unfoldable pub new_command_id : Service W → String → Exec W String
  new_command_id s id =
      if is_empty id
      then (do
        generator ← present s.id_generator (errorf "command id is required" [])
        generated ← reading generator
        required (trim_space generated))
      else returns id

  unfoldable pub load : Service W → String → Exec W (Command × Repository W)
  load s command_id = do
    repository ← present s.repository (errorf "command repository is required" [])
    let id = trim_space command_id
    ensure (not (is_empty id)) (errorf "command_id is required" [])
    command ← wrapping "load command" (repository.get_command id)
    returns (command, repository)

  unfoldable pub create : Service W → CreateRequest → Exec W Command
  create s req = do
    repository ← present s.repository (errorf "command repository is required" [])
    definition ← lift (definition_for s req.command_type)
    t ← now s
    id ← new_command_id s (trim_space req.command_id)
    let payload = normalize_payload req.payload
    ensure (Json.valid payload) (errorf "payload must be valid JSON" [])
    let command = new_command id req payload t definition
    check (validate_command command)
    wrapping "create command" (repository.create_command command)
    returns command

  unfoldable pub mark_sent : Service W → String → Exec W Command
  mark_sent s command_id = do
    (command, repository) ← load s command_id
    ensure (is_queued command.status) (cannot "cannot mark %s command as sent" command)
    definition ← lift (definition_for s command.command_type)
    t ← now s
    let command' = sent_now definition t command
    wrapping "mark command sent" (repository.save_command command')
    returns command'

  unfoldable pub record_ack : Service W → AckRequest → Exec W Command
  record_ack s req = do
    (command, repository) ← load s req.command_id
    ensure (is_sent command.status) (cannot "cannot record ack for %s command" command)
    t ← now s
    if after t command.ack_deadline_at
        then (do
          wrapping "mark command ack timed out" (repository.save_command (ack_expired t command))
          fails (errorf "command ack deadline passed" []))
        else (do
          wrapping "record command ack" (repository.save_command (acked req t command))
          returns (acked req t command))

  unfoldable pub expire_missing_ack : Service W → String → Exec W (Command × Bool)
  expire_missing_ack s command_id = do
    (command, repository) ← load s command_id
    if not (is_sent command.status) then returns (command, false) else do
      t ← now s
      if before t command.ack_deadline_at || eqb t command.ack_deadline_at
          then returns (command, false)
          else (do
            wrapping "expire missing ack" (repository.save_command (ack_expired t command))
            returns (ack_expired t command, true))

  unfoldable pub record_progress : Service W → ProgressRequest → Exec W Command
  record_progress s req = do
    (command, repository) ← load s req.command_id
    ensure (is_in_progress command.status) (cannot "cannot record progress for %s command" command)
    t ← now s
    ensure (Json.valid (normalize_payload req.payload))
        (errorf "progress payload must be valid JSON" [])
    ensure (not (is_empty (trim_space req.phase))) (errorf "progress phase is required" [])
    wrapping "record command progress"
        (repository.append_progress_event (progress_event req t command))
    wrapping "mark command running" (repository.save_command (in_state running t command))
    returns (in_state running t command)

  unfoldable pub record_result : Service W → ResultRequest → Exec W Command
  record_result s req = do
    (command, repository) ← load s req.command_id
    ensure (is_in_progress command.status) (cannot "cannot record result for %s command" command)
    ensure (is_terminal_result_status req.status)
        (errorf "invalid terminal result status %q" (status_text req.status ∷ []))
    ensure (not (is_empty (trim_space req.result_type))) (errorf "result_type is required" [])
    t ← now s
    ensure (Json.valid (normalize_payload req.payload))
        (errorf "result payload must be valid JSON" [])
    wrapping "record command result" (repository.record_result (reported_result req t command))
    wrapping "mark command terminal" (repository.save_command (finished req.status t command))
    returns (finished req.status t command)

  unfoldable pub expire_result : Service W → String → Exec W (Command × Bool)
  expire_result s command_id = do
    (command, repository) ← load s command_id
    if not (is_in_progress command.status) then returns (command, false) else do
      t ← now s
      if before t command.result_deadline_at || eqb t command.result_deadline_at
          then returns (command, false)
          else (do
            wrapping "record command timeout result" (
                repository.record_result
                  (own_result timed_out "result_deadline_exceeded" t command))
            wrapping "mark command result timed out"
                (repository.save_command (finished timed_out t command))
            returns (finished timed_out t command, true))

  unfoldable pub cancel : Service W → String → Exec W Command
  cancel s command_id = do
    (command, repository) ← load s command_id
    ensure (not (is_terminal_command_status command.status))
        (cannot "cannot cancel terminal %s command" command)
    t ← now s
    wrapping "record command cancellation result"
        (repository.record_result (own_result canceled "canceled" t command))
    wrapping "cancel command" (repository.save_command (finished canceled t command))
    returns (finished canceled t command)
