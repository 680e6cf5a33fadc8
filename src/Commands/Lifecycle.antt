-- ===== src/Commands/Lifecycle.antt =====
-- The abstract lifecycle of commands: what a repository holds, and the steps that the contract of the
-- command service (design-docs/command-lifecycle.md) allows it to take.
use mathlib.Core.List.{Memᴰ}
use home_assistant.Base.{
  String, true, false, Option, none, some, List, [], ◌∷◌, ◌++◌, ◌≡◌, ◌⊎◌, ◌<◌, ◌==◌, if◌then◌else◌,
}
use home_assistant.Base.Time.{Time}
use home_assistant.Commands.Model.{
  Status, queued, sent, ack_accepted, ack_rejected, ack_timed_out, running, canceled,
  is_in_progress, is_terminal_result_status, is_terminal_command_status, Command, ProgressEvent,
  CommandResult,
}

pub record Snapshot : Type 0 where
  pub commands : String → Option Command
  pub events : List ProgressEvent
  pub results : List CommandResult

abbrev pub put : Command → Snapshot → Snapshot
put command v = record v {
  commands = λ id. if command.command_id == id then some command else v.commands id;
}

-- One update of a command, as the fields that it changes.
pub data Transition (c c' : Command) : Type 0 where
  deliver :
      (t deadline : Time)
      → c.status ≡ queued
      → c'
        ≡ record c { status = sent; sent_at = some t; ack_deadline_at = deadline; updated_at = t }
      → Transition c c'
  accept :
      (t reported : Time)
      → c.status ≡ sent
      → c' ≡ record c { status = ack_accepted; acked_at = some reported; updated_at = t }
      → Transition c c'
  reject :
      (t reported : Time)
      → c.status ≡ sent
      → c' ≡ record c { status = ack_rejected; acked_at = some reported; updated_at = t }
      → Transition c c'
  miss_ack :
      (t : Time)
      → c.status ≡ sent
      → c.ack_deadline_at < t
      → c' ≡ record c { status = ack_timed_out; updated_at = t }
      → Transition c c'
  progress :
      (t : Time)
      → (c.status ≡ ack_accepted) ⊎ (c.status ≡ running)
      → c' ≡ record c { status = running; updated_at = t }
      → Transition c c'
  finish :
      (status : Status) (t : Time)
      → (c.status ≡ ack_accepted) ⊎ (c.status ≡ running)
      → is_terminal_result_status status ≡ true
      → c' ≡ record c { status = status; terminal_at = some t; updated_at = t }
      → Transition c c'
  abort :
      (t : Time)
      → is_terminal_command_status c.status ≡ false
      → c' ≡ record c { status = canceled; terminal_at = some t; updated_at = t }
      → Transition c c'

-- A new command.
pub record IsFresh (c : Command) : Type 0 where
  pub status : c.status ≡ queued
  pub unsent : c.sent_at ≡ none
  pub unacked : c.acked_at ≡ none
  pub unfinished : c.terminal_at ≡ none

-- The outcome of a command is on record.
pub record HasResult (v : Snapshot) (c : Command) : Type 0 where
  pub result : CommandResult
  pub recorded : Memᴰ result v.results
  pub same_command : result.command_id ≡ c.command_id
  pub same_status : result.status ≡ c.status

-- One step of all that is stored. Only a command that is not finished gets a
-- result, and a command is finished only when its result is on record.
pub data Step (v : Snapshot) : Snapshot → Type 0 where
  admit :
      (command : Command)
      → v.commands command.command_id ≡ none
      → IsFresh command
      → Step v (put command v)
  update :
      (command command' : Command)
      → v.commands command.command_id ≡ some command
      → Transition command command'
      → (is_terminal_command_status command'.status ≡ true → HasResult v command')
      → Step v (put command' v)
  report :
      (command : Command) (event : ProgressEvent)
      → v.commands command.command_id ≡ some command
      → is_in_progress command.status ≡ true
      → event.command_id ≡ command.command_id
      → Step v (record v { events = v.events ++ event ∷ [] })
  conclude :
      (command : Command) (result : CommandResult)
      → v.commands command.command_id ≡ some command
      → is_terminal_command_status command.status ≡ false
      → is_terminal_result_status result.status ≡ true
      → result.command_id ≡ command.command_id
      → Step v (record v { results = v.results ++ result ∷ [] })

pub data Steps (v : Snapshot) : Snapshot → Type 0 where
  here : Steps v v
  next : {u u' : Snapshot} → Steps v u → Step u u' → Steps v u'
