-- ===== src/Commands/Examples.antt =====
-- Runs of the command service over the repository in memory, and its theorems at them.
use mathlib.Core.Option
use home_assistant.Base.{
  ℕ, true, none, some, List, [], ◌∷◌, ◌≡◌, ◌<◌, ◌*◌, refl, arith, codes, ◌>>=◌, trim_space, errorf,
  ok, err,
}
use home_assistant.Base.Json
use home_assistant.Base.Time.{second, minute}
use home_assistant.Commands.Model.{
  trigger_backup, succeeded, sent, queued, ack_accepted, ack_timed_out, Command, CreateRequest,
  AckRequest, ResultRequest,
}
use home_assistant.Commands.Updates.{normalize_payload, new_command, validate_command}
use home_assistant.Commands.Service
use home_assistant.Commands.Lifecycle.{Steps}
use home_assistant.Commands.Invariants.{SameRequest, IsStamped, AllConcluded}
use home_assistant.Commands.Calls.{
  Call, perform, serve, perform-Steps, serve_keeps_terminal, serve_keeps_request, serve-IsStamped,
  serve-AllConcluded,
}
use home_assistant.Commands.Creation.{IsComplete, create-IsComplete}
use home_assistant.Commands.Deadlines.{ack-expiry_agree, mark_sent_late}
use home_assistant.Commands.Memory.{
  Memory, view, memory_repository, empty, later, service, service_laws,
}

-- What a run computes through.
machinery : ℕ
unfolding Service.create Service.mark_sent Service.record_ack Service.expire_missing_ack
    Service.record_result Service.cancel memory_repository ◌>>=◌ Service.load Service.now
    Service.definition_for Service.new_command_id trim_space Json.valid normalize_payload
    new_command validate_command perform serve
machinery = 0

abbrev request : CreateRequest
request = record {
  command_id = " c1 ";
  account_id = "a1";
  site_id = "s1";
  device_id = "d1 ";
  command_type = trigger_backup;
  idempotency_key = "";
  requested_by_user_id = "u1";
  payload = codes "{\"full\": true}";
}

abbrev accepted : AckRequest
accepted = record { command_id = "c1"; accepted = true; reason_code = ""; reported_at = 0 }

abbrev success : ResultRequest
success = record {
  command_id = "c1";
  status = succeeded;
  result_type = "trigger_backup";
  reason_code = "";
  payload = [];
  started_at = none;
  finished_at = 0;
}

abbrev created : Memory
created = (Service.create service request empty).1

abbrev delivered : Memory
delivered = (Service.mark_sent service "c1" (later second created)).1

abbrev accomplished : Memory
accomplished =
    (Service.record_result service success (Service.record_ack service accepted delivered).1).1

succeeds :
    Option.map (λ (c : Command). c.status) (accomplished.stored.commands "c1") ≡ some succeeded
unfolding machinery
succeeds = refl

abbrev fresh : Command
fresh = record {
  command_id = "c1";
  account_id = "a1";
  site_id = "s1";
  device_id = "d1";
  command_type = trigger_backup;
  status = queued;
  idempotency_key = "";
  requested_by_user_id = "u1";
  payload = codes "{\"full\": true}";
  ack_deadline_at = 15_000_001_000;
  result_deadline_at = 1_800_000_001_000;
  queued_at = 1_000;
  sent_at = none;
  acked_at = none;
  terminal_at = none;
  created_at = 1_000;
  updated_at = 1_000;
}

abbrev on_its_way : Command
on_its_way = record fresh {
  status = sent;
  sent_at = some 1_000_001_000;
  ack_deadline_at = 16_000_001_000;
  updated_at = 1_000_001_000;
}

abbrev complete : Command
complete = record on_its_way {
  status = succeeded;
  acked_at = some 1_000_001_000;
  terminal_at = some 1_000_001_000;
}

create_run : (Service.create service request empty).0 ≡ ok fresh
unfolding machinery
create_run = refl

complete_run : (view accomplished).commands "c1" ≡ some complete
unfolding machinery
complete_run = refl

abbrev script : List Call
script =
    Call.cancel "c1"
    ∷ Call.record_result success
    ∷ Call.expire_result "c1"
    ∷ Call.create request
    ∷ []

perform-Steps_example : Steps (view created) (view (perform service (Call.mark_sent "c1") created))
perform-Steps_example = perform-Steps view service service_laws (Call.mark_sent "c1") created

serve_keeps_terminal_example :
    (view (serve service script accomplished)).commands "c1" ≡ some complete
serve_keeps_terminal_example =
    serve_keeps_terminal view service service_laws script accomplished "c1" complete complete_run
      refl

serve_keeps_request_example :
    (c' : Command) × ((view (serve service script accomplished)).commands "c1" ≡ some c')
    × SameRequest complete c'
serve_keeps_request_example =
    serve_keeps_request view service service_laws script accomplished "c1" complete complete_run

none_stored : (c : Command) → (view empty).commands "c1" ≡ some c → IsStamped c
none_stored c h = absurd (ground arith)

abbrev journey : List Call
journey =
    Call.create request
    ∷ Call.mark_sent "c1"
    ∷ Call.record_ack accepted
    ∷ Call.record_result success
    ∷ []

journey_run :
    (view (serve service journey empty)).commands "c1"
    ≡ some (record complete {
      sent_at = some 1_000;
      ack_deadline_at = 15_000_001_000;
      acked_at = some 1_000;
      terminal_at = some 1_000;
      updated_at = 1_000;
    })
unfolding machinery
journey_run = refl

serve-IsStamped_example : IsStamped (record complete {
  sent_at = some 1_000;
  ack_deadline_at = 15_000_001_000;
  acked_at = some 1_000;
  terminal_at = some 1_000;
  updated_at = 1_000;
})
serve-IsStamped_example =
    serve-IsStamped view service service_laws journey empty "c1" none_stored _ journey_run

none_finished : AllConcluded (view empty)
none_finished id c h t = absurd (ground arith)

serve-AllConcluded_example : AllConcluded (view (serve service journey empty))
serve-AllConcluded_example =
    serve-AllConcluded view service service_laws journey empty none_finished

create-IsComplete_example : IsComplete request fresh
create-IsComplete_example = create-IsComplete service request empty fresh create_run

late_run :
    (Service.expire_missing_ack service "c1" (later minute delivered)).0
    ≡ ok (record on_its_way { status = ack_timed_out; updated_at = 61_000_001_000 }, true)
unfolding machinery
late_run = refl

ack-expiry_agree_example : Service.record_ack service accepted (later minute delivered) ≡ (
  err (errorf "command ack deadline passed" []),
  (Service.expire_missing_ack service "c1" (later minute delivered)).1,
)
ack-expiry_agree_example = ack-expiry_agree service accepted (later minute delivered) _ late_run

abbrev acknowledged : Command
acknowledged = record on_its_way { status = ack_accepted; acked_at = some 1_000_001_000 }

ack_run : (Service.record_ack service accepted delivered).0 ≡ ok acknowledged
unfolding machinery
ack_run = refl

abbrev overdue : Command
overdue = record on_its_way {
  sent_at = some 2_400_000_001_000;
  ack_deadline_at = 2_415_000_001_000;
  updated_at = 2_400_000_001_000;
}

-- Sent forty minutes after it was queued.
overdue_run : (Service.mark_sent service "c1" (later (40 * minute) created)).0 ≡ ok overdue
unfolding machinery
overdue_run = refl

mark_sent_late_example : overdue.result_deadline_at < overdue.ack_deadline_at
mark_sent_late_example =
    mark_sent_late service "c1" (later (40 * minute) created) overdue overdue_run (omega arith)
