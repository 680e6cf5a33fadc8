-- ===== src/Commands/Deadlines.antt =====
-- Acknowledgement and result deadlines.
use home_assistant.Base.{
  String, true, some, [], ◌≡◌, ◌<◌, ◌≤◌, ◌+◌, refl, arith, errorf, ok, err, ◌>>=◌, if◌then◌else◌,
}
use home_assistant.Base.Ensures.{
  Returns, Returns-any, Returns-returns, Returns-lift, Returns-at, Returns-bind,
}
use home_assistant.Commands.Creation.{definition_for_windows}
use home_assistant.Base.Time.{is_zero}
use home_assistant.Commands.Model.{
  ack_accepted, ack_rejected, CommandDefinition, Command, AckRequest,
}
use home_assistant.Commands.Service.{
  Service, definition_for, mark_sent, record_ack, expire_missing_ack,
}

sent-Returns :
    {W : Type 0} (s : Service W) (id : String)
    → Returns
        (λ c.
          (d : CommandDefinition) × (definition_for s c.command_type ≡ ok d)
          × (c.sent_at ≡ some c.updated_at)
          × (c.ack_deadline_at ≡ c.updated_at + d.ack_window)
          × (c.updated_at < c.ack_deadline_at))
        (mark_sent s id)
unfolding mark_sent
sent-Returns s id = Returns-bind (Returns-any _) λ p _. Returns-bind (Returns-any _) λ _ _.
    Returns-bind (Returns-lift _) λ d e. Returns-bind (Returns-any _) λ t _.
      Returns-bind (Returns-any _) λ _ _.
        Returns-returns _
          (d, e, refl, refl, omega (arith, definition_for_windows s p.0.command_type d e))

module _ {W : Type 0} (s : Service W) where
  -- Where `ExpireMissingAck` gives a command up, `RecordAck` called instead, at the same world, returns
  -- the error that the deadline has passed, and leaves the very world that the expiry leaves.
  pub ack-expiry_agree :
      (req : AckRequest) (w : W) (c : Command)
      → (expire_missing_ack s req.command_id w).0 ≡ ok (c, true)
      → record_ack s req w
        ≡ (err (errorf "command ack deadline passed" []), (expire_missing_ack s req.command_id w).1)
  unfolding expire_missing_ack record_ack ◌>>=◌
  ack-expiry_agree req w c h = ground arith

  -- A command that `RecordAck` returns was acknowledged no later than its deadline, has the status that
  -- the request says, and is stamped with the reported time, or with the present where none is reported.
  pub record_ack_in_time :
      (req : AckRequest) (w : W) (c : Command)
      → (record_ack s req w).0 ≡ ok c
      → (c.updated_at ≤ c.ack_deadline_at)
        × (c.status ≡ (if req.accepted then ack_accepted else ack_rejected))
        × (c.acked_at ≡ some (if is_zero req.reported_at then c.updated_at else req.reported_at))
  unfolding record_ack ◌>>=◌
  record_ack_in_time req w c h = ground arith

  pub mark_sent_deadlines :
      (id : String) (w : W) (c : Command)
      → (mark_sent s id w).0 ≡ ok c
      → (d : CommandDefinition) × (definition_for s c.command_type ≡ ok d)
        × (c.sent_at ≡ some c.updated_at)
        × (c.ack_deadline_at ≡ c.updated_at + d.ack_window)
        × (c.updated_at < c.ack_deadline_at)
  mark_sent_deadlines id w c h = Returns-at w (sent-Returns s id) h

  -- A command that `MarkSent` returns no earlier than its result deadline has an acknowledgement deadline
  -- after its result deadline.
  pub mark_sent_late :
      (id : String) (w : W) (c : Command)
      → (mark_sent s id w).0 ≡ ok c
      → c.result_deadline_at ≤ c.updated_at
      → c.result_deadline_at < c.ack_deadline_at
  mark_sent_late id w c h late = omega (arith, (mark_sent_deadlines id w c h).4)
