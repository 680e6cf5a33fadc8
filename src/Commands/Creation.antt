-- ===== src/Commands/Creation.antt =====
-- What `Create` guarantees of the command that it returns.
use home_assistant.Base.{
  String, true, false, none, [], ◌∷◌, ◌≡◌, ◌<◌, ◌⊎◌, inl, inr, refl, arith, is_empty, trim_space,
  codes, ok,
}
use home_assistant.Base.Json
use home_assistant.Base.Ensures.{
  check-Returns, Ensures-ensure, Ensures-if, Ensures-mono, Returns, Returns-any, Returns-returns,
  Returns-lift, Returns-at, Returns-bind,
}
use home_assistant.Base.Time.{Time}
use home_assistant.Commands.Model.{
  CommandType, queued, RawMessage, CommandDefinition, Command, CreateRequest,
}
use home_assistant.Commands.Updates.{normalize_payload, validate_command, new_command}
use home_assistant.Commands.Service.{Service, definition_for, new_command_id, create}

-- A definition that the service accepts leaves time for the result after the acknowledgement.
pub definition_for_windows :
    {W : Type 0} (s : Service W) (kind : CommandType) (d : CommandDefinition)
    → definition_for s kind ≡ ok d
    → (0 < d.ack_window) × (d.ack_window < d.result_window)
unfolding definition_for
definition_for_windows s kind d h = ground arith

-- a payload, which is an empty object where the request has none
abbrev pub HasPayload : RawMessage → RawMessage → Type 0
HasPayload [] payload = payload ≡ codes "{}"
HasPayload (c ∷ rest) payload = payload ≡ c ∷ rest

pub normalize_payload-HasPayload :
    (payload : RawMessage) → HasPayload payload (normalize_payload payload)
unfolding normalize_payload
normalize_payload-HasPayload [] = refl
normalize_payload-HasPayload (c ∷ rest) = refl

pub record IsComplete (req : CreateRequest) (c : Command) : Type 0 where
  pub identified : is_empty (trim_space c.command_id) ≡ false
  pub account : c.account_id ≡ trim_space req.account_id
  pub site : c.site_id ≡ trim_space req.site_id
  pub device : c.device_id ≡ trim_space req.device_id
  pub owned : is_empty (trim_space c.account_id) ≡ false
  pub located : is_empty (trim_space c.site_id) ≡ false
  pub addressed : is_empty (trim_space c.device_id) ≡ false
  pub kind : c.command_type ≡ req.command_type
  pub status : c.status ≡ queued
  pub named :
      (is_empty (trim_space req.command_id) ≡ true) ⊎ (c.command_id ≡ trim_space req.command_id)
  pub idempotency_key : c.idempotency_key ≡ trim_space req.idempotency_key
  pub requested_by : c.requested_by_user_id ≡ trim_space req.requested_by_user_id
  pub payload : HasPayload req.payload c.payload
  pub valid_payload : Json.valid c.payload ≡ true
  pub ack_window : c.queued_at < c.ack_deadline_at
  pub result_window : c.ack_deadline_at < c.result_deadline_at

-- The id of the request, where it has one.
abbrev Named : CreateRequest → String → Type 0
Named req id = (is_empty (trim_space req.command_id) ≡ true) ⊎ (id ≡ trim_space req.command_id)

Named-Returns :
    {W : Type 0} (s : Service W) (req : CreateRequest)
    → Returns (Named req) (new_command_id s (trim_space req.command_id))
unfolding new_command_id
Named-Returns s req =
    Ensures-if (is_empty (trim_space req.command_id))
      (λ e. Ensures-mono (Returns-any _) (λ w p. p) (λ _ w p. (inl e, tt)) (λ w p. p))
      (λ e. Returns-returns _ (inr refl))

complete_lem :
    {W : Type 0} (s : Service W) (id : String) (req : CreateRequest) (t : Time)
    (d : CommandDefinition)
    → definition_for s req.command_type ≡ ok d
    → Named req id
    → HasPayload req.payload (normalize_payload req.payload)
    → Json.valid (normalize_payload req.payload) ≡ true
    → validate_command (new_command id req (normalize_payload req.payload) t d) ≡ none
    → IsComplete req (new_command id req (normalize_payload req.payload) t d)
unfolding new_command validate_command
complete_lem s id req t d h named payload valid fine = record {
  identified = ground arith;
  account = refl;
  site = refl;
  device = refl;
  owned = ground arith;
  located = ground arith;
  addressed = ground arith;
  kind = refl;
  status = refl;
  named = named;
  idempotency_key = refl;
  requested_by = refl;
  payload = payload;
  valid_payload = valid;
  ack_window = omega (arith, definition_for_windows s req.command_type d h);
  result_window = omega (arith, definition_for_windows s req.command_type d h);
}

create-Returns :
    {W : Type 0} (s : Service W) (req : CreateRequest) → Returns (IsComplete req) (create s req)
unfolding create
create-Returns s req = Returns-bind (Returns-any _) λ r _. Returns-bind (Returns-lift _) λ d e.
    Returns-bind (Returns-any _) λ t _. Returns-bind (Named-Returns s req) λ id named.
      Returns-bind (Ensures-ensure _ _ λ w p. p) λ _ valid. Returns-bind (check-Returns _) λ _ fine.
        Returns-bind (Returns-any _) λ _ _.
          Returns-returns _ (
            complete_lem s id req t d e named (normalize_payload-HasPayload req.payload) valid fine)

-- A command that `Create` returns is queued, has a nonblank id, which is the trimmed one of the request
-- if this is not empty, and carries the trimmed account, site and device of the request, none of them
-- blank, its trimmed idempotency key and requesting user, its type and its payload (an empty object
-- where there is none), which is valid JSON; the acknowledgement is due after the moment when it was
-- queued, and the result after that.
pub create-IsComplete :
    {W : Type 0} (s : Service W) (req : CreateRequest) (w : W) (c : Command)
    → (create s req w).0 ≡ ok c
    → IsComplete req c
create-IsComplete s req w c h = Returns-at w (create-Returns s req) h
