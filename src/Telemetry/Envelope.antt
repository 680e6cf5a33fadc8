-- ===== src/Telemetry/Envelope.antt =====
-- The checks of telemetry-ingest/internal/pipeline/envelope.go. The payload is the text of the raw
-- message.
use Prim.Native.Char.{code}
use home_assistant.Base.{
  ℕ, ◌+◌, String, Bool, true, false, not, ◌&&◌, ◌||◌, Option, none, some, List, [], ◌∷◌, ◌==◌, leb,
  eqb, is_empty, trim_space, codes, if◌then◌else◌, errorf, Error,
}
use home_assistant.Base.Int.{is_nonpositive}
use home_assistant.Base.Time.{is_zero}
use home_assistant.Telemetry.Model.{
  RuntimeRoute, route_telemetry, route_events, MessageType, type_telemetry, type_event,
  type_command_ack, type_command_result, agent_alarm, RuntimeEnvelope, first_error, and_then,
}

-- `strings.ToLower` as far as ASCII texts can tell: of the other letters, only U+0130 and U+212A have
-- a lower case in ASCII.
abbrev lower : ℕ → ℕ
lower c =
    if leb b'A' c && leb c b'Z'
    then c + 32
    else if eqb c 0x130
    then b'i'
    else if eqb c 0x212a
    then b'k'
    else c

abbrev lower_all : List ℕ → List ℕ
lower_all [] = []
lower_all (c ∷ s) = lower c ∷ lower_all s

unfoldable pub starts_with : List ℕ → List ℕ → Bool
starts_with [] s = true
starts_with (p ∷ prefix) [] = false
starts_with (p ∷ prefix) (c ∷ s) = eqb p c && starts_with prefix s

-- `strings.Contains`
unfoldable pub contains : List ℕ → List ℕ → Bool
unfolding starts_with
contains token [] = starts_with token []
contains token (c ∷ s) = starts_with token (c ∷ s) || contains token s

abbrev pub forbidden_tokens : List String
forbidden_tokens =
    "-----begin rsa private key-----" ∷ "-----begin private key-----" ∷ "authorization:" ∷ "bearer "
    ∷ "pairing_code" ∷ "poll_token" ∷ "signed_url" ∷ "client_secret" ∷ "set-cookie:" ∷ []

unfoldable pub first_contained : List String → List ℕ → String
first_contained [] s = ""
first_contained (token ∷ tokens) s =
    if contains (codes token) s then token else first_contained tokens s

unfoldable pub forbidden_runtime_payload_token : String → String
forbidden_runtime_payload_token payload =
    first_contained forbidden_tokens (lower_all (codes payload))

unfoldable pub valid_message_type : MessageType → Bool
valid_message_type value =
    (value == type_telemetry)
    || (value == type_event)
    || (value == type_command_ack)
    || (value == type_command_result)

abbrev pub starts_object : String → Bool
starts_object String.[] = false
starts_object (String.◌∷◌ c s) = eqb (code c) b'{'

unfoldable pub validate_runtime_payload : String → Option Error
validate_runtime_payload payload = first_error (
    (
      is_empty (trim_space payload) || (trim_space payload == "null"),
      errorf "payload is required" [],
    )
    ∷ (not (starts_object (trim_space payload)), errorf "payload must be a json object" [])
    ∷ [])

unfoldable pub validate_envelope_route : RuntimeRoute → MessageType → Option Error
validate_envelope_route route message_type =
    if route == route_telemetry
    then first_error (
        (
          not (message_type == type_telemetry),
          errorf "route telemetry requires message_type telemetry" [],
        )
        ∷ [])
    else if route == route_events
    then first_error (
        (not (message_type == type_event), errorf "route events requires message_type event" [])
        ∷ [])
    else if is_empty route
    then none
    else some (errorf "unsupported runtime route %q" (route ∷ []))

-- The checks that follow the payload's: an alarm may lack the version of the publish policy, and it
-- is then looked through for no token.
unfoldable pub validate_policy : RuntimeEnvelope → Option Error
validate_policy e =
    if is_empty (trim_space e.applied_publish_policy_version)
    then first_error (
        (
          not ((e.message_type == type_event) && (e.schema_type == agent_alarm)),
          errorf "applied_publish_policy_version is required" [],
        )
        ∷ [])
    else first_error (
        (
          not (is_empty (forbidden_runtime_payload_token e.payload)),
          errorf "payload contains forbidden token %q"
              (forbidden_runtime_payload_token e.payload ∷ []),
        )
        ∷ [])

-- The checks of an envelope that come before the payload's.
abbrev pub envelope_checks : RuntimeEnvelope → List (Bool × Error)
envelope_checks e =
    (
      not (valid_message_type e.message_type),
      errorf "invalid message_type %q" (e.message_type ∷ []),
    )
    ∷ (is_empty (trim_space e.schema_type), errorf "schema_type is required" [])
    ∷ (is_nonpositive e.schema_version, errorf "schema_version must be positive" [])
    ∷ (is_empty (trim_space e.message_id), errorf "message_id is required" [])
    ∷ (is_zero e.observed_at, errorf "observed_at is required" [])
    ∷ []

unfoldable pub validate_envelope : RuntimeEnvelope → Option Error
validate_envelope e =
    and_then (first_error (envelope_checks e))
      (and_then (validate_runtime_payload e.payload) (validate_policy e))
