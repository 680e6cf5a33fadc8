-- ===== src/Telemetry/Model.antt =====
-- The data of telemetry-ingest/internal/pipeline/types.go. A map of texts is an association list with
-- one entry for a key. The reason of a failure is the error whose text it is.
use home_assistant.Base.{
  String, Bool, ◌&&◌, List, [], ◌∷◌, false, true, ◌≡◌, refl, ◌==◌, Option, none, some,
  if◌then◌else◌, Error, Outcome, ok, err, Option-cases, inl, inr,
}
use home_assistant.Base.Int.{ℤ, pos, eq_int}
use home_assistant.Base.Time.{Time}

abbrev pub RuntimeRoute : Type 0
RuntimeRoute = String

abbrev pub route_telemetry : RuntimeRoute
route_telemetry = "telemetry"

abbrev pub route_events : RuntimeRoute
route_events = "events"

abbrev pub MessageType : Type 0
MessageType = String

abbrev pub type_telemetry : MessageType
type_telemetry = "telemetry"

abbrev pub type_event : MessageType
type_event = "event"

abbrev pub type_command_ack : MessageType
type_command_ack = "command_ack"

abbrev pub type_command_result : MessageType
type_command_result = "command_result"

abbrev pub device_health_snapshot : String
device_health_snapshot = "device.health_snapshot"

abbrev pub agent_alarm : String
agent_alarm = "agent_alarm"

abbrev pub version_1 : ℤ
version_1 = pos 1

abbrev pub identity_drift : Error
identity_drift = Error.sentinel "identity_drift"

abbrev pub missing_transport_credential : Error
missing_transport_credential = Error.sentinel "missing_transport_credential"

pub record SchemaKey : Type 0 where
  pub message_type : MessageType
  pub schema_type : String
  pub version : ℤ

abbrev pub same_schema : SchemaKey → SchemaKey → Bool
same_schema a b =
    (a.message_type == b.message_type)
    && (a.schema_type == b.schema_type)
    && eq_int a.version b.version

pub record RuntimeEnvelope : Type 0 where
  pub message_type : MessageType
  pub schema_type : String
  pub schema_version : ℤ
  pub message_id : String
  pub applied_publish_policy_version : String
  pub observed_at : Time
  pub payload : String

-- the zero value of an envelope
abbrev pub empty_envelope : RuntimeEnvelope
empty_envelope = record {
  message_type = "";
  schema_type = "";
  schema_version = pos 0;
  message_id = "";
  applied_publish_policy_version = "";
  observed_at = 0;
  payload = "";
}

abbrev pub envelope_key : RuntimeEnvelope → SchemaKey
envelope_key e = record {
  message_type = e.message_type;
  schema_type = e.schema_type;
  version = e.schema_version;
}

pub record AuthenticatedDeviceContext : Type 0 where
  pub device_id : String
  pub site_id : String
  pub org_id : String
  pub certificate_fingerprint : String
  pub certificate_serial : String

pub record TransportCredential : Type 0 where
  pub certificate_fingerprint : String
  pub certificate_serial : String
  pub certificate_issuer : String

pub record IngestRequest : Type 0 where
  pub route : RuntimeRoute
  pub device : AuthenticatedDeviceContext
  pub credential : TransportCredential
  pub body : String
  pub received_at : Time

pub record IngestResult : Type 0 where
  pub accepted : Bool
  pub written : Bool
  pub suppressed : Bool
  pub suppression_reason : String
  pub message_id : String
  pub schema_type : String
  pub material_hash : String
  pub received_at : Time

pub record Projection : Type 0 where
  pub material : List (String × String)
  pub sidecar : List (String × String)

pub record ValidatedMessage : Type 0 where
  pub device : AuthenticatedDeviceContext
  pub envelope : RuntimeEnvelope
  pub projection : Projection
  pub received_at : Time

pub record IngestFailure : Type 0 where
  pub device : AuthenticatedDeviceContext
  pub message_id : String
  pub schema_type : String
  pub stage : String
  pub reason : Error
  pub received_at : Time

pub record MessageDedupeKey : Type 0 where
  pub device_id : String
  pub message_id : String

abbrev pub same_message : MessageDedupeKey → MessageDedupeKey → Bool
same_message a b = (a.device_id == b.device_id) && (a.message_id == b.message_id)

pub record StateDedupeKey : Type 0 where
  pub device_id : String
  pub schema_type : String
  pub schema_version : ℤ

abbrev pub same_state : StateDedupeKey → StateDedupeKey → Bool
same_state a b =
    (a.device_id == b.device_id)
    && (a.schema_type == b.schema_type)
    && eq_int a.schema_version b.schema_version

-- `if bad { return err }`, one after another
abbrev pub first_error : List (Bool × Error) → Option Error
first_error [] = none
first_error ((bad, e) ∷ rest) = if bad then some e else first_error rest

-- another validation before the rest of one
abbrev pub and_then : Option Error → Option Error → Option Error
and_then none rest = rest
and_then (some e) rest = some e

abbrev checked_value {ℓ} : {A : Type ℓ} → Option Error → A → Outcome A
checked_value none x = ok x
checked_value (some e) x = err e

-- a payload that is decoded, validated and projected
abbrev pub checked {ℓ ℓ'} :
    {A : Type ℓ} {B : Type ℓ'} → Outcome A → (A → Option Error) → (A → B) → Outcome B
checked (ok a) validate project = checked_value (validate a) (project a)
checked (err e) validate project = err e

pub checked-ok {ℓ ℓ'} :
    {A : Type ℓ} {B : Type ℓ'} (r : Outcome A) (validate : A → Option Error) (project : A → B)
    (b : B)
    → checked r validate project ≡ ok b
    → (a : A) × (r ≡ ok a) × (validate a ≡ none) × (b ≡ project a)
checked-ok (err e) validate project b h = absurd cc
checked-ok (ok a) validate project b h = elim (Option-cases (validate a)) [
  | inl e ↦ (let same : ok (project a) ≡ ok b = rw e at h in (a, refl, e, cc))
  | inr (x, e) ↦ absurd (let bad : err x ≡ ok b = rw e at h in cc)
]

-- Every check of a validation is passed.
abbrev pub AllPass : List (Bool × Error) → Type 0
AllPass [] = Unit
AllPass ((bad, e) ∷ rest) = (bad ≡ false) × AllPass rest

pub first_error-AllPass : (l : List (Bool × Error)) → first_error l ≡ none → AllPass l
first_error-AllPass [] h = tt
first_error-AllPass ((false, e) ∷ rest) h = (refl, first_error-AllPass rest h)
first_error-AllPass ((true, e) ∷ rest) h = absurd cc

pub AllPass-first_error : (l : List (Bool × Error)) → AllPass l → first_error l ≡ none
AllPass-first_error [] h = refl
AllPass-first_error ((bad, e) ∷ rest) (h, k) = rw h (AllPass-first_error rest k)

pub and_then-none : (o rest : Option Error) → and_then o rest ≡ none → (o ≡ none) × (rest ≡ none)
and_then-none none rest h = (refl, h)
and_then-none (some e) rest h = absurd cc
