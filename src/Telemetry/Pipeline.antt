-- ===== src/Telemetry/Pipeline.antt =====
-- The pipeline of telemetry-ingest/internal/pipeline/pipeline.go, over a world `W` on which the
-- resolver, the stores, the clock and the sink act. A function that returns a result beside its error
-- returns an `Answer`. The pipeline is not nil.
use home_assistant.Base.{
  String, Bool, false, not, ◌&&◌, ◌||◌, Option, none, some, List, [], ◌∷◌, ◌++◌, ◌==◌, is_empty,
  trim_space, is_error, if◌then◌else◌, errorf, Error, Outcome, ok, err, Exec, relabel, wrapping,
  returns, ensure, ◌>>=◌, ◌>>◌,
}
use home_assistant.Base.Time.{Time}
use home_assistant.Telemetry.Model.{
  RuntimeRoute, type_telemetry, RuntimeEnvelope, AuthenticatedDeviceContext, TransportCredential,
  IngestRequest, ValidatedMessage, IngestFailure, MessageDedupeKey, StateDedupeKey, identity_drift,
  missing_transport_credential,
}
use home_assistant.Telemetry.Catalog
use home_assistant.Telemetry.Catalog.{Decoders, material_hash, parse, default_catalog}

pub record DedupeStore (W : Type 0) : Type 0 where
  pub seen_message : MessageDedupeKey → Exec W Bool
  pub record_message : MessageDedupeKey → Exec W (Unit {0})
  pub last_material_hash : StateDedupeKey → Exec W (Option String)
  pub record_material_hash : StateDedupeKey → String → Exec W (Unit {0})

pub record RuntimePipeline (W : Type 0) : Type 0 where
  pub parser : Option (RuntimeRoute → String → Outcome RuntimeEnvelope)
  pub catalog : Option Catalog.Catalog
  pub authority_resolver : Option (TransportCredential → Exec W AuthenticatedDeviceContext)
  pub dedupe_store : Option (DedupeStore W)
  pub writer : Option (ValidatedMessage → Exec W (Unit {0}))
  pub failure_sink : Option (IngestFailure → Exec W (Unit {0}))
  pub clock : Option (W → Time × W)

-- what the pipeline has where its fields are nil, and what it calls
pub record Environment (W : Type 0) : Type 0 where
  pub decoders : Decoders
  pub digest : String → String
  pub new_dedupe_store : DedupeStore W
  pub wall_clock : W → Time × W

-- A pipeline with its defaults.
pub record Ready (W : Type 0) : Type 0 where
  pub parser : RuntimeRoute → String → Outcome RuntimeEnvelope
  pub catalog : Catalog.Catalog
  pub dedupe_store : DedupeStore W
  pub clock : W → Time × W

abbrev pub or_default {ℓ} : {A : Type ℓ} → Option A → A → A
or_default none a = a
or_default (some b) a = b

module _ {W : Type 0} where
  unfoldable pub with_defaults : Environment W → RuntimePipeline W → Ready W
  with_defaults env p = record {
    parser = or_default p.parser (parse env.decoders);
    catalog = or_default p.catalog (default_catalog env.decoders);
    dedupe_store = or_default p.dedupe_store env.new_dedupe_store;
    clock = or_default p.clock env.wall_clock;
  }

abbrev pub first_of : String → String → String
first_of s t = if is_empty s then t else s

abbrev pub full_credential : IngestRequest → TransportCredential
full_credential request = record request.credential {
  certificate_fingerprint =
      first_of request.credential.certificate_fingerprint request.device.certificate_fingerprint;
  certificate_serial =
      first_of request.credential.certificate_serial request.device.certificate_serial;
}

abbrev pub with_certificate :
    AuthenticatedDeviceContext → TransportCredential → AuthenticatedDeviceContext
with_certificate device credential = record device {
  certificate_fingerprint =
      first_of device.certificate_fingerprint credential.certificate_fingerprint;
  certificate_serial = first_of device.certificate_serial credential.certificate_serial;
}

abbrev pub failure_device_context : IngestRequest → AuthenticatedDeviceContext
failure_device_context request = with_certificate request.device request.credential

abbrev pub authority_failure_reason : Error → Error
authority_failure_reason e =
    if is_error "identity_drift" e
    then errorf "identity_drift" []
    else if is_error "missing_transport_credential" e
    then errorf "missing_transport_credential" []
    else errorf "authority_resolution_failed" []

abbrev pub lookup : String → List (String × String) → Option String
lookup field [] = none
lookup field ((key, value) ∷ rest) = if key == field then some value else lookup field rest

-- the text in a field, trimmed, if there is one
abbrev pub decoded_text : Outcome String → List String
decoded_text (err e) = []
decoded_text (ok value) = trim_space value ∷ []

abbrev pub string_field : Decoders → Option String → List String
string_field decoders none = []
string_field decoders (some payload) = decoded_text (decoders.text payload)

abbrev pub nested_ids : Decoders → Outcome (List (String × String)) → List String
nested_ids decoders (err e) = []
nested_ids decoders (ok device) =
    string_field decoders (lookup "homesignal_device_id" device)
    ++ string_field decoders (lookup "device_id" device)

abbrev pub device_field : Decoders → Option String → List String
device_field decoders none = []
device_field decoders (some payload) = nested_ids decoders (decoders.object payload)

unfoldable pub payload_device_ids : Decoders → List (String × String) → List String
payload_device_ids decoders raw =
    string_field decoders (lookup "device_id" raw)
    ++ string_field decoders (lookup "homesignal_device_id" raw)
    ++ device_field decoders (lookup "device" raw)

abbrev pub drift : Outcome (Unit {0})
drift =
    err (Error.errorw "payload device id %q does not match resolved device id %q" identity_drift)

-- the loop over the ids of a payload
unfoldable pub match_ids : List String → String → Outcome (Unit {0})
match_ids [] resolved = ok tt
match_ids (id ∷ rest) resolved =
    if not (is_empty id) && not (id == resolved) then drift else match_ids rest resolved

abbrev pub match_decoded : Decoders → Outcome (List (String × String)) → String → Outcome (Unit {0})
match_decoded decoders (err e) resolved = err e
match_decoded decoders (ok raw) resolved = match_ids (payload_device_ids decoders raw) resolved

unfoldable pub ensure_payload_identity_matches : Decoders → String → String → Outcome (Unit {0})
ensure_payload_identity_matches decoders payload resolved =
    if is_empty payload || is_empty (trim_space resolved)
    then ok tt
    else match_decoded decoders
        (relabel "decode payload identity annotations" (decoders.object payload)) resolved

abbrev pub state_dedupe_key : ValidatedMessage → StateDedupeKey
state_dedupe_key message = record {
  device_id = message.device.device_id;
  schema_type = message.envelope.schema_type;
  schema_version = message.envelope.schema_version;
}

abbrev pub message_key : ValidatedMessage → MessageDedupeKey
message_key message = record {
  device_id = message.device.device_id;
  message_id = message.envelope.message_id;
}

module _ {W : Type 0} where
  unfoldable pub resolve_authority :
      Option (TransportCredential → Exec W AuthenticatedDeviceContext)
      → IngestRequest
      → RuntimeEnvelope
      → Exec W AuthenticatedDeviceContext
  resolve_authority none request envelope = returns request.device
  resolve_authority (some resolve) request envelope = do
    let credential = full_credential request
    ensure (not (is_empty (trim_space credential.certificate_fingerprint)))
        (Error.errorw "certificate fingerprint is required" missing_transport_credential)
    device ← wrapping "resolve device authority" (resolve credential)
    ensure (not (is_empty (trim_space device.device_id)))
        (Error.errorw "resolver returned no device_id for message %s" identity_drift)
    returns (with_certificate device credential)

  -- A failure to record a failure is ignored.
  unfoldable pub record_failure : Option (IngestFailure → Exec W (Unit {0})) → IngestFailure → W → W
  record_failure none failure w = w
  record_failure (some sink) failure w = (sink failure w).1

abbrev pub is_same_hash : Outcome (Option String) → String → Bool
is_same_hash (err e) hash = false
is_same_hash (ok none) hash = false
is_same_hash (ok (some previous)) hash = previous == hash

abbrev pub is_telemetry : ValidatedMessage → Bool
is_telemetry message = message.envelope.message_type == type_telemetry

module _ {W : Type 0} where
  unfoldable pub should_suppress_unchanged_telemetry :
      DedupeStore W → ValidatedMessage → String → W → Bool × W
  should_suppress_unchanged_telemetry store message hash w =
      let (r, w') = store.last_material_hash (state_dedupe_key message) w in
      if is_telemetry message then (is_same_hash r hash, w') else (false, w)
