-- ===== src/Telemetry/Ingest.antt =====
-- `Ingest` of telemetry-ingest/internal/pipeline/pipeline.go, which answers with a result and perhaps
-- an error.
use home_assistant.Base.{
  settle, String, Bool, true, false, Option, none, some, List, [], ◌∷◌, Error, Exec, lift,
}
use home_assistant.Base.Time.{Time, is_zero}
use home_assistant.Telemetry.Model.{
  RuntimeEnvelope, empty_envelope, AuthenticatedDeviceContext, IngestRequest, IngestResult,
  ValidatedMessage, IngestFailure,
}
use home_assistant.Telemetry.Catalog.{material_hash, validate}
use home_assistant.Telemetry.Pipeline.{
  RuntimePipeline, Environment, Ready, with_defaults, failure_device_context,
  authority_failure_reason, ensure_payload_identity_matches, state_dedupe_key, message_key,
  resolve_authority, record_failure, is_telemetry, should_suppress_unchanged_telemetry,
}

abbrev pub Answer : Type 0
Answer = IngestResult × Option Error

-- the result of a message that is not accepted
abbrev pub rejection : RuntimeEnvelope → String → Time → IngestResult
rejection envelope hash t = record {
  accepted = false;
  written = false;
  suppressed = false;
  suppression_reason = "";
  message_id = envelope.message_id;
  schema_type = envelope.schema_type;
  material_hash = hash;
  received_at = t;
}

-- the result of a message that is accepted, with the reason if it is suppressed
abbrev pub acceptance : ValidatedMessage → String → Bool → Bool → String → IngestResult
acceptance message hash written suppressed reason = record {
  accepted = true;
  written = written;
  suppressed = suppressed;
  suppression_reason = reason;
  message_id = message.envelope.message_id;
  schema_type = message.envelope.schema_type;
  material_hash = hash;
  received_at = message.received_at;
}

abbrev pub failure_of :
    AuthenticatedDeviceContext → RuntimeEnvelope → String → Error → Time → IngestFailure
failure_of device envelope stage reason t = record {
  device = device;
  message_id = envelope.message_id;
  schema_type = envelope.schema_type;
  stage = stage;
  reason = reason;
  received_at = t;
}

module _ {W : Type 0} where
  abbrev pub reject : RuntimePipeline W → IngestFailure → IngestResult → Error → W → Answer × W
  reject p failure result e w = ((result, some e), record_failure p.failure_sink failure w)

  -- a rejection of a message that was validated
  abbrev pub reject_message :
      RuntimePipeline W → ValidatedMessage → String → String → String → Error → W → Answer × W
  reject_message p message stage hash label e w =
      reject p (failure_of message.device message.envelope stage e message.received_at)
        (rejection message.envelope hash message.received_at) (Error.errorw label e) w

  -- the message is recorded, and the answer given
  unfoldable pub complete :
      RuntimePipeline W → Ready W → ValidatedMessage → String → IngestResult → W → Answer × W
  complete p ready message hash result w =
      settle (ready.dedupe_store.record_message (message_key message) w)
        (λ e w. reject_message p message "dedupe" hash "record message dedupe" e w)
        (λ _ w. ((result, none), w))

  -- what follows a write: the hash is recorded where the message is of telemetry
  unfoldable pub record_written :
      Bool → RuntimePipeline W → Ready W → ValidatedMessage → String → W → Answer × W
  unfolding complete
  record_written true p ready message hash w =
      settle (ready.dedupe_store.record_material_hash (state_dedupe_key message) hash w)
        (λ e w. reject_message p message "dedupe" hash "record material hash" e w)
        (λ _ w. complete p ready message hash (acceptance message hash true false "") w)
  record_written false p ready message hash w =
      complete p ready message hash (acceptance message hash true false "") w

  unfoldable pub write_latest :
      Option (ValidatedMessage → Exec W (Unit {0}))
      → RuntimePipeline W
      → Ready W
      → ValidatedMessage
      → String
      → W
      → Answer × W
  unfolding complete record_written
  write_latest none p ready message hash w =
      complete p ready message hash (acceptance message hash false false "") w
  write_latest (some writer) p ready message hash w =
      settle (writer message w)
        (λ e w. reject_message p message "persistence" "" "write latest state" e w)
        (λ _ w. record_written (is_telemetry message) p ready message hash w)

  -- the write, unless it is suppressed
  unfoldable pub write_unless :
      Bool → RuntimePipeline W → Ready W → ValidatedMessage → String → W → Answer × W
  unfolding complete write_latest
  write_unless true p ready message hash w =
      complete p ready message hash (acceptance message hash false true "unchanged_material") w
  write_unless false p ready message hash w = write_latest p.writer p ready message hash w

  -- what follows the look for the message among those that were seen
  unfoldable pub ingest_unless :
      Bool → RuntimePipeline W → Ready W → ValidatedMessage → String → W → Answer × W
  unfolding write_unless
  ingest_unless true p ready message hash w =
      ((acceptance message hash false true "duplicate_message", none), w)
  ingest_unless false p ready message hash w =
      let (suppressed, w') =
        should_suppress_unchanged_telemetry ready.dedupe_store message hash w in
      write_unless suppressed p ready message hash w'

  -- a message that was validated
  unfoldable pub ingest_message :
      RuntimePipeline W → Ready W → ValidatedMessage → String → W → Answer × W
  unfolding ingest_unless
  ingest_message p ready message hash w =
      settle (ready.dedupe_store.seen_message (message_key message) w)
        (λ e w. reject_message p message "dedupe" hash "check message dedupe" e w)
        (λ seen w. ingest_unless seen p ready message hash w)

  -- a message that is received at a time
  unfoldable pub ingest_at :
      Environment W → RuntimePipeline W → Ready W → IngestRequest → Time → W → Answer × W
  unfolding ingest_message
  ingest_at env p ready request t w =
      settle (lift (ready.parser request.route request.body) w)
        (λ e w.
          reject p (failure_of request.device empty_envelope "parse" e t)
            (rejection empty_envelope "" t) e w)
        (λ envelope w.
          settle (lift (validate ready.catalog envelope) w)
            (λ e w.
              reject p (failure_of request.device envelope "schema" e t) (rejection envelope "" t) e
                w)
            (λ projection w.
              settle (resolve_authority p.authority_resolver request envelope w)
                (λ e w.
                  reject p
                    (failure_of (failure_device_context request) envelope "authority"
                      (authority_failure_reason e) t)
                    (rejection envelope "" t) e w)
                (λ device w.
                  settle
                    (lift
                      (ensure_payload_identity_matches env.decoders envelope.payload
                        device.device_id)
                      w)
                    (λ e w.
                      reject p
                        (failure_of device envelope "authority" (authority_failure_reason e) t)
                        (rejection envelope "" t) e w)
                    (λ _ w.
                      ingest_message p ready
                        (record {
                          device = device;
                          envelope = envelope;
                          projection = projection;
                          received_at = t;
                        })
                        (material_hash env.digest projection.material) w))))

  -- the time of a request, and the clock's where it has none
  unfoldable pub received : Bool → Ready W → IngestRequest → W → Time × W
  received true ready request w = ready.clock w
  received false ready request w = (request.received_at, w)

  unfoldable pub ingest : Environment W → RuntimePipeline W → IngestRequest → W → Answer × W
  unfolding ingest_at received
  ingest env p request w =
      let ready = with_defaults env p in
      let (t, w') = received (is_zero request.received_at) ready request w in
      ingest_at env p ready request t w'

  -- one request after another
  unfoldable pub serve : Environment W → RuntimePipeline W → List IngestRequest → W → W
  unfolding ingest
  serve env p [] w = w
  serve env p (request ∷ rest) w = serve env p rest (ingest env p request w).1
