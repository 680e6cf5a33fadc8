-- ===== src/Telemetry/Laws.antt =====
-- What the pipeline relies on, and what an ingestion is to leave behind: the messages that are seen,
-- the last hash of each state, and what was written and what failed, the latest first.
use home_assistant.Base.{
  String, Bool, true, false, ◌||◌, Option, none, some, List, ◌∷◌, ◌≡◌, ◌≢◌, ◌⊎◌, if◌then◌else◌,
  Exec, reading, ok,
}
use home_assistant.Base.Ensures.{Ensures}
use home_assistant.Base.Simulation.{Shows, Quiet}
use home_assistant.Telemetry.Model.{
  AuthenticatedDeviceContext, TransportCredential, IngestRequest, ValidatedMessage, IngestFailure,
  MessageDedupeKey, same_message, StateDedupeKey, same_state,
}
use home_assistant.Telemetry.Catalog.{material_hash, validate}
use home_assistant.Telemetry.Pipeline.{
  DedupeStore, RuntimePipeline, Environment, with_defaults, ensure_payload_identity_matches,
  state_dedupe_key, message_key, resolve_authority, is_telemetry,
}
use home_assistant.Telemetry.Ingest.{Answer, acceptance}

pub record Snapshot : Type 0 where
  pub messages : MessageDedupeKey → Bool
  pub hashes : StateDedupeKey → Option String
  pub written : List ValidatedMessage
  pub failures : List IngestFailure

abbrev pub put_message : MessageDedupeKey → Snapshot → Snapshot
put_message key v = record v { messages = λ k. same_message key k || v.messages k }

abbrev pub put_hash : StateDedupeKey → String → Snapshot → Snapshot
put_hash key hash v = record v { hashes = λ k. if same_state key k then some hash else v.hashes k }

abbrev pub put_written : ValidatedMessage → Snapshot → Snapshot
put_written message v = record v { written = message ∷ v.written }

abbrev pub put_failure : IngestFailure → Snapshot → Snapshot
put_failure failure v = record v { failures = failure ∷ v.failures }

-- what a write leaves behind, with the hash where the message is of telemetry
abbrev pub put_latest : ValidatedMessage → String → Snapshot → Snapshot
put_latest message hash v =
    if is_telemetry message
    then put_hash (state_dedupe_key message) hash (put_written message v)
    else put_written message v

module _ {W : Type 0} (view : W → Snapshot) where
  pub record StoreLaws (store : DedupeStore W) : Type 0 where
    pub seen_lem :
        (k : MessageDedupeKey) (v : Snapshot)
        → Ensures
            (Shows view v)
            (λ b w. (b ≡ v.messages k) × (view w ≡ v))
            (Shows view v)
            (store.seen_message k)
    pub message_lem :
        (k : MessageDedupeKey) (v : Snapshot)
        → Ensures
            (Shows view v)
            (λ _. Shows view (put_message k v))
            (Shows view v)
            (store.record_message k)
    pub last_lem :
        (k : StateDedupeKey) (v : Snapshot)
        → Ensures
            (Shows view v)
            (λ o w. (o ≡ v.hashes k) × (view w ≡ v))
            (Shows view v)
            (store.last_material_hash k)
    pub hash_lem :
        (k : StateDedupeKey) (hash : String) (v : Snapshot)
        → Ensures
            (Shows view v)
            (λ _. Shows view (put_hash k hash v))
            (Shows view v)
            (store.record_material_hash k hash)

  pub record PipelineLaws (env : Environment W) (p : RuntimePipeline W) : Type 0 where
    pub store_lem : StoreLaws (with_defaults env p).dedupe_store
    pub clock_lem : Quiet view (reading (with_defaults env p).clock)
    pub resolver_lem :
        (f : TransportCredential → Exec W AuthenticatedDeviceContext) (c : TransportCredential)
        → p.authority_resolver ≡ some f
        → Quiet view (f c)
    pub writer_lem :
        (f : ValidatedMessage → Exec W (Unit {0})) (m : ValidatedMessage) (v : Snapshot)
        → p.writer ≡ some f
        → Ensures (Shows view v) (λ _. Shows view (put_written m v)) (Shows view v) (f m)
    pub sink_lem :
        (f : IngestFailure → Exec W (Unit {0})) (x : IngestFailure) (v : Snapshot)
        → p.failure_sink ≡ some f
        → Ensures (Shows view v) (λ _. Shows view (put_failure x v)) (Shows view v) (f x)

-- At most a failure was recorded.
abbrev pub Reported : Snapshot → Snapshot → Type 0
Reported v u = (u ≡ v) ⊎ ((x : IngestFailure) × (u ≡ put_failure x v))

module _ {W : Type 0} (env : Environment W) (p : RuntimePipeline W) where
  -- A message that passed the checks of a request.
  pub record IsChecked (request : IngestRequest) (message : ValidatedMessage) : Type 0 where
    pub parsed : (with_defaults env p).parser request.route request.body ≡ ok message.envelope
    pub projected : validate (with_defaults env p).catalog message.envelope ≡ ok message.projection
    pub world : W
    pub resolved :
        (resolve_authority p.authority_resolver request message.envelope world).0
        ≡ ok message.device
    pub identified :
        ensure_payload_identity_matches env.decoders message.envelope.payload
          message.device.device_id
        ≡ ok tt

  abbrev pub hash_of : ValidatedMessage → String
  hash_of message = material_hash env.digest message.projection.material

  -- What an ingestion may come to, by its answer and what it leaves behind.
  pub data Ingested (request : IngestRequest) (v : Snapshot) (answer : Answer) (u : Snapshot)
      : Type 0 where
    rejected :
        answer.0.accepted ≡ false → answer.1 ≢ none → Reported v u → Ingested request v answer u
    rejected_late :
        (m : ValidatedMessage) (x : Snapshot)
        → IsChecked request m
        → v.messages (message_key m) ≡ false
        → answer.0.accepted ≡ false
        → answer.1 ≢ none
        → (x ≡ put_written m v) ⊎ (x ≡ put_latest m (hash_of m) v)
        → Reported x u
        → Ingested request v answer u
    duplicate :
        (m : ValidatedMessage)
        → IsChecked request m
        → v.messages (message_key m) ≡ true
        → answer ≡ (acceptance m (hash_of m) false true "duplicate_message", none)
        → u ≡ v
        → Ingested request v answer u
    unchanged :
        (m : ValidatedMessage)
        → IsChecked request m
        → is_telemetry m ≡ true
        → v.hashes (state_dedupe_key m) ≡ some (hash_of m)
        → answer ≡ (acceptance m (hash_of m) false true "unchanged_material", none)
        → u ≡ put_message (message_key m) v
        → Ingested request v answer u
    unwritten :
        (m : ValidatedMessage)
        → IsChecked request m
        → p.writer ≡ none
        → answer ≡ (acceptance m (hash_of m) false false "", none)
        → u ≡ put_message (message_key m) v
        → Ingested request v answer u
    written :
        (m : ValidatedMessage)
        → IsChecked request m
        → v.messages (message_key m) ≡ false
        → answer ≡ (acceptance m (hash_of m) true false "", none)
        → u ≡ put_message (message_key m) (put_latest m (hash_of m) v)
        → Ingested request v answer u
