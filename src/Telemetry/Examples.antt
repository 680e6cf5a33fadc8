-- ===== src/Telemetry/Examples.antt =====
-- A message of telemetry and its ingestion, into the stores in memory.
use home_assistant.Base.{
  none, some, errorf, String, true, false, [], ◌∷◌, ◌≡◌, ◌≢◌, ◌↔◌, refl, ok, err, trim_space,
}
use home_assistant.Base.Split.{append}
use home_assistant.Base.Int.{pos}
use home_assistant.Base.Decimal.{decimal, decimal_from, digit}
use home_assistant.Telemetry.Model.{
  RuntimeEnvelope, IngestRequest, type_telemetry, device_health_snapshot, ValidatedMessage,
}
use home_assistant.Telemetry.Envelope.{
  validate_envelope_route, validate_envelope, valid_message_type, validate_runtime_payload,
  validate_policy, forbidden_runtime_payload_token, first_contained, contains, starts_with,
}
use home_assistant.Telemetry.DistinctKeys.{scan_ends}
use home_assistant.Telemetry.Documents.{
  leaf, string, array, object, no_item, item, no_field, field, Document, reads, distinct,
  reject_duplicate_json_keys-reads,
}
use home_assistant.Telemetry.StrictJson.{
  scan, is_seen, value, exhausted, token, open_object, close_object, reject_duplicate_json_keys,
}
use home_assistant.Telemetry.HealthSnapshot.{
  DeviceHealthSnapshotPayload, snapshot_projection, health_snapshot_validate, validate_snapshot,
  validate_apps, validate_entries,
}
use home_assistant.Telemetry.Catalog.{
  Decoders, parse, validate, default_catalog, material_hash, write_entries,
}
use home_assistant.Telemetry.Pipeline.{
  message_key, with_defaults, resolve_authority, ensure_payload_identity_matches,
  payload_device_ids, match_ids, record_failure, should_suppress_unchanged_telemetry,
}
use home_assistant.Telemetry.Ingest.{
  ingest, serve, ingest_at, received, ingest_message, ingest_unless, write_unless, write_latest,
  record_written, complete,
}
use home_assistant.Telemetry.Laws.{IsChecked, Ingested}
use home_assistant.Telemetry.Contract.{ingest-Ingested}
use home_assistant.Telemetry.Unrepeated.{IsUnrepeated, ingest-serve-IsUnrepeated}
use home_assistant.Telemetry.Genuine.{AllGenuine}
use home_assistant.Telemetry.Writes.{serve-AllGenuine}
use home_assistant.Telemetry.Memory.{Memory, view, environment, pipeline, memory_laws}

abbrev envelope : RuntimeEnvelope
envelope = record {
  message_type = type_telemetry;
  schema_type = device_health_snapshot;
  schema_version = pos 1;
  message_id = "message-1";
  applied_publish_policy_version = "policy-1";
  observed_at = 5;
  payload = "{}";
}

abbrev payload : DeviceHealthSnapshotPayload
payload = record {
  agent_status = "ok";
  agent_version = "1.0.0";
  applied_version = "policy-1";
  core_status = "ok";
  supervisor_status = "ok";
  backup_status = "ok";
  storage_status = "ok";
  ha_apps = [];
  runtime_log_summary = [];
}

-- Each body holds the envelope, and each payload the snapshot, with no field but the known ones.
abbrev decoders : Decoders
decoders = record {
  tokens = λ body. token open_object ∷ token close_object ∷ [];
  envelope = λ body. ok (envelope, false);
  object = λ document. ok [];
  text = λ document. err (errorf "not a text" []);
  health_snapshot = λ document. ok payload;
  agent_alarm = λ document. err (errorf "not an alarm" []);
}

abbrev request : IngestRequest
request = record {
  route = "telemetry";
  device = record {
    device_id = "device-1";
    site_id = "site-1";
    org_id = "org-1";
    certificate_fingerprint = "print-1";
    certificate_serial = "serial-1";
  };
  credential = record {
    certificate_fingerprint = "";
    certificate_serial = "";
    certificate_issuer = "";
  };
  body = "{}";
  received_at = 0;
}

abbrev memory : Memory
memory = record { messages = []; material_hashes = []; written = []; failures = []; time = 7 }

abbrev digest : String → String
digest text = text

accepted_run : (ingest (environment decoders digest) pipeline request memory).0.0.accepted ≡ true
unfolding trim_space append decimal decimal_from digit with_defaults resolve_authority
    ensure_payload_identity_matches payload_device_ids match_ids record_failure
    should_suppress_unchanged_telemetry parse validate default_catalog material_hash write_entries
    reject_duplicate_json_keys scan is_seen validate_envelope_route validate_envelope
    valid_message_type validate_runtime_payload validate_policy forbidden_runtime_payload_token
    first_contained contains starts_with health_snapshot_validate validate_snapshot validate_apps
    validate_entries ingest ingest_at received ingest_message ingest_unless write_unless
    write_latest record_written complete serve
accepted_run = refl

-- The same request once more is a duplicate, and so nothing more is written.
abbrev after_two : Memory
after_two = serve (environment decoders digest) pipeline (request ∷ request ∷ []) memory

duplicate_run :
    (ingest (environment decoders digest) pipeline request after_two).0.0.suppression_reason
    ≡ "duplicate_message"
unfolding trim_space append decimal decimal_from digit with_defaults resolve_authority
    ensure_payload_identity_matches payload_device_ids match_ids record_failure
    should_suppress_unchanged_telemetry parse validate default_catalog material_hash write_entries
    reject_duplicate_json_keys scan is_seen validate_envelope_route validate_envelope
    valid_message_type validate_runtime_payload validate_policy forbidden_runtime_payload_token
    first_contained contains starts_with health_snapshot_validate validate_snapshot validate_apps
    validate_entries ingest ingest_at received ingest_message ingest_unless write_unless
    write_latest record_written complete serve
duplicate_run = refl

-- the message that the request holds, and the key it is recorded under
abbrev message_1 : ValidatedMessage
message_1 = record {
  device = request.device;
  envelope = envelope;
  projection = snapshot_projection payload;
  received_at = 7;
}

written_run : after_two.written ≡ message_1 ∷ []
unfolding trim_space append decimal decimal_from digit with_defaults resolve_authority
    ensure_payload_identity_matches payload_device_ids match_ids record_failure
    should_suppress_unchanged_telemetry parse validate default_catalog material_hash write_entries
    reject_duplicate_json_keys scan is_seen validate_envelope_route validate_envelope
    valid_message_type validate_runtime_payload validate_policy forbidden_runtime_payload_token
    first_contained contains starts_with health_snapshot_validate validate_snapshot validate_apps
    validate_entries ingest ingest_at received ingest_message ingest_unless write_unless
    write_latest record_written complete serve
written_run = refl

ingest-Ingested_example :
    Ingested
      (environment decoders digest)
      pipeline
      request
      (view memory)
      (ingest (environment decoders digest) pipeline request memory).0
      (view (ingest (environment decoders digest) pipeline request memory).1)
ingest-Ingested_example =
    ingest-Ingested view (environment decoders digest) pipeline (memory_laws decoders digest)
      request memory

ingest-serve-IsUnrepeated_example :
    (m : ValidatedMessage) × IsChecked (environment decoders digest) pipeline request m
    × IsUnrepeated
        (message_key m)
        (view (ingest (environment decoders digest) pipeline request memory).1)
        (view (
          serve
            (environment decoders digest)
            pipeline
            (request ∷ [])
            (ingest (environment decoders digest) pipeline request memory).1))
ingest-serve-IsUnrepeated_example =
    ingest-serve-IsUnrepeated view (environment decoders digest) pipeline
      (memory_laws decoders digest) request (request ∷ []) memory accepted_run

serve-AllGenuine_example : AllGenuine decoders (view after_two).written
serve-AllGenuine_example =
    serve-AllGenuine view (environment decoders digest) pipeline (memory_laws decoders digest)
      (request ∷ request ∷ []) memory refl refl tt

-- `{"a": ["b"], "c": {}}`, with nine tokens
abbrev document : Document
document =
    object (field "a" (array (item (string "b") no_item)) (field "c" (object no_field) no_field))

scan_ends_example : scan 19 value (reads document []) ≢ exhausted
unfolding reads
scan_ends_example = scan_ends (reads document [])

reject_duplicate_json_keys-reads_example :
    (reject_duplicate_json_keys (reads document []) ≡ none) ↔ (distinct document ≡ true)
reject_duplicate_json_keys-reads_example = reject_duplicate_json_keys-reads document

-- `{"a": null, "a": null}`
twice :
    (reject_duplicate_json_keys (reads (object (field "a" leaf (field "a" leaf no_field))) []))
    ≡ some (errorf "duplicate json key %q" ("a" ∷ []))
unfolding reject_duplicate_json_keys scan reads is_seen
twice = refl

-- A line feed in a status makes two materials one text, and so one hash.
same_text :
    material_hash digest (
      ("agent.status", "a\nhome_assistant.backup.status=b")
      ∷ ("home_assistant.core.status", "d")
      ∷ ("home_assistant.backup.status", "c")
      ∷ [])
    ≡ material_hash digest (
        ("agent.status", "a")
        ∷ ("home_assistant.core.status", "d")
        ∷ ("home_assistant.backup.status", "b\nhome_assistant.backup.status=c")
        ∷ [])
unfolding material_hash write_entries append
same_text = refl
