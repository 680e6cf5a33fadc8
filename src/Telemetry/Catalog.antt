-- ===== src/Telemetry/Catalog.antt =====
-- The decoding of runtime messages: envelope.go, catalog.go and hash.go of
-- telemetry-ingest/internal/pipeline. The decoding of JSON by encoding/json and the SHA-256 digest in
-- hexadecimal are parameters. A map of handlers is an association list with one entry for a key.
use home_assistant.Base.{
  String, Bool, true, false, Option, none, some, List, [], ◌∷◌, eqb, codes, if◌then◌else◌, errorf,
  Error, Outcome, ok, err, relabel, ℕ, ltb,
}
use home_assistant.Base.Decimal.{int_text}
use home_assistant.Base.Split.{append}
use home_assistant.Telemetry.Model.{
  RuntimeRoute, SchemaKey, same_schema, RuntimeEnvelope, envelope_key, Projection,
}
use home_assistant.Telemetry.StrictJson.{Read, reject_duplicate_json_keys}
use home_assistant.Telemetry.Envelope.{validate_envelope_route, validate_envelope}
use home_assistant.Telemetry.HealthSnapshot.{
  DeviceHealthSnapshotPayload, health_snapshot_key, health_snapshot_validate,
}
use home_assistant.Telemetry.AgentAlarm.{AgentAlarmPayload, agent_alarm_key, agent_alarm_validate}

-- encoding/json: the tokens of a document; the envelope at its start, with whether more follows;
-- objects by their keys; texts; and the payloads.
pub record Decoders : Type 0 where
  pub tokens : String → List Read
  pub envelope : String → Outcome (RuntimeEnvelope × Bool)
  pub object : String → Outcome (List (String × String))
  pub text : String → Outcome String
  pub health_snapshot : String → Outcome DeviceHealthSnapshotPayload
  pub agent_alarm : String → Outcome AgentAlarmPayload

abbrev pub refused_or : Option Error → Outcome RuntimeEnvelope → Outcome RuntimeEnvelope
refused_or none r = r
refused_or (some e) r = err e

abbrev pub parsed : RuntimeRoute → Outcome (RuntimeEnvelope × Bool) → Outcome RuntimeEnvelope
parsed route (err e) = err e
parsed route (ok (envelope, true)) = err (errorf "runtime envelope has trailing data" [])
parsed route (ok (envelope, false)) =
    refused_or (validate_envelope_route route envelope.message_type)
      (refused_or (validate_envelope envelope) (ok envelope))

abbrev pub relabel_error : String → Option Error → Option Error
relabel_error message none = none
relabel_error message (some e) = some (Error.errorw message e)

-- `RuntimeEnvelopeParser.Parse`
unfoldable pub parse : Decoders → RuntimeRoute → String → Outcome RuntimeEnvelope
parse decoders route body =
    refused_or
      (relabel_error "runtime envelope json" (reject_duplicate_json_keys (decoders.tokens body)))
      (parsed route (relabel "decode runtime envelope" (decoders.envelope body)))

pub record SchemaHandler : Type 0 where
  pub key : SchemaKey
  pub validate : RuntimeEnvelope → Outcome Projection

abbrev pub Catalog : Type 0
Catalog = List SchemaHandler

abbrev without : SchemaKey → Catalog → Catalog
without key [] = []
without key (h ∷ rest) =
    let others = without key rest in if same_schema h.key key then others else h ∷ others

abbrev pub register : Catalog → SchemaHandler → Catalog
register catalog h = h ∷ without h.key catalog

abbrev pub find_handler : Catalog → SchemaKey → Option SchemaHandler
find_handler [] key = none
find_handler (h ∷ rest) key = if same_schema h.key key then some h else find_handler rest key

abbrev pub handled : Option SchemaHandler → RuntimeEnvelope → Outcome Projection
handled none e = err (
    errorf "unsupported runtime schema %s/%s/v%d"
      (e.message_type ∷ e.schema_type ∷ int_text e.schema_version ∷ []))
handled (some h) e = h.validate e

-- `Catalog.Validate`
unfoldable pub validate : Catalog → RuntimeEnvelope → Outcome Projection
validate catalog e = handled (find_handler catalog (envelope_key e)) e

unfoldable pub default_catalog : Decoders → Catalog
default_catalog decoders =
    register
      (register [] (record {
        key = health_snapshot_key;
        validate = health_snapshot_validate decoders.health_snapshot;
      }))
      (record { key = agent_alarm_key; validate = agent_alarm_validate decoders.agent_alarm })

abbrev below : List ℕ → List ℕ → Bool
below [] t = true
below (c ∷ s) [] = false
below (c ∷ s) (d ∷ t) = if eqb c d then below s t else ltb c d

abbrev insert : String × String → List (String × String) → List (String × String)
insert entry [] = entry ∷ []
insert entry (other ∷ rest) =
    let more = insert entry rest in
    if below (codes entry.0) (codes other.0) then entry ∷ other ∷ rest else other ∷ more

-- `sort.Strings` of the keys
abbrev pub sort_entries : List (String × String) → List (String × String)
sort_entries [] = []
sort_entries (entry ∷ rest) = insert entry (sort_entries rest)

unfoldable pub write_entries : List (String × String) → String
write_entries [] = ""
write_entries ((key, value) ∷ rest) =
    append key (String.◌∷◌ "=" (append value (String.◌∷◌ "\n" (write_entries rest))))

-- `MaterialHash`, with the digest of a text in hexadecimal
unfoldable pub material_hash : (String → String) → List (String × String) → String
material_hash digest material = digest (write_entries (sort_entries material))
