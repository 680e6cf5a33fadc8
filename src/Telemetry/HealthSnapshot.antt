-- ===== src/Telemetry/HealthSnapshot.antt =====
-- The payload of telemetry-ingest/internal/pipeline/health_snapshot.go. Of the payload's types, the
-- fields that the code reads.
use Prim.Native.Char.{code}
use home_assistant.Base.{
  ℕ, suc, ◌+◌, String, Bool, true, false, not, ◌&&◌, ◌||◌, Option, none, some, List, [], ◌∷◌, ◌==◌,
  ltb, is_empty, trim_space, if◌then◌else◌, errorf, Error, Outcome, relabel,
}
use home_assistant.Base.Decimal.{decimal}
use home_assistant.Base.Int.{ℤ, is_negative, is_nonpositive}
use home_assistant.Base.Time.{Time, is_zero, before}
use home_assistant.Telemetry.Model.{
  SchemaKey, type_telemetry, device_health_snapshot, version_1, Projection, RuntimeEnvelope,
  first_error, and_then, checked,
}

abbrev pub max_diagnostic_excerpt_bytes : ℕ
max_diagnostic_excerpt_bytes = 5_120

-- the bytes of a text in UTF-8
unfoldable pub utf8_length : String → ℕ
utf8_length String.[] = 0
utf8_length (String.◌∷◌ c s) =
    (if ltb (code c) 0x80
      then 1
      else if ltb (code c) 0x800
      then 2
      else if ltb (code c) 0x10000
      then 3
      else 4)
    + utf8_length s

abbrev pub excerpt_too_long : Option String → Bool
excerpt_too_long none = false
excerpt_too_long (some text) = ltb max_diagnostic_excerpt_bytes (utf8_length text)

pub record HaAppSnapshot : Type 0 where
  pub ha_app_id : Option String
  pub slug : String
  pub status : String

pub record RuntimeLogSummaryEntry : Type 0 where
  pub level : String
  pub source : String
  pub component : String
  pub reason_code : String
  pub occurrence_count : ℤ
  pub first_seen_at : Time
  pub last_seen_at : Time
  pub diagnostic_excerpt : Option String
  pub more_logs_available : Bool
  pub local_artifact_ref : String
  pub suppressed_count : ℤ

pub record DeviceHealthSnapshotPayload : Type 0 where
  pub agent_status : String
  pub agent_version : String
  pub applied_version : String
  pub core_status : String
  pub supervisor_status : String
  pub backup_status : String
  pub storage_status : String
  pub ha_apps : List HaAppSnapshot
  pub runtime_log_summary : List RuntimeLogSummaryEntry

abbrev pub health_snapshot_key : SchemaKey
health_snapshot_key = record {
  message_type = type_telemetry;
  schema_type = device_health_snapshot;
  version = version_1;
}

unfoldable pub valid_runtime_log_level : String → Bool
valid_runtime_log_level value =
    (value == "info") || (value == "warning") || (value == "error") || (value == "critical")

abbrev pub is_blank : String → Bool
is_blank s = is_empty (trim_space s)

-- an error about the entry at an index
abbrev entry_error : String → ℕ → Error
entry_error message index = errorf message (decimal index ∷ [])

abbrev pub entry_checks : RuntimeLogSummaryEntry → ℕ → List (Bool × Error)
entry_checks e index =
    (
      not (valid_runtime_log_level e.level),
      entry_error "payload.runtime_log_summary[%d].level is invalid" index,
    )
    ∷ (is_blank e.source, entry_error "payload.runtime_log_summary[%d].source is required" index)
    ∷ (
      is_blank e.component,
      entry_error "payload.runtime_log_summary[%d].component is required" index,
    )
    ∷ (
      is_blank e.reason_code,
      entry_error "payload.runtime_log_summary[%d].reason_code is required" index,
    )
    ∷ (
      is_nonpositive e.occurrence_count,
      entry_error "payload.runtime_log_summary[%d].occurrence_count must be positive" index,
    )
    ∷ (
      is_zero e.first_seen_at || is_zero e.last_seen_at,
      entry_error "payload.runtime_log_summary[%d] first_seen_at and last_seen_at are required"
          index,
    )
    ∷ (
      before e.last_seen_at e.first_seen_at,
      entry_error "payload.runtime_log_summary[%d].last_seen_at cannot be before first_seen_at"
          index,
    )
    ∷ (
      excerpt_too_long e.diagnostic_excerpt,
      errorf "payload.runtime_log_summary[%d].diagnostic_excerpt exceeds %d bytes"
          (decimal index ∷ decimal max_diagnostic_excerpt_bytes ∷ []),
    )
    ∷ (
      e.more_logs_available && is_blank e.local_artifact_ref,
      entry_error
          "payload.runtime_log_summary[%d].local_artifact_ref is required when more_logs_available is true"
          index,
    )
    ∷ (
      is_negative e.suppressed_count,
      entry_error "payload.runtime_log_summary[%d].suppressed_count cannot be negative" index,
    )
    ∷ []

unfoldable pub validate_entry : RuntimeLogSummaryEntry → ℕ → Option Error
validate_entry e index = first_error (entry_checks e index)

-- the loop over the entries, from an index on
unfoldable pub validate_entries : List RuntimeLogSummaryEntry → ℕ → Option Error
unfolding validate_entry
validate_entries [] index = none
validate_entries (e ∷ rest) index =
    and_then (validate_entry e index) (validate_entries rest (index + 1))

abbrev pub blank_id : Option String → Bool
blank_id none = true
blank_id (some id) = is_blank id

abbrev pub app_checks : HaAppSnapshot → ℕ → List (Bool × Error)
app_checks app index =
    (
      is_blank app.slug && blank_id app.ha_app_id,
      entry_error "payload.ha_apps[%d] requires slug or ha_app_id" index,
    )
    ∷ (is_blank app.status, entry_error "payload.ha_apps[%d].status is required" index)
    ∷ []

-- the loop over the apps, from an index on
unfoldable pub validate_apps : List HaAppSnapshot → ℕ → Option Error
validate_apps [] index = none
validate_apps (app ∷ rest) index =
    and_then (first_error (app_checks app index)) (validate_apps rest (index + 1))

abbrev pub snapshot_checks : DeviceHealthSnapshotPayload → String → List (Bool × Error)
snapshot_checks p applied_policy_version =
    (is_blank p.agent_status, errorf "payload.agent.status is required" [])
    ∷ (is_blank p.agent_version, errorf "payload.agent.version is required" [])
    ∷ (
      is_blank p.applied_version,
      errorf "payload.agent.publish_policy.applied_version is required" [],
    )
    ∷ (
      not (p.applied_version == applied_policy_version),
      errorf
          "payload.agent.publish_policy.applied_version must match envelope applied_publish_policy_version"
          [],
    )
    ∷ (is_blank p.core_status, errorf "payload.home_assistant.core.status is required" [])
    ∷ (
      is_blank p.supervisor_status,
      errorf "payload.home_assistant.supervisor.status is required" [],
    )
    ∷ (is_blank p.backup_status, errorf "payload.home_assistant.backup.status is required" [])
    ∷ (is_blank p.storage_status, errorf "payload.home_assistant.storage.status is required" [])
    ∷ []

unfoldable pub validate_snapshot : DeviceHealthSnapshotPayload → String → Option Error
unfolding validate_apps validate_entries
validate_snapshot p applied_policy_version =
    and_then (first_error (snapshot_checks p applied_policy_version))
      (and_then (validate_apps p.ha_apps 0) (validate_entries p.runtime_log_summary 0))

abbrev count {ℓ} : {A : Type ℓ} → List A → ℕ
count [] = 0
count (x ∷ xs) = suc (count xs)

abbrev pub snapshot_projection : DeviceHealthSnapshotPayload → Projection
snapshot_projection p = record {
  material =
      ("agent.status", p.agent_status)
      ∷ ("home_assistant.core.status", p.core_status)
      ∷ ("home_assistant.backup.status", p.backup_status)
      ∷ [];
  sidecar =
      ("runtime_log_summary.count", decimal (count p.runtime_log_summary))
      ∷ ("ha_apps.count", decimal (count p.ha_apps))
      ∷ [];
}

-- `DeviceHealthSnapshotHandler.Validate`, where `decode` is the decoding of the payload
unfoldable pub health_snapshot_validate :
    (String → Outcome DeviceHealthSnapshotPayload) → RuntimeEnvelope → Outcome Projection
unfolding validate_snapshot
health_snapshot_validate decode e =
    checked (relabel "decode device.health_snapshot payload" (decode e.payload))
      (λ p. validate_snapshot p e.applied_publish_policy_version) snapshot_projection
