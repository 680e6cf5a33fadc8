-- ===== src/Artifacts/Model.antt =====
-- The data of backend/internal/domain/artifacts/service.go. A map from content types to Booleans is a
-- list of its entries.
use home_assistant.Base.{
  ℕ, ◌*◌, String, Bool, true, false, Option, none, some, List, [], ◌∷◌, ◌==◌, if◌then◌else◌,
}
use home_assistant.Base.Int.{ℤ, pos}
use home_assistant.Base.Time.{Time, Duration, minute}

pub data Purpose : Type 0 where
  error_log_bundle diagnostic_bundle debug_bundle backup_artifact : Purpose
  unknown : String → Purpose

abbrev pub purpose_text : Purpose → String
purpose_text error_log_bundle = "error_log_bundle"
purpose_text diagnostic_bundle = "diagnostic_bundle"
purpose_text debug_bundle = "debug_bundle"
purpose_text backup_artifact = "backup_artifact"
purpose_text (unknown s) = s

pub data Status : Type 0 where
  pending_upload uploaded validated rejected expired canceled : Status
  unknown : String → Status

pub record PurposeDefinition : Type 0 where
  pub max_size_bytes : ℤ
  pub default_url_ttl : Duration
  pub allowed_content_type : List (String × Bool)

pub record UploadSlot : Type 0 where
  pub upload_id : String
  pub account_id : String
  pub site_id : String
  pub device_id : String
  pub command_id : String
  pub purpose : Purpose
  pub status : Status
  pub requested_by_subject_type : String
  pub requested_by_subject_id : String
  pub object_bucket : String
  pub object_key : String
  pub content_type : String
  pub max_size_bytes : ℤ
  pub expected_size_bytes : Option ℤ
  pub checksum_sha256 : String
  pub local_artifact_ref : String
  pub redaction_profile : String
  pub metadata : List ℕ
  pub expires_at : Time
  pub created_at : Time
  pub updated_at : Time

pub record CreateUploadRequest : Type 0 where
  pub account_id : String
  pub site_id : String
  pub device_id : String
  pub command_id : String
  pub purpose : Purpose
  pub requested_by_subject_type : String
  pub requested_by_subject_id : String
  pub content_type : String
  pub expected_size_bytes : Option ℤ
  pub checksum_sha256 : String
  pub local_artifact_ref : String
  pub redaction_profile : String
  pub metadata : List ℕ

pub record UploadUrlRequest : Type 0 where
  pub upload_id : String
  pub object_bucket : String
  pub object_key : String
  pub method : String
  pub content_type : String
  pub max_size_bytes : ℤ
  pub expires_at : Time
  pub checksum_sha256 : String

pub record UploadCapability : Type 0 where
  pub upload_id : String
  pub method : String
  pub url : String
  pub expires_at : Time
  pub content_type : String
  pub max_bytes : ℤ

pub record CreateUploadResponse : Type 0 where
  pub upload : UploadSlot
  pub capability : UploadCapability

abbrev pub content_types : List String → List (String × Bool)
content_types [] = []
content_types (value ∷ values) = (value, true) ∷ content_types values

abbrev pub is_allowed : List (String × Bool) → String → Bool
is_allowed [] content_type = false
is_allowed ((value, allowed) ∷ rest) content_type =
    if value == content_type then allowed else is_allowed rest content_type

abbrev log_types : List String
log_types =
    "application/json" ∷ "application/x-ndjson" ∷ "text/plain" ∷ "application/gzip"
    ∷ "application/zstd" ∷ []

abbrev bundle_types : List String
bundle_types =
    "application/json" ∷ "application/x-ndjson" ∷ "text/plain" ∷ "application/gzip"
    ∷ "application/zstd" ∷ "application/zip" ∷ []

abbrev backup_types : List String
backup_types =
    "application/gzip" ∷ "application/octet-stream" ∷ "application/x-tar" ∷ "application/zip" ∷ []

abbrev megabytes : ℕ → List String → Option PurposeDefinition
megabytes n types = some (record {
  max_size_bytes = pos (n * 1_024 * 1_024);
  default_url_ttl = 15 * minute;
  allowed_content_type = content_types types;
})

-- a purpose that the map has no entry for is `none`
unfoldable pub default_purpose_registry : Purpose → Option PurposeDefinition
default_purpose_registry error_log_bundle = megabytes 5 log_types
default_purpose_registry diagnostic_bundle = megabytes 25 bundle_types
default_purpose_registry debug_bundle = megabytes 25 bundle_types
default_purpose_registry backup_artifact = megabytes 250 backup_types
default_purpose_registry (Purpose.unknown s) = none
