-- ===== src/Artifacts/Service.antt =====
-- `CreateUpload` of backend/internal/domain/artifacts/service.go, over a world `W` on which the
-- repository, the issuer of URLs, the clock and the id generator act.
use home_assistant.Base.{
  ℕ, ◌+◌, String, Bool, true, false, not, ◌||◌, Option, none, some, List, [], ◌∷◌, is_empty,
  trim_space, if◌then◌else◌, eqb, leb, Error, errorf, Outcome, ok, err, Exec, returns, lift,
  wrapping, check, ensure, present, ◌>>=◌, ◌>>◌,
}
use home_assistant.Base.Decimal.{decimal_2, decimal_4}
use home_assistant.Base.Int.{ℤ, is_negative, is_nonpositive, le_int}
use home_assistant.Base.Json
use home_assistant.Base.Sources.{clock_or, generated_id}
use home_assistant.Base.Split.{has, join}
use home_assistant.Base.Time.{Time, is_zero, after}
use home_assistant.Base.Time.Format.{civil_date}
use home_assistant.Artifacts.Model.{
  Purpose, purpose_text, pending_upload, PurposeDefinition, UploadSlot, CreateUploadRequest,
  UploadUrlRequest, UploadCapability, CreateUploadResponse, is_allowed, default_purpose_registry,
}

pub record Repository (W : Type 0) : Type 0 where
  pub create_upload_slot : UploadSlot → Exec W (Unit {0})

pub record Service (W : Type 0) : Type 0 where
  pub repository : Option (Repository W)
  pub issuer : Option (UploadUrlRequest → Exec W UploadCapability)
  pub purposes : Option (Purpose → Option PurposeDefinition)
  pub bucket : String
  pub id_generator : Option (W → String × W)
  pub clock : Option (W → Time × W)
  pub wall_clock : W → Time × W

-- the characters of "/\"
abbrev pub is_separator : ℕ → Bool
is_separator c = eqb c 0x2f || eqb c 0x5c

abbrev pub cleaned : String → String
cleaned value = if has is_separator value then "" else value

abbrev pub clean_segment : String → String
clean_segment value = cleaned (trim_space value)

abbrev purpose_error : String → Purpose → Error
purpose_error message purpose = errorf message (purpose_text purpose ∷ [])

abbrev is_empty_list : {A : Type 0} → List A → Bool
is_empty_list [] = true
is_empty_list (a ∷ rest) = false

unfoldable pub checked_definition : Purpose → Option PurposeDefinition → Outcome PurposeDefinition
checked_definition purpose none = err (purpose_error "unsupported artifact purpose %q" purpose)
checked_definition purpose (some definition) =
    if is_nonpositive definition.max_size_bytes
    then err (purpose_error "max size is required for purpose %q" purpose)
    else if leb definition.default_url_ttl 0
    then err (purpose_error "default URL TTL is required for purpose %q" purpose)
    else if is_empty_list definition.allowed_content_type
    then err (purpose_error "content type registry is required for purpose %q" purpose)
    else ok definition

abbrev pub purposes_or_default :
    Option (Purpose → Option PurposeDefinition) → Purpose → Option PurposeDefinition
purposes_or_default none = default_purpose_registry
purposes_or_default (some purposes) = purposes

unfoldable pub size_error : Option ℤ → ℤ → Option Error
size_error none limit = none
size_error (some size) limit =
    if is_negative size
    then some (errorf "expected size cannot be negative" [])
    else if not (le_int size limit)
    then some (errorf "expected size exceeds purpose max" [])
    else none

unfoldable pub validate_upload_slot : UploadSlot → Option Error
validate_upload_slot slot =
    if is_empty slot.account_id
    then some (errorf "account_id is required" [])
    else if is_empty slot.site_id
    then some (errorf "site_id is required" [])
    else if is_empty slot.device_id
    then some (errorf "device_id is required" [])
    else if is_empty slot.content_type
    then some (errorf "content_type is required" [])
    else if is_zero slot.expires_at || not (after slot.expires_at slot.created_at)
    then some (errorf "expires_at must be after created_at" [])
    else none

abbrev pub date_segments : ℕ × ℕ × ℕ → List String → List String
date_segments (year, month, day) rest = decimal_4 year ∷ decimal_2 month ∷ decimal_2 day ∷ rest

abbrev pub object_key_segments : UploadSlot → List String
object_key_segments slot =
    "artifacts"
    ∷ "accounts"
    ∷ slot.account_id
    ∷ "sites"
    ∷ slot.site_id
    ∷ "devices"
    ∷ slot.device_id
    ∷ purpose_text slot.purpose
    ∷ date_segments (civil_date slot.created_at) (slot.upload_id ∷ [])

unfoldable pub build_object_key : UploadSlot → String
build_object_key slot = join "/" (object_key_segments slot)

abbrev pub new_slot : String → CreateUploadRequest → String → PurposeDefinition → Time → UploadSlot
new_slot bucket req id definition t = record {
  upload_id = id;
  account_id = clean_segment req.account_id;
  site_id = clean_segment req.site_id;
  device_id = clean_segment req.device_id;
  command_id = trim_space req.command_id;
  purpose = req.purpose;
  status = pending_upload;
  requested_by_subject_type = trim_space req.requested_by_subject_type;
  requested_by_subject_id = trim_space req.requested_by_subject_id;
  object_bucket = trim_space bucket;
  object_key = "";
  content_type = trim_space req.content_type;
  max_size_bytes = definition.max_size_bytes;
  expected_size_bytes = req.expected_size_bytes;
  checksum_sha256 = trim_space req.checksum_sha256;
  local_artifact_ref = trim_space req.local_artifact_ref;
  redaction_profile = trim_space req.redaction_profile;
  metadata = Json.or_empty_object req.metadata;
  expires_at = t + definition.default_url_ttl;
  created_at = t;
  updated_at = t;
}

abbrev pub with_key : UploadSlot → UploadSlot
with_key slot = record slot { object_key = build_object_key slot }

abbrev pub url_request : UploadSlot → UploadUrlRequest
url_request slot = record {
  upload_id = slot.upload_id;
  object_bucket = slot.object_bucket;
  object_key = slot.object_key;
  method = "PUT";
  content_type = slot.content_type;
  max_size_bytes = slot.max_size_bytes;
  expires_at = slot.expires_at;
  checksum_sha256 = slot.checksum_sha256;
}

module _ {W : Type 0} where
  unfoldable pub definition_for : Service W → Purpose → Outcome PurposeDefinition
  definition_for s purpose = checked_definition purpose (purposes_or_default s.purposes purpose)

  unfoldable pub new_upload_id : Service W → Exec W String
  new_upload_id s = do
    id ←
        generated_id s.id_generator (errorf "upload id generator is required" [])
          (errorf "upload id is required" [])
    ensure (not (has is_separator id)) (errorf "upload id contains path separators" [])
    returns id

  unfoldable pub create_upload : Service W → CreateUploadRequest → Exec W CreateUploadResponse
  create_upload s req = do
    repository ← present s.repository (errorf "artifact repository is required" [])
    issue_upload_url ← present s.issuer (errorf "signed URL issuer is required" [])
    ensure (not (is_empty (trim_space s.bucket))) (errorf "object bucket is required" [])
    definition ← lift (definition_for s req.purpose)
    t ← clock_or s.clock s.wall_clock
    id ← new_upload_id s
    ensure (is_allowed definition.allowed_content_type (trim_space req.content_type)) (
        errorf "unsupported content type %q for purpose %q"
          (trim_space req.content_type ∷ purpose_text req.purpose ∷ []))
    check (size_error req.expected_size_bytes definition.max_size_bytes)
    ensure (Json.valid (Json.or_empty_object req.metadata))
        (errorf "metadata must be valid JSON" [])
    let unkeyed = new_slot s.bucket req id definition t
    check (validate_upload_slot unkeyed)
    let slot = with_key unkeyed
    wrapping "create artifact upload slot" (repository.create_upload_slot slot)
    capability ← wrapping "issue signed upload URL" (issue_upload_url (url_request slot))
    returns (record { upload = slot; capability = capability })
