-- ===== src/Artifacts/Laws.antt =====
-- What the artifact service relies on, and what `CreateUpload` is to leave behind.
use home_assistant.Base.{
  ◌<◌, String, true, false, Option, none, some, List, [], ◌∷◌, ◌++◌, ◌≡◌, Exec, reading, ok,
  is_empty,
}
use home_assistant.Base.Ensures.{Ensures}
use home_assistant.Base.Int.{ℤ, is_negative, is_nonpositive, le_int}
use home_assistant.Base.Json
use home_assistant.Base.Simulation.{Shows, Quiet}
use home_assistant.Base.Split.{has}
use home_assistant.Base.Time.{Time}
use home_assistant.Artifacts.Model.{
  PurposeDefinition, UploadSlot, CreateUploadRequest, UploadUrlRequest, UploadCapability,
  is_allowed,
}
use home_assistant.Artifacts.Service.{
  Repository, Service, is_separator, definition_for, new_slot, with_key, url_request,
}

-- The slots that are stored, in their order. An error has stored nothing.
abbrev pub Stored : Type 0
Stored = List UploadSlot

pub record RepositoryLaws {W : Type 0} (view : W → Stored) (r : Repository W) : Type 0 where
  pub create_lem :
      (x : UploadSlot) (v : Stored)
      → Ensures (Shows view v) (λ _ w. view w ≡ v ++ x ∷ []) (Shows view v) (r.create_upload_slot x)

pub record ServiceLaws {W : Type 0} (view : W → Stored) (s : Service W) : Type 0 where
  pub repository_lem : (r : Repository W) → s.repository ≡ some r → RepositoryLaws view r
  pub issuer_lem :
      (f : UploadUrlRequest → Exec W UploadCapability) (req : UploadUrlRequest)
      → s.issuer ≡ some f
      → Quiet view (f req)
  pub clock_lem : (f : W → Time × W) → s.clock ≡ some f → Quiet view (reading f)
  pub wall_clock_lem : Quiet view (reading s.wall_clock)
  pub id_generator_lem : (f : W → String × W) → s.id_generator ≡ some f → Quiet view (reading f)

abbrev pub Fits : ℤ → Option ℤ → Type 0
Fits limit none = Unit
Fits limit (some size) = (is_negative size ≡ false) × (le_int size limit ≡ true)

-- A slot that the service may store for a request.
pub record IsSlot {W : Type 0} (s : Service W) (req : CreateUploadRequest) (slot : UploadSlot)
    : Type 0 where
  pub definition : PurposeDefinition
  pub time : Time
  pub is_definition : definition_for s req.purpose ≡ ok definition
  pub is_slot : slot ≡ with_key (new_slot s.bucket req slot.upload_id definition time)
  pub allowed : is_allowed definition.allowed_content_type slot.content_type ≡ true
  pub limited : is_nonpositive slot.max_size_bytes ≡ false
  pub fits : Fits slot.max_size_bytes slot.expected_size_bytes
  pub lasting : slot.created_at < slot.expires_at
  pub bucket : is_empty slot.object_bucket ≡ false
  pub upload_id : is_empty slot.upload_id ≡ false
  pub account_id : is_empty slot.account_id ≡ false
  pub site_id : is_empty slot.site_id ≡ false
  pub device_id : is_empty slot.device_id ≡ false
  pub metadata : Json.valid slot.metadata ≡ true
  pub account_segment : has is_separator slot.account_id ≡ false
  pub site_segment : has is_separator slot.site_id ≡ false
  pub device_segment : has is_separator slot.device_id ≡ false
  pub upload_segment : has is_separator slot.upload_id ≡ false

-- The issuer answered the capability for the upload of just this slot.
pub record IsIssued {W : Type 0} (s : Service W) (slot : UploadSlot) (capability : UploadCapability)
    : Type 0 where
  pub issue_upload_url : UploadUrlRequest → Exec W UploadCapability
  pub is_issuer : s.issuer ≡ some issue_upload_url
  pub world : W
  pub is_answer : (issue_upload_url (url_request slot) world).0 ≡ ok capability
