-- ===== src/Artifacts/Examples.antt =====
-- Runs of `CreateUpload` over a list of slots, and its theorems at them.
use mathlib.Core.Option.{some-injective}
use home_assistant.Base.{
  ℕ, String, none, some, List, [], ◌∷◌, ◌++◌, ◌≡◌, refl, sym, ap, subst, ok, Exec, ◌>>=◌,
  trim_space,
}
use home_assistant.Base.Decimal.{digit, decimal_from, decimal, decimal_2, decimal_4}
use home_assistant.Base.Ensures.{Settles}
use home_assistant.Base.Int.{pos}
use home_assistant.Base.Json
use home_assistant.Base.Sources.{clock_or, generated_id}
use home_assistant.Base.Split.{append, has, split, join}
use home_assistant.Base.Time.{Time}
use home_assistant.Base.Time.Format.{civil_date}
use home_assistant.Artifacts.Model.{
  error_log_bundle, pending_upload, UploadSlot, CreateUploadRequest, CreateUploadResponse,
  UploadCapability, UploadUrlRequest, default_purpose_registry,
}
use home_assistant.Artifacts.Service
use home_assistant.Artifacts.Service.{
  Repository, Service, object_key_segments, build_object_key, create_upload,
}
use home_assistant.Artifacts.ObjectKeys.{SameKeyed, object_key_injective}
use home_assistant.Artifacts.Laws.{Stored, RepositoryLaws, ServiceLaws}
use home_assistant.Artifacts.Contracts.{Created, Failed, create_upload_contract, create_upload_key}

-- What a run computes through.
machinery : ℕ
unfolding create_upload Service.new_upload_id Service.definition_for Service.checked_definition
    Service.size_error Service.validate_upload_slot build_object_key default_purpose_registry
    clock_or generated_id append has split join civil_date digit decimal_from decimal decimal_2
    decimal_4 Json.valid trim_space ◌>>=◌
machinery = 0

record Memory : Type 0 where
  slots : List UploadSlot
  time : Time

abbrev view : Memory → Stored
view m = m.slots

repository : Repository Memory
repository = record { create_upload_slot = λ x m. (ok tt, record m { slots = m.slots ++ x ∷ [] }) }

abbrev issue : UploadUrlRequest → Exec Memory UploadCapability
issue req m = (
  ok (record {
    upload_id = req.upload_id;
    method = req.method;
    url = "https://bucket.example/upload";
    expires_at = req.expires_at;
    content_type = req.content_type;
    max_bytes = req.max_size_bytes;
  }),
  m,
)

abbrev service : Service Memory
service = record {
  repository = some repository;
  issuer = some issue;
  purposes = none;
  bucket = "bucket";
  id_generator = some (λ m. (" upload-1 ", m));
  clock = some (λ m. (m.time, m));
  wall_clock = λ m. (m.time, m);
}

repository_laws : RepositoryLaws view repository
unfolding repository
repository_laws = record { create_lem = λ x v. record { at = λ m e. ap (λ l. l ++ x ∷ []) e } }

service_laws : ServiceLaws view service
service_laws = record {
  repository_lem = λ r e. subst (RepositoryLaws view) (some-injective _ _ e) repository_laws;
  issuer_lem = λ f req e m. sym (
      ap (λ (g : UploadUrlRequest → Exec Memory UploadCapability). view (g req m).1)
        (some-injective _ _ e));
  clock_lem =
      λ f e m. sym (ap (λ (g : Memory → Time × Memory). view (g m).1) (some-injective _ _ e));
  wall_clock_lem = λ m. refl;
  id_generator_lem =
      λ f e m. sym (ap (λ (g : Memory → String × Memory). view (g m).1) (some-injective _ _ e));
}

abbrev request : CreateUploadRequest
request = record {
  account_id = "a1";
  site_id = "s1";
  device_id = "d1 ";
  command_id = "c1";
  purpose = error_log_bundle;
  requested_by_subject_type = "user";
  requested_by_subject_id = "u1";
  content_type = "text/plain";
  expected_size_bytes = some (pos 1_000);
  checksum_sha256 = "";
  local_artifact_ref = "";
  redaction_profile = "";
  metadata = [];
}

abbrev empty : Memory
empty = record { slots = []; time = 63_844_761_600_000_000_000 }

abbrev slot : UploadSlot
slot = record {
  upload_id = "upload-1";
  account_id = "a1";
  site_id = "s1";
  device_id = "d1";
  command_id = "c1";
  purpose = error_log_bundle;
  status = pending_upload;
  requested_by_subject_type = "user";
  requested_by_subject_id = "u1";
  object_bucket = "bucket";
  object_key = "artifacts/accounts/a1/sites/s1/devices/d1/error_log_bundle/2024/02/29/upload-1";
  content_type = "text/plain";
  max_size_bytes = pos 5_242_880;
  expected_size_bytes = some (pos 1_000);
  checksum_sha256 = "";
  local_artifact_ref = "";
  redaction_profile = "";
  metadata = Json.empty_object;
  expires_at = 63_844_762_500_000_000_000;
  created_at = 63_844_761_600_000_000_000;
  updated_at = 63_844_761_600_000_000_000;
}

abbrev response : CreateUploadResponse
response = record {
  upload = slot;
  capability = record {
    upload_id = "upload-1";
    method = "PUT";
    url = "https://bucket.example/upload";
    expires_at = 63_844_762_500_000_000_000;
    content_type = "text/plain";
    max_bytes = pos 5_242_880;
  };
}

created_run : (create_upload service request empty).0 ≡ ok response
unfolding machinery repository
created_run = refl

create_upload_contract_example :
    Settles
      (Created view service service_laws [] request)
      (Failed view service service_laws [] request)
      (create_upload service request empty).0
      (create_upload service request empty).1
create_upload_contract_example = create_upload_contract view service service_laws request empty

create_upload_key_example : split 0x2f slot.object_key ≡ object_key_segments slot
create_upload_key_example =
    create_upload_key view service service_laws request empty response refl created_run

abbrev again : UploadSlot
again = record slot { command_id = "c2"; content_type = "application/json" }

object_key_injective_example : SameKeyed slot again
unfolding machinery
object_key_injective_example =
    object_key_injective slot again
      (record {
        account_id = refl;
        site_id = refl;
        device_id = refl;
        purpose = refl;
        upload_id = refl;
      })
      (record {
        account_id = refl;
        site_id = refl;
        device_id = refl;
        purpose = refl;
        upload_id = refl;
      })
      refl
