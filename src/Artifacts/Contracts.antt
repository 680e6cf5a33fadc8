-- ===== src/Artifacts/Contracts.antt =====
-- `CreateUpload`: what it leaves behind, whether it returns or fails.
use home_assistant.Base.{
  String, true, false, Option, none, some, [], ◌∷◌, ◌++◌, ◌≡◌, ◌⊎◌, inl, inr, refl, sym, ◌∙◌, ap,
  Outcome, ok, err, Exec, arith, is_empty, trim_space,
}
use home_assistant.Base.Ensures.{
  Settles, Ensures, Ensures-returns, Ensures-present, Ensures-wrapping, Ensures-ensure,
  Ensures-lift, Ensures-bind, Ensures-fact, Ensures-mono, Settles-ok,
}
use home_assistant.Base.Int.{ℤ, is_nonpositive}
use home_assistant.Base.Json
use home_assistant.Base.Simulation.{Shows, Quiet-Ensures, check-Ensures}
use home_assistant.Base.Sources.{clock_or-Quiet, generated_id-Ensures}
use home_assistant.Base.Split.{has, split}
use home_assistant.Base.Time.{Time}
use home_assistant.Artifacts.Model.{
  PurposeDefinition, Purpose, UploadSlot, CreateUploadRequest, CreateUploadResponse,
  UploadUrlRequest, UploadCapability, is_allowed,
}
use home_assistant.Artifacts.Service.{
  Service, is_separator, checked_definition, definition_for, new_upload_id, size_error,
  validate_upload_slot, new_slot, with_key, url_request, object_key_segments, build_object_key,
  create_upload,
}
use home_assistant.Artifacts.ObjectKeys.{cleaned_lem, default_purpose_lem, split-build_object_key}
use home_assistant.Artifacts.Laws.{Stored, RepositoryLaws, ServiceLaws, Fits, IsSlot, IsIssued}

size_lem : (o : Option ℤ) (limit : ℤ) → size_error o limit ≡ none → Fits limit o
unfolding size_error
size_lem none limit h = tt
size_lem (some size) limit h = (ground arith, ground arith)

limit_lem :
    (purpose : Purpose) (o : Option PurposeDefinition) (d : PurposeDefinition)
    → checked_definition purpose o ≡ ok d
    → is_nonpositive d.max_size_bytes ≡ false
unfolding checked_definition
limit_lem purpose none d h = absurd cc
limit_lem purpose (some x) d h = ground arith

slot_lem :
    {W : Type 0} (s : Service W) (req : CreateUploadRequest) (id : String) (d : PurposeDefinition)
    (t : Time)
    → definition_for s req.purpose ≡ ok d
    → is_empty (trim_space s.bucket) ≡ false
    → (is_empty id ≡ false) × (has is_separator id ≡ false)
    → is_allowed d.allowed_content_type (trim_space req.content_type) ≡ true
    → size_error req.expected_size_bytes d.max_size_bytes ≡ none
    → Json.valid (Json.or_empty_object req.metadata) ≡ true
    → validate_upload_slot (new_slot s.bucket req id d t) ≡ none
    → IsSlot s req (with_key (new_slot s.bucket req id d t))
unfolding definition_for validate_upload_slot
slot_lem s req id d t definition bucket named allowed size metadata valid = record {
  definition = d;
  time = t;
  is_definition = definition;
  is_slot = refl;
  allowed = allowed;
  limited = limit_lem req.purpose _ d definition;
  fits = size_lem _ _ size;
  lasting = ground arith;
  bucket = bucket;
  upload_id = named.0;
  account_id = ground arith;
  site_id = ground arith;
  device_id = ground arith;
  metadata = metadata;
  account_segment = cleaned_lem (trim_space req.account_id);
  site_segment = cleaned_lem (trim_space req.site_id);
  device_segment = cleaned_lem (trim_space req.device_id);
  upload_segment = named.1;
}

module _ {W : Type 0} (view : W → Stored) (s : Service W) (laws : ServiceLaws view s) (v : Stored)
    (req : CreateUploadRequest) where
  -- What a failed call leaves: nothing new, or a slot for which no URL was issued.
  abbrev pub Failed : W → Type 0
  Failed w = (view w ≡ v) ⊎ ((slot : UploadSlot) × IsSlot s req slot × (view w ≡ v ++ slot ∷ []))

  abbrev pub Created : CreateUploadResponse → W → Type 0
  Created x w =
      IsSlot s req x.upload × IsIssued s x.upload x.capability × (view w ≡ v ++ x.upload ∷ [])

  bad : (w : W) → view w ≡ v → Failed w
  bad w p = inl p

  unchanged :
      {A : Type 0} {Q : A → W → Type 0} {m : Exec W A}
      → Ensures (Shows view v) Q (Shows view v) m
      → Ensures (Shows view v) Q Failed m
  unchanged h = Ensures-mono h (λ w p. p) (λ a w q. q) bad

  new_upload_id-Ensures :
      Ensures
        (Shows view v)
        (λ id w. ((is_empty id ≡ false) × (has is_separator id ≡ false)) × (view w ≡ v))
        (Shows view v)
        (new_upload_id s)
  unfolding new_upload_id
  new_upload_id-Ensures =
      Ensures-bind (generated_id-Ensures view v s.id_generator _ _ laws.id_generator_lem) λ id.
        Ensures-fact λ named.
          Ensures-bind (Ensures-ensure _ _ (λ w p. p))
            λ _. Ensures-fact λ segment. Ensures-returns id λ w p. ((named, ground arith), p)

  issued_lem :
      (f : UploadUrlRequest → Exec W UploadCapability) (slot : UploadSlot)
      → s.issuer ≡ some f
      → IsSlot s req slot
      → Ensures
          (Shows view (v ++ slot ∷ []))
          (λ c w. IsIssued s slot c × (view w ≡ v ++ slot ∷ []))
          Failed
          (f (url_request slot))
  issued_lem f slot e is = record {
    at = λ w p.
        answer_lem (f (url_request slot) w).0 (f (url_request slot) w).1 w refl
          (laws.issuer_lem f (url_request slot) e w ∙ p);
  }
    where
      answer_lem :
          (o : Outcome UploadCapability) (w u : W)
          → (f (url_request slot) u).0 ≡ o
          → view w ≡ v ++ slot ∷ []
          → Settles (λ c w. IsIssued s slot c × (view w ≡ v ++ slot ∷ [])) Failed o w
      answer_lem (ok c) w u h p =
          (record { issue_upload_url = f; is_issuer = e; world = u; is_answer = h }, p)
      answer_lem (err x) w u h p = inr (slot, is, p)

  create_upload-Ensures : Ensures (Shows view v) Created Failed (create_upload s req)
  unfolding create_upload
  create_upload-Ensures =
      Ensures-bind {Q = λ r w. RepositoryLaws view r × (view w ≡ v)}
        (Ensures-present _ _ (λ r w e p. (laws.repository_lem r e, p)) bad)
        λ r. Ensures-fact λ lawful.
          Ensures-bind {Q = λ f w. (s.issuer ≡ some f) × (view w ≡ v)}
            (Ensures-present _ _ (λ f w e p. (e, p)) bad)
            λ f. Ensures-fact λ issuer. Ensures-bind (Ensures-ensure _ _ bad) λ _.
              Ensures-fact λ bucket.
                Ensures-bind {Q = λ d w. (definition_for s req.purpose ≡ ok d) × (view w ≡ v)}
                  (Ensures-lift _ (λ d w e p. (e, p)) bad)
                  λ d. Ensures-fact λ definition.
                    Ensures-bind
                      (unchanged (
                        Quiet-Ensures view v _ (
                          clock_or-Quiet view s.clock s.wall_clock laws.clock_lem
                            laws.wall_clock_lem)))
                      λ t. Ensures-bind (unchanged new_upload_id-Ensures) λ id.
                        Ensures-fact λ named. Ensures-bind (Ensures-ensure _ _ bad) λ _.
                          Ensures-fact λ allowed.
                            Ensures-bind (unchanged (check-Ensures view v _)) λ _.
                              Ensures-fact λ size. Ensures-bind (Ensures-ensure _ _ bad) λ _.
                                Ensures-fact λ metadata.
                                  Ensures-bind (unchanged (check-Ensures view v _)) λ _.
                                    Ensures-fact λ valid.
                                      let slot = with_key (new_slot s.bucket req id d t) in
                                      let is =
                                        slot_lem s req id d t definition (ground arith) named
                                          allowed size metadata valid in
                                      Ensures-bind
                                        (Ensures-wrapping _ (unchanged (lawful.create_lem slot v)))
                                        λ _.
                                          Ensures-bind
                                            (Ensures-wrapping _ (issued_lem f slot issuer is))
                                            λ c.
                                              Ensures-fact
                                                λ issued. Ensures-returns _ λ w p. (is, issued, p)

key_lem :
    {W : Type 0} (s : Service W) (req : CreateUploadRequest) (slot : UploadSlot)
    → s.purposes ≡ none
    → IsSlot s req slot
    → split 0x2f slot.object_key ≡ object_key_segments slot
unfolding definition_for build_object_key
key_lem s req slot e h =
    ap (λ x. split 0x2f x.object_key) h.is_slot
    ∙ split-build_object_key (with_key (new_slot s.bucket req slot.upload_id h.definition h.time))
        (record {
          account_id = cleaned_lem (trim_space req.account_id);
          site_id = cleaned_lem (trim_space req.site_id);
          device_id = cleaned_lem (trim_space req.device_id);
          purpose = default_purpose_lem s.purposes req.purpose h.definition e h.is_definition;
          upload_id = h.upload_segment;
        })
    ∙ ap object_key_segments (sym h.is_slot)

module _ {W : Type 0} (view : W → Stored) (s : Service W) (laws : ServiceLaws view s) where
  -- CreateUpload, under the laws of the service. It returns a slot that it stored, and the capability
  -- that the issuer answered for this slot: of a known purpose, with an allowed content type, an
  -- expected size, if any, from 0 to the purpose's limit, which is positive, an end after its
  -- beginning, a bucket, an id, an account, a site and a device, the last four without path
  -- separators, and metadata that are valid JSON. An error has stored nothing, or such a slot.
  pub create_upload_contract :
      (req : CreateUploadRequest) (w : W)
      → Settles
          (Created view s laws (view w) req)
          (Failed view s laws (view w) req)
          (create_upload s req w).0
          (create_upload s req w).1
  create_upload_contract req w = (create_upload-Ensures view s laws (view w) req).at w refl

  -- The object key that CreateUpload gives an upload splits at each slash into the account, the site,
  -- the device, the purpose, the date and the id that it was built from, between fixed words, if the
  -- service has the default purposes and meets its laws.
  pub create_upload_key :
      (req : CreateUploadRequest) (w : W) (x : CreateUploadResponse)
      → s.purposes ≡ none
      → (create_upload s req w).0 ≡ ok x
      → split 0x2f x.upload.object_key ≡ object_key_segments x.upload
  create_upload_key req w x e h =
      key_lem s req x.upload e
        (Settles-ok (Created view s laws (view w) req) (Failed view s laws (view w) req)
          (create_upload s req w).0 (create_upload s req w).1 x (create_upload_contract req w) h).0
