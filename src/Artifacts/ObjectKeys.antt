-- ===== src/Artifacts/ObjectKeys.antt =====
-- The object key of an upload, and what can be read back from it.
use Prim.Native.Char.{code}
use home_assistant.Base.{
  ℕ, zero, suc, String, false, Option, none, some, List, [], ◌∷◌, ◌≡◌, refl, sym, ◌∙◌, ap, arith,
  eqb, Bool-cases, inl, inr, ok,
}
use home_assistant.Base.Decimal.{digit, has-decimal_2, has-decimal_4}
use home_assistant.Base.Split.{has, split, AllLack, split-join}
use home_assistant.Artifacts.Model.{
  Purpose, error_log_bundle, diagnostic_bundle, debug_bundle, backup_artifact, PurposeDefinition,
  purpose_text, default_purpose_registry, UploadSlot,
}
use home_assistant.Artifacts.Service.{
  is_separator, cleaned, purposes_or_default, checked_definition, object_key_segments,
  build_object_key,
}

-- No path separator occurs in what a key is built from.
pub record IsKeyed (slot : UploadSlot) : Type 0 where
  pub account_id : has is_separator slot.account_id ≡ false
  pub site_id : has is_separator slot.site_id ≡ false
  pub device_id : has is_separator slot.device_id ≡ false
  pub purpose : has is_separator (purpose_text slot.purpose) ≡ false
  pub upload_id : has is_separator slot.upload_id ≡ false

slash_lem : (s : String) → has is_separator s ≡ false → has (eqb 0x2f) s ≡ false
unfolding has
slash_lem String.[] h = refl
slash_lem (String.◌∷◌ c s) h = ground (arith, slash_lem s)

digit_lem : (n : ℕ) → eqb 0x2f (code (digit n)) ≡ false
unfolding digit
digit_lem zero = refl
digit_lem (suc zero) = refl
digit_lem (suc (suc zero)) = refl
digit_lem (suc (suc (suc zero))) = refl
digit_lem (suc (suc (suc (suc zero)))) = refl
digit_lem (suc (suc (suc (suc (suc zero))))) = refl
digit_lem (suc (suc (suc (suc (suc (suc zero)))))) = refl
digit_lem (suc (suc (suc (suc (suc (suc (suc zero))))))) = refl
digit_lem (suc (suc (suc (suc (suc (suc (suc (suc zero)))))))) = refl
digit_lem (suc (suc (suc (suc (suc (suc (suc (suc (suc n))))))))) = refl

segments-AllLack : (slot : UploadSlot) → IsKeyed slot → AllLack 0x2f (object_key_segments slot)
unfolding has
segments-AllLack slot h = (
  refl,
  (
    refl,
    (
      slash_lem slot.account_id h.account_id,
      (
        refl,
        (
          slash_lem slot.site_id h.site_id,
          (
            refl,
            (
              slash_lem slot.device_id h.device_id,
              (
                slash_lem (purpose_text slot.purpose) h.purpose,
                (
                  has-decimal_4 (eqb 0x2f) digit_lem _,
                  (
                    has-decimal_2 (eqb 0x2f) digit_lem _,
                    (
                      has-decimal_2 (eqb 0x2f) digit_lem _,
                      (slash_lem slot.upload_id h.upload_id, tt),
                    ),
                  ),
                ),
              ),
            ),
          ),
        ),
      ),
    ),
  ),
)

-- The segments of an object key are read back from it, if what it is built from has no separators.
pub split-build_object_key :
    (slot : UploadSlot)
    → IsKeyed slot
    → split 0x2f (build_object_key slot) ≡ object_key_segments slot
unfolding build_object_key
split-build_object_key slot h = split-join "/" _ _ (segments-AllLack slot h)

abbrev nth : ℕ → List String → String
nth n [] = ""
nth zero (s ∷ l) = s
nth (suc n) (s ∷ l) = nth n l

pub record SameKeyed (a b : UploadSlot) : Type 0 where
  pub account_id : a.account_id ≡ b.account_id
  pub site_id : a.site_id ≡ b.site_id
  pub device_id : a.device_id ≡ b.device_id
  pub purpose : purpose_text a.purpose ≡ purpose_text b.purpose
  pub upload_id : a.upload_id ≡ b.upload_id

-- Two uploads with one object key are of the same account, site, device and purpose, and have one id,
-- if what their keys are built from has no separators.
pub object_key_injective :
    (a b : UploadSlot)
    → IsKeyed a
    → IsKeyed b
    → build_object_key a ≡ build_object_key b
    → SameKeyed a b
object_key_injective a b ha hb e =
    let same : object_key_segments a ≡ object_key_segments b =
      sym (split-build_object_key a ha) ∙ ap (split 0x2f) e ∙ split-build_object_key b hb in
    record {
      account_id = ap (nth 2) same;
      site_id = ap (nth 4) same;
      device_id = ap (nth 6) same;
      purpose = ap (nth 7) same;
      upload_id = ap (nth 11) same;
    }

pub cleaned_lem : (s : String) → has is_separator (cleaned s) ≡ false
unfolding has
cleaned_lem s = elim (Bool-cases (has is_separator s)) [ inl e ↦ rw e refl | inr e ↦ rw e e ]

-- The purposes of the default registry have no separators.
pub default_purpose_lem :
    (o : Option (Purpose → Option PurposeDefinition)) (purpose : Purpose) (d : PurposeDefinition)
    → o ≡ none
    → checked_definition purpose (purposes_or_default o purpose) ≡ ok d
    → has is_separator (purpose_text purpose) ≡ false
unfolding checked_definition default_purpose_registry has
default_purpose_lem o error_log_bundle d e h = refl
default_purpose_lem o diagnostic_bundle d e h = refl
default_purpose_lem o debug_bundle d e h = refl
default_purpose_lem o backup_artifact d e h = refl
default_purpose_lem none (Purpose.unknown s) d e h = absurd cc
default_purpose_lem (some purposes) (Purpose.unknown s) d e h = absurd cc
