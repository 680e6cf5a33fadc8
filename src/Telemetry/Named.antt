-- ===== src/Telemetry/Named.antt =====
-- The devices that a payload names, and that each of them is the one that was resolved.
use home_assistant.Base.{
  String, true, some, List, [], ◌∷◌, ◌++◌, ◌≡◌, ◌⊎◌, inl, inr, ok, subst, is_empty, trim_space,
}
use home_assistant.Telemetry.Catalog.{Decoders}
use home_assistant.Telemetry.Pipeline.{
  lookup, decoded_text, string_field, nested_ids, device_field, payload_device_ids,
}

-- An id is empty or the device's.
abbrev pub Matches : String → String → Type 0
Matches id device_id = (is_empty id ≡ true) ⊎ (id ≡ device_id)

abbrev pub AllMatch : List String → String → Type 0
AllMatch [] device_id = Unit
AllMatch (id ∷ rest) device_id = Matches id device_id × AllMatch rest device_id

-- A text in a field of an object.
pub record HasText (decoders : Decoders) (field : String) (object : List (String × String))
    (value : String) : Type 0 where
  pub document : String
  pub present : lookup field object ≡ some document
  pub decoded : decoders.text document ≡ ok value

-- A payload names a device in one of two fields, or in one of two fields of the object in a third.
pub data NamesDevice (decoders : Decoders) (raw : List (String × String)) (id : String)
    : Type 0 where
  by_id : HasText decoders "device_id" raw id → NamesDevice decoders raw id
  by_homesignal_id : HasText decoders "homesignal_device_id" raw id → NamesDevice decoders raw id
  nested :
      (document : String) (device : List (String × String))
      → lookup "device" raw ≡ some document
      → decoders.object document ≡ ok device
      → HasText decoders "homesignal_device_id" device id ⊎ HasText decoders "device_id" device id
      → NamesDevice decoders raw id

split_lem :
    (xs ys : List String) (d : String) → AllMatch (xs ++ ys) d → AllMatch xs d × AllMatch ys d
split_lem [] ys d h = (tt, h)
split_lem (x ∷ xs) ys d h = let (front, back) = split_lem xs ys d h.1 in ((h.0, front), back)

field_lem :
    (decoders : Decoders) (field : String) (object : List (String × String)) (id d : String)
    → HasText decoders field object id
    → AllMatch (string_field decoders (lookup field object)) d
    → Matches (trim_space id) d
field_lem decoders field object id d t h =
    let found = subst (λ o. AllMatch (string_field decoders o) d) t.present h in
    (subst (λ o. AllMatch (decoded_text o) d) t.decoded found).0

-- Where all that the pipeline looks at match, each id that the payload names does.
pub named_lem :
    (decoders : Decoders) (raw : List (String × String)) (d : String)
    → AllMatch (payload_device_ids decoders raw) d
    → (id : String) → NamesDevice decoders raw id
    → Matches (trim_space id) d
unfolding payload_device_ids
named_lem decoders raw d h id named =
    let one = string_field decoders (lookup "device_id" raw) in
    let other_one = string_field decoders (lookup "homesignal_device_id" raw) in
    let (front, third) =
      split_lem (one ++ other_one) (device_field decoders (lookup "device" raw)) d h in
    let (first, second) = split_lem one other_one d front in
    elim named [
      | by_id t ↦ field_lem decoders "device_id" raw id d t first
      | by_homesignal_id t ↦ field_lem decoders "homesignal_device_id" raw id d t second
      | nested document device e o t ↦
          (let (own, other) =
              split_lem (string_field decoders (lookup "homesignal_device_id" device)) _ d (
                subst (λ x. AllMatch (nested_ids decoders x) d) o
                  (subst (λ x. AllMatch (device_field decoders x) d) e third)) in
            elim t [
              | inl t ↦ field_lem decoders "homesignal_device_id" device id d t own
              | inr t ↦ field_lem decoders "device_id" device id d t other
            ])
    ]
