-- ===== src/Telemetry/Genuine.antt =====
-- What the pipeline writes, where it has the parser and the catalog that the source makes: each
-- message has passed the checks of its envelope, of its payload and of its identity.
use home_assistant.Base.{
  String, Bool, true, false, Option, none, some, List, [], ◌∷◌, ◌≡◌, refl, subst, inl, inr, ok, err,
  Outcome, Bool-cases, is_empty, trim_space, ◌==◌, eq_iff, Error, relabel,
}
use home_assistant.Telemetry.Model.{
  RuntimeRoute, RuntimeEnvelope, envelope_key, same_schema, ValidatedMessage, Projection,
  checked-ok,
}
use home_assistant.Telemetry.Envelope.{validate_envelope, validate_envelope_route}
use home_assistant.Telemetry.HealthSnapshot.{
  DeviceHealthSnapshotPayload, health_snapshot_key, validate_snapshot, snapshot_projection,
  health_snapshot_validate,
}
use home_assistant.Telemetry.AgentAlarm.{
  AgentAlarmPayload, agent_alarm_key, validate_alarm, alarm_projection, agent_alarm_validate,
}
use home_assistant.Telemetry.Catalog.{
  Decoders, refused_or, parsed, parse, validate, default_catalog,
}
use home_assistant.Telemetry.Named.{Matches, AllMatch, NamesDevice, named_lem}
use home_assistant.Telemetry.Pipeline.{
  payload_device_ids, match_ids, match_decoded, ensure_payload_identity_matches,
}

-- The payload is one of the two that the catalog knows, in its version 1, and valid; the projection is
-- made of it.
pub data IsProjected (decoders : Decoders) (e : RuntimeEnvelope) (projection : Projection)
    : Type 0 where
  health_snapshot :
      (payload : DeviceHealthSnapshotPayload)
      → same_schema health_snapshot_key (envelope_key e) ≡ true
      → decoders.health_snapshot e.payload ≡ ok payload
      → validate_snapshot payload e.applied_publish_policy_version ≡ none
      → projection ≡ snapshot_projection payload
      → IsProjected decoders e projection
  alarm :
      (payload : AgentAlarmPayload)
      → same_schema agent_alarm_key (envelope_key e) ≡ true
      → decoders.agent_alarm e.payload ≡ ok payload
      → validate_alarm payload ≡ none
      → projection ≡ alarm_projection payload
      → IsProjected decoders e projection

pub record IsGenuine (decoders : Decoders) (m : ValidatedMessage) : Type 0 where
  pub envelope : validate_envelope m.envelope ≡ none
  pub projected : IsProjected decoders m.envelope m.projection
  pub identified :
      is_empty m.envelope.payload ≡ false
      → is_empty (trim_space m.device.device_id) ≡ false
      → (raw : List (String × String)) × (decoders.object m.envelope.payload ≡ ok raw)
        × AllMatch (payload_device_ids decoders raw) m.device.device_id
        × ((id : String) → NamesDevice decoders raw id → Matches (trim_space id) m.device.device_id)

abbrev pub AllGenuine : Decoders → List ValidatedMessage → Type 0
AllGenuine decoders [] = Unit
AllGenuine decoders (m ∷ rest) = IsGenuine decoders m × AllGenuine decoders rest

ok_eq {ℓ} : {A : Type ℓ} {a b : A} → ok a ≡ ok b → a ≡ b
ok_eq h = cc

refused_or-ok :
    (o : Option Error) (r : Outcome RuntimeEnvelope) (e : RuntimeEnvelope)
    → refused_or o r ≡ ok e
    → (o ≡ none) × (r ≡ ok e)
refused_or-ok none r e h = (refl, h)
refused_or-ok (some x) r e h = absurd cc

parsed_lem :
    (route : RuntimeRoute) (r : Outcome (RuntimeEnvelope × Bool)) (e : RuntimeEnvelope)
    → parsed route r ≡ ok e
    → validate_envelope e ≡ none
parsed_lem route (err x) e h = absurd cc
parsed_lem route (ok (envelope, true)) e h = absurd cc
parsed_lem route (ok (envelope, false)) e h =
    let (_, k) = refused_or-ok (validate_envelope_route route envelope.message_type) _ e h in
    let (valid, same) = refused_or-ok (validate_envelope envelope) (ok envelope) e k in
    let equal : envelope ≡ e = ok_eq same in subst (λ x. validate_envelope x ≡ none) equal valid

pub parse_lem :
    (decoders : Decoders) (route : RuntimeRoute) (body : String) (e : RuntimeEnvelope)
    → parse decoders route body ≡ ok e
    → validate_envelope e ≡ none
unfolding parse
parse_lem decoders route body e h = parsed_lem route _ e (refused_or-ok _ _ e h).1

relabel-ok :
    {A : Type 0} (message : String) (r : Outcome A) (a : A) → relabel message r ≡ ok a → r ≡ ok a
relabel-ok message (ok x) a h = h
relabel-ok message (err e) a h = absurd cc

pub validate_lem :
    (decoders : Decoders) (e : RuntimeEnvelope) (projection : Projection)
    → validate (default_catalog decoders) e ≡ ok projection
    → IsProjected decoders e projection
unfolding validate default_catalog health_snapshot_validate agent_alarm_validate
validate_lem decoders e projection h =
    elim (Bool-cases (same_schema agent_alarm_key (envelope_key e))) [
      | inl f ↦
          (let (payload, decoded, valid, made) =
              checked-ok (relabel "decode agent_alarm payload" (decoders.agent_alarm e.payload))
                validate_alarm alarm_projection projection (rw f at h) in
            alarm payload f (relabel-ok _ _ payload decoded) valid made)
      | inr f ↦ elim (Bool-cases (same_schema health_snapshot_key (envelope_key e))) [
        | inl g ↦
            (let (payload, decoded, valid, made) =
                checked-ok
                  (relabel "decode device.health_snapshot payload"
                    (decoders.health_snapshot e.payload))
                  (λ x. validate_snapshot x e.applied_publish_policy_version) snapshot_projection
                  projection (rw (f, g) at h) in
              health_snapshot payload g (relabel-ok _ _ payload decoded) valid made)
        | inr g ↦ absurd (let bad : err _ ≡ ok projection = rw (f, g) at h in cc)
      ]
    ]

match_ids_lem :
    (ids : List String) (device_id : String)
    → match_ids ids device_id ≡ ok tt
    → AllMatch ids device_id
unfolding match_ids
match_ids_lem [] device_id h = tt
match_ids_lem (id ∷ rest) device_id h = elim (Bool-cases (is_empty id)) [
  | inl e ↦ (inl e, match_ids_lem rest device_id (rw e at h))
  | inr e ↦ elim (Bool-cases (id == device_id)) [
    | inl f ↦ (inr ((eq_iff id device_id).0 f), match_ids_lem rest device_id (rw (e, f) at h))
    | inr f ↦ absurd (let bad : err _ ≡ ok tt = rw (e, f) at h in cc)
  ]
]

match_decoded_lem :
    (decoders : Decoders) (r : Outcome (List (String × String))) (device_id : String)
    → match_decoded decoders (relabel "decode payload identity annotations" r) device_id ≡ ok tt
    → (raw : List (String × String)) × (r ≡ ok raw)
      × AllMatch (payload_device_ids decoders raw) device_id
match_decoded_lem decoders (err e) device_id h = absurd cc
match_decoded_lem decoders (ok raw) device_id h = (raw, refl, match_ids_lem _ device_id h)

pub identified_lem :
    (decoders : Decoders) (payload device_id : String)
    → ensure_payload_identity_matches decoders payload device_id ≡ ok tt
    → is_empty payload ≡ false
    → is_empty (trim_space device_id) ≡ false
    → (raw : List (String × String)) × (decoders.object payload ≡ ok raw)
      × AllMatch (payload_device_ids decoders raw) device_id
      × ((id : String) → NamesDevice decoders raw id → Matches (trim_space id) device_id)
unfolding ensure_payload_identity_matches
identified_lem decoders payload device_id h e f =
    let (raw, decoded, all) =
      match_decoded_lem decoders (decoders.object payload) device_id (rw (e, f) at h) in
    (raw, decoded, all, named_lem decoders raw device_id all)
