-- ===== src/Recipients/Memory.antt =====
-- A repository in memory with room for one recipient, which meets the laws of the repository of
-- recipients, for its examples.
use mathlib.Core.Option.{some-injective}
use home_assistant.Base.{
  String, Bool, Option, none, some, List, [], ◌∷◌, ◌≡◌, refl, ◌==◌, eq_iff, eq_refl, arith, ap, sym,
  subst, fun_ext, Bool-cases, inl, inr, errorf, ok, err, Exec, if◌then◌else◌,
}
use home_assistant.Base.Ensures.{Settles}
use home_assistant.Base.Simulation.{Shows}
use home_assistant.Base.Time.{Time}
use home_assistant.Recipients.Model.{AlertRecipient}
use home_assistant.Recipients.Service.{Repository, Service}
use home_assistant.Recipients.Laws.{Stored, put, RepositoryLaws, ServiceLaws}

pub record Memory : Type 0 where
  pub slot : Option AlertRecipient
  pub time : Time

abbrev slot_recipients : Option AlertRecipient → Stored
slot_recipients none id = none
slot_recipients (some r) id = if r.alert_recipient_id == id then some r else none

abbrev pub view : Memory → Stored
view m = slot_recipients m.slot

get : Option AlertRecipient → String → Exec Memory AlertRecipient
get none id m = (err (errorf "not found" []), m)
get (some r) id m = (if r.alert_recipient_id == id then ok r else err (errorf "not found" []), m)

save : Option AlertRecipient → AlertRecipient → Exec Memory (Unit {0})
save none r m = (ok tt, record m { slot = some r })
save (some x) r m =
    if x.alert_recipient_id == r.alert_recipient_id
    then (ok tt, record m { slot = some r })
    else (err (errorf "no room" []), m)

abbrev listed : Option AlertRecipient → List AlertRecipient
listed none = []
listed (some r) = r ∷ []

unfoldable pub memory_repository : Repository Memory
unfolding get save
memory_repository = record {
  save_recipient = λ r m. save m.slot r m;
  get_recipient = λ id m. get m.slot id m;
  list_recipients_for_account = λ account m. (ok (listed m.slot), m);
}

-- `m` with the slot that is split on
abbrev with_slot : Option AlertRecipient → Memory → Memory
with_slot o m = record m { slot = o }

replaced :
    (r x : AlertRecipient) (id : String)
    → x.alert_recipient_id ≡ r.alert_recipient_id
    → slot_recipients (some r) id
      ≡ (if r.alert_recipient_id == id then some r else slot_recipients (some x) id)
replaced r x id e = rw e (ground arith)

save_lem :
    (o : Option AlertRecipient) (r : AlertRecipient) (m : Memory)
    → Settles
        (λ _. Shows view (put r (slot_recipients o)))
        (Shows view (slot_recipients o))
        (save o r (with_slot o m)).0
        (save o r (with_slot o m)).1
unfolding save
save_lem none r m = refl
save_lem (some x) r m = elim (Bool-cases (x.alert_recipient_id == r.alert_recipient_id)) [
  | inl e ↦ rw e (fun_ext λ id. replaced r x id ((eq_iff _ _).0 e))
  | inr e ↦ rw e refl
]

get_lem :
    (o : Option AlertRecipient) (id : String) (m : Memory)
    → Settles
        (λ r m'. (slot_recipients o r.alert_recipient_id ≡ some r) × (view m' ≡ slot_recipients o))
        (Shows view (slot_recipients o))
        (get o id (with_slot o m)).0
        (get o id (with_slot o m)).1
unfolding get
get_lem none id m = refl
get_lem (some r) id m = elim (Bool-cases (r.alert_recipient_id == id)) [
  | inl e ↦ rw e (rw (eq_refl r.alert_recipient_id) refl, refl)
  | inr e ↦ rw e refl
]

memory_laws : RepositoryLaws view memory_repository
unfolding memory_repository
memory_laws = record {
  save_lem = λ r v. record {
    at = λ m e.
        subst
          (λ u.
            Settles (λ _. Shows view (put r u)) (Shows view u) (save m.slot r m).0
              (save m.slot r m).1)
          e (save_lem m.slot r m);
  };
  get_lem = λ id v. record {
    at = λ m e.
        subst
          (λ u.
            Settles (λ r m'. (u r.alert_recipient_id ≡ some r) × (view m' ≡ u)) (Shows view u)
              (get m.slot id m).0 (get m.slot id m).1)
          e (get_lem m.slot id m);
  };
}

-- A service whose authorization knows one manager.
abbrev pub service : Service Memory
service = record {
  repository = some memory_repository;
  authorization = some (λ actor account site m. (ok (actor == "u1"), m));
  id_generator = some (λ m. ("recipient-1", m));
  clock = some (λ m. (m.time, m));
  wall_clock = λ m. (m.time, m);
  mail = record { parse_address = λ text. some text; to_lower = λ text. text };
}

pub service_laws : ServiceLaws view service
service_laws = record {
  repository_lem = λ r e. subst (RepositoryLaws view) (some-injective _ _ e) memory_laws;
  authorization_lem = λ f a b c e m. sym (
      ap (λ (g : String → String → String → Exec Memory Bool). view (g a b c m).1)
        (some-injective _ _ e));
  clock_lem =
      λ f e m. sym (ap (λ (g : Memory → Time × Memory). view (g m).1) (some-injective _ _ e));
  wall_clock_lem = λ m. refl;
  id_generator_lem =
      λ f e m. sym (ap (λ (g : Memory → String × Memory). view (g m).1) (some-injective _ _ e));
}
