-- ===== src/Alerting/Memory.antt =====
-- A repository in memory with room for one alert, which meets the laws of the alert service's
-- repository, for its examples.
use mathlib.Core.Option.{some-injective}
use home_assistant.Base.{
  String, Bool, true, false, Option, none, some, List, [], ◌∷◌, ◌++◌, ◌≡◌, ◌+◌, refl, ◌==◌, ◌&&◌,
  eq_iff, eq_refl, arith, ap, sym, subst, fun_ext, Bool-cases, inl, inr, Error, errorf, sentinel,
  ok, err, Exec, if◌then◌else◌,
}
use home_assistant.Base.Ensures.{Settles}
use home_assistant.Base.Simulation.{Shows}
use home_assistant.Base.Time.{Time, Duration}
use home_assistant.Alerting.Model.{Candidate, Alert, AlertEvent, CandidateVerification, is_active}
use home_assistant.Alerting.Service.{Repository, Service, not_found}
use home_assistant.Alerting.Lifecycle.{Snapshot, put, log}
use home_assistant.Alerting.Laws.{Recorded, FoundActive, RepositoryLaws, ServiceLaws}

pub record Memory : Type 0 where
  pub slot : Option Alert
  pub candidates : String → Bool
  pub events : List AlertEvent
  pub time : Time

abbrev pub slot_alerts : Option Alert → String → Option Alert
slot_alerts none id = none
slot_alerts (some a) id = if a.alert_id == id then some a else none

abbrev pub view : Memory → Snapshot
view m = record { alerts = slot_alerts m.slot; candidates = m.candidates; events = m.events }

abbrev no_room : Error
no_room = errorf "no room" []

try_record : Bool → Candidate → Exec Memory Bool
try_record true c m = (ok false, m)
try_record false c m = (
  ok true,
  record m { candidates = λ id. if c.candidate_id == id then true else m.candidates id },
)

get_active : Option Alert → String → Exec Memory Alert
get_active none key m = (err (sentinel not_found), m)
get_active (some a) key m =
    (if is_active a.status && a.alert_key == key then ok a else err (sentinel not_found), m)

get : Option Alert → String → Exec Memory Alert
get none id m = (err (sentinel not_found), m)
get (some a) id m = (if a.alert_id == id then ok a else err (sentinel not_found), m)

create : Option Alert → Alert → Exec Memory (Unit {0})
create none a m = (ok tt, record m { slot = some a })
create (some b) a m = (err no_room, m)

save : Option Alert → Alert → Exec Memory (Unit {0})
save none a m = (err no_room, m)
save (some b) a m =
    if b.alert_id == a.alert_id then (ok tt, record m { slot = some a }) else (err no_room, m)

unfoldable pub memory_repository : Repository Memory
unfolding try_record get_active get create save
memory_repository = record {
  try_record_candidate = λ c m. try_record (m.candidates c.candidate_id) c m;
  get_active_alert_by_key = λ key m. get_active m.slot key m;
  get_alert = λ id m. get m.slot id m;
  create_alert = λ a m. create m.slot a m;
  save_alert = λ a m. save m.slot a m;
  record_alert_event = λ e m. (ok tt, record m { events = m.events ++ e ∷ [] });
}

try_record_lem :
    (b : Bool) (c : Candidate) (m : Memory)
    → m.candidates c.candidate_id ≡ b
    → Settles
        (Recorded view c (view m))
        (Shows view (view m))
        (try_record b c m).0
        (try_record b c m).1
unfolding try_record
try_record_lem true c m h = (h, refl)
try_record_lem false c m h = (h, refl)

-- `m` with the slot that is split on
abbrev with_slot : Option Alert → Memory → Memory
with_slot o m = record m { slot = o }

get_active_lem :
    (o : Option Alert) (key : String) (m : Memory)
    → (view (get_active o key (with_slot o m)).1 ≡ view (with_slot o m))
      × FoundActive key (view (with_slot o m)) (get_active o key (with_slot o m)).0
unfolding get_active
get_active_lem none key m = (refl, λ _ id b found is_active _. ground arith)
get_active_lem (some a) key m = (
  refl,
  elim (Bool-cases (is_active a.status && a.alert_key == key)) [
    | inl e ↦
        rw e (rw (eq_refl a.alert_id), ground arith, (eq_iff a.alert_key key).0 (ground arith))
    | inr e ↦ rw e (λ _ id b found act same. ground (arith, eq_iff a.alert_key key))
  ],
)

create_lem :
    (o : Option Alert) (a : Alert) (m : Memory)
    → Settles
        (λ _ m'.
          ((view (with_slot o m)).alerts a.alert_id ≡ none)
          × (view m' ≡ put a (view (with_slot o m))))
        (Shows view (view (with_slot o m)))
        (create o a (with_slot o m)).0
        (create o a (with_slot o m)).1
unfolding create
create_lem none a m = (refl, refl)
create_lem (some b) a m = refl

replaced :
    (a b : Alert) (id : String)
    → b.alert_id ≡ a.alert_id
    → slot_alerts (some a) id ≡ (if a.alert_id == id then some a else slot_alerts (some b) id)
replaced a b id e = rw e (ground arith)

save_lem :
    (o : Option Alert) (a : Alert) (m : Memory)
    → Settles
        (λ _. Shows view (put a (view (with_slot o m))))
        (Shows view (view (with_slot o m)))
        (save o a (with_slot o m)).0
        (save o a (with_slot o m)).1
unfolding save
save_lem none a m = refl
save_lem (some b) a m = elim (Bool-cases (b.alert_id == a.alert_id)) [
  | inl e ↦ rw e (λ i. record (view (with_slot (some b) m)) {
    alerts = fun_ext (λ id. replaced a b id ((eq_iff _ _).0 e)) i;
  })
  | inr e ↦ rw e refl
]

get_lem :
    (o : Option Alert) (id : String) (m : Memory)
    → Settles
        (λ a m'.
          ((view (with_slot o m)).alerts a.alert_id ≡ some a) × (view m' ≡ view (with_slot o m)))
        (Shows view (view (with_slot o m)))
        (get o id (with_slot o m)).0
        (get o id (with_slot o m)).1
unfolding get
get_lem none id m = refl
get_lem (some a) id m = elim (Bool-cases (a.alert_id == id)) [
  | inl e ↦ rw e (rw (eq_refl a.alert_id), refl)
  | inr e ↦ rw e refl
]

memory_laws : RepositoryLaws view memory_repository
unfolding memory_repository
memory_laws = record {
  try_record_lem = λ c v. record {
    at = λ m e.
        subst
          (λ u.
            Settles (Recorded view c u) (Shows view u)
              (try_record (m.candidates c.candidate_id) c m).0
              (try_record (m.candidates c.candidate_id) c m).1)
          e (try_record_lem (m.candidates c.candidate_id) c m refl);
  };
  get_active_lem = λ key m. get_active_lem m.slot key m;
  get_lem = λ id v. record {
    at = λ m e.
        subst
          (λ u.
            Settles (λ a m'. (u.alerts a.alert_id ≡ some a) × (view m' ≡ u)) (Shows view u)
              (get m.slot id m).0 (get m.slot id m).1)
          e (get_lem m.slot id m);
  };
  create_lem = λ a v. record {
    at = λ m e.
        subst
          (λ u.
            Settles (λ _ m'. (u.alerts a.alert_id ≡ none) × (view m' ≡ put a u)) (Shows view u)
              (create m.slot a m).0 (create m.slot a m).1)
          e (create_lem m.slot a m);
  };
  save_lem = λ a v. record {
    at = λ m e.
        subst
          (λ u.
            Settles (λ _. Shows view (put a u)) (Shows view u) (save m.slot a m).0
              (save m.slot a m).1)
          e (save_lem m.slot a m);
  };
  event_lem = λ x v. record { at = λ m e. ap (log x) e };
}

abbrev pub empty : Memory
empty = record { slot = none; candidates = λ id. false; events = []; time = 1_000 }

abbrev pub later : Duration → Memory → Memory
later d m = record m { time = m.time + d }

-- A service with a verifier that gives each candidate the same answer.
abbrev pub service : CandidateVerification → Service Memory
service verification = record {
  repository = some memory_repository;
  verifier = some (λ c m. (ok verification, m));
  id_generator = some (λ m. ("alert-1", m));
  clock = some (λ m. (m.time, m));
  wall_clock = λ m. (m.time, m);
}

pub service_laws : (x : CandidateVerification) → ServiceLaws view (service x)
service_laws x = record {
  repository_lem = λ r e. subst (RepositoryLaws view) (some-injective _ _ e) memory_laws;
  verifier_lem = λ f c e m. sym (
      ap (λ (g : Candidate → Exec Memory CandidateVerification). view (g c m).1)
        (some-injective _ _ e));
  clock_lem =
      λ f e m. sym (ap (λ (g : Memory → Time × Memory). view (g m).1) (some-injective _ _ e));
  wall_clock_lem = λ m. refl;
  id_generator_lem =
      λ f e m. sym (ap (λ (g : Memory → String × Memory). view (g m).1) (some-injective _ _ e));
}
