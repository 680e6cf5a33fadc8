-- ===== src/Alerting/Refinement.antt =====
-- The operations of the alert service take steps of the abstract lifecycle, and no other.
use home_assistant.Base.{
  String, Bool, true, false, Option, none, some, ◌≡◌, ◌≢◌, refl, ◌∙◌, arith, eq_refl, ltb→lt,
  trim_space, if◌then◌else◌, attempt, check, wrapping, Outcome, ok, err, Exec, not, ◌>>=◌, ◌>>◌,
  subst, returns, lift,
}
use home_assistant.Base.Ensures.{
  Ensures, Ensures-returns, Ensures-lift, Ensures-present, Ensures-wrapping, Ensures-ensure,
  Ensures-if, Ensures-bind, Ensures-fact, Ensures-mono,
}
use home_assistant.Base.Simulation.{
  Steps, here, next, Shows, Quiet, Keeps, Shows-Keeps, Ensures-Keeps, Quiet-Keeps, check-Keeps,
  Step-Keeps,
}
use home_assistant.Base.Time.{Time}
use home_assistant.Alerting.Model.{
  Status, EventType, Candidate, Alert, CandidateVerification, AlertActionRequest, RawMessage,
  active, is_resolved,
}
use home_assistant.Alerting.Updates.{new_alert, or_else, normalize_candidate, validate_verification}
use home_assistant.Alerting.Service.{
  Repository, Service, now, load_alert, record_event, generated_id, create_alert, resolve_loaded,
  found_or_absent, update_active, respond, intake_candidate, acknowledge_alert, snooze_alert,
  resolve_alert, ignored_result,
}
use home_assistant.Alerting.Lifecycle.{
  Snapshot, put, note, NoneActive, Change, repeat, acknowledge, snooze, close, Step, intake, raise,
  change, tell,
}
use home_assistant.Alerting.Laws.{Recorded, FoundActive, RepositoryLaws, ServiceLaws}

put_self : (a : Alert) (v : Snapshot) → (put a v).alerts a.alert_id ≡ some a
put_self a v = rw (eq_refl a.alert_id)

is_resolved_lem : (s : Status) → is_resolved s ≡ false → s ≢ Status.resolved
is_resolved_lem s h = ground arith

-- What is known of the answer of a lookup by key.
abbrev Lookup : String → Snapshot → Option Alert → Type 0
Lookup key v none = NoneActive key v
Lookup key v (some a) = (v.alerts a.alert_id ≡ some a) × (a.status ≡ active)

ok_eq : {A : Type 0} (a b : A) → ok a ≡ ok b → a ≡ b
ok_eq a b h = cc

found-Lookup :
    (u : Snapshot) (key : String) (r : Outcome Alert) (o : Option Alert)
    → found_or_absent r ≡ ok o
    → FoundActive key u r
    → Lookup key u o
found-Lookup u key (ok a) none e f = absurd (ground arith)
found-Lookup u key (ok a) (some b) e f =
    subst (λ o. Lookup key u o) (ok_eq (some a) (some b) e) (f.0, f.1)
found-Lookup u key (err x) none e f = f (ground arith)
found-Lookup u key (err x) (some b) e f = absurd (ground arith)

module _ {W : Type 0} (view : W → Snapshot) (s : Service W) (laws : ServiceLaws view s)
    (v : Snapshot) where
  abbrev pub K : W → Type 0
  K = Keeps view Step v

  -- Started where `u` shows, the function leaves a world that is reached from `v`.
  abbrev pub Leads : Snapshot → {A : Type 0} → Exec W A → Type 0
  Leads u m = Ensures (Shows view u) (λ _. K) K m

  now_lem :
      (u : Snapshot) (o : Option (W → Time × W))
      → s.clock ≡ o
      → Steps Step v u
      → Ensures (Shows view u) (λ _. Shows view u) K (now s)
  unfolding now
  now_lem u none e h = rw (e, now) (Quiet-Keeps view Step v _ u h laws.wall_clock_lem)
  now_lem u (some f) e h = rw (e, now) (Quiet-Keeps view Step v _ u h (laws.clock_lem f e))

  now-Keeps : (u : Snapshot) → Steps Step v u → Ensures (Shows view u) (λ _. Shows view u) K (now s)
  now-Keeps u h = now_lem u s.clock refl h

  bad : (u : Snapshot) → Steps Step v u → (w : W) → view w ≡ u → K w
  bad u h w e = Shows-Keeps view Step v u w h e

  event-Keeps :
      (u : Snapshot) (a : Alert) (c : String) (k : EventType) (x y : String) (m : RawMessage)
      {r : Repository W}
      → Steps Step v u
      → RepositoryLaws view r
      → u.alerts a.alert_id ≡ some a
      → Leads u (record_event s r a c k x y m)
  unfolding record_event
  event-Keeps u a c k x y m h lawful found = Ensures-bind (now-Keeps u h) λ t.
      Ensures-bind (check-Keeps view Step v _ u h) λ _. Ensures-fact λ _.
        Ensures-mono (Step-Keeps view Step v _ u _ h (tell a _ found refl) (lawful.event_lem _ u))
          (λ w p. p) (λ x w q. bad _ (next h (tell a _ found refl)) w q) (λ w p. p)

  -- An alert is saved, and an event tells so.
  changed-Keeps :
      {A : Type 0} (u : Snapshot) (message : String) (a a' : Alert) (x : A) (c : String)
      (k : EventType) (y z : String) (m : RawMessage) {r : Repository W}
      → Steps Step v u
      → RepositoryLaws view r
      → u.alerts a.alert_id ≡ some a
      → Change a a'
      → Leads u (do wrapping message (r.save_alert a'); record_event s r a' c k y z m; returns x)
  changed-Keeps u message a a' x c k y z m h lawful found move =
      Ensures-bind
        (Step-Keeps view Step v message u (put a' u) h (change a a' found move)
          (lawful.save_lem a' u))
        λ _.
          Ensures-bind
            (event-Keeps (put a' u) a' c k y z m (next h (change a a' found move)) lawful
              (put_self a' u))
            λ _. Ensures-returns _ λ w k. k

  resolve_loaded-Keeps :
      (u : Snapshot) (a : Alert) {r : Repository W} (c reason x y : String)
      → Steps Step v u
      → RepositoryLaws view r
      → u.alerts a.alert_id ≡ some a
      → Leads u (resolve_loaded s r a c reason x y)
  unfolding resolve_loaded
  resolve_loaded-Keeps u a c reason x y h lawful found =
      Ensures-if (is_resolved a.status) (λ _. Ensures-returns _ (bad u h))
        λ pending. Ensures-bind (now-Keeps u h) λ t.
          changed-Keeps u _ a _ _ _ _ _ _ _ h lawful found (
            close (or_else (trim_space c) a.last_candidate_id)
              (or_else (trim_space reason) a.reason_code) t (is_resolved_lem a.status pending) refl)

  update_active-Keeps :
      (u : Snapshot) (a : Alert) {r : Repository W} (c : Candidate) (x : CandidateVerification)
      → Steps Step v u
      → RepositoryLaws view r
      → u.alerts a.alert_id ≡ some a
      → a.status ≡ active
      → Leads u (update_active s r c x a)
  unfolding update_active
  update_active-Keeps u a c x h lawful found is_active = Ensures-bind (now-Keeps u h) λ t.
      changed-Keeps u _ a _ _ _ _ _ _ _ h lawful found
        (repeat x.severity x.title x.detail x.reason_code c.candidate_id t is_active refl)

  generated_lem :
      (u : Snapshot) (o : Option (W → String × W))
      → s.id_generator ≡ o
      → Steps Step v u
      → Ensures (Shows view u) (λ _. Shows view u) K (generated_id s)
  unfolding generated_id
  generated_lem u none e h = rw (e, generated_id) (Ensures-returns _ (λ w p. p))
  generated_lem u (some g) e h =
      rw (e, generated_id)
        (Ensures-bind (Quiet-Keeps view Step v _ u h (laws.id_generator_lem g e))
          λ id. Ensures-returns _ (λ w p. p))

  create_alert-Keeps :
      (u : Snapshot) {r : Repository W} (c : Candidate) (x : CandidateVerification)
      → Steps Step v u
      → RepositoryLaws view r
      → NoneActive x.alert_key u
      → Leads u (create_alert s r c x)
  unfolding create_alert
  create_alert-Keeps u {r} c x h lawful alone =
      Ensures-bind (generated_lem u s.id_generator refl h) λ id.
        Ensures-bind (Ensures-ensure _ _ (bad u h)) λ _. Ensures-fact λ _.
          Ensures-bind (now-Keeps u h) λ t. Ensures-bind (check-Keeps view Step v _ u h) λ _.
            Ensures-fact λ _.
              let a = new_alert id c x t in
              Ensures-bind
                (Ensures-wrapping _ (Ensures-Keeps view Step v u h (lawful.create_lem a u)))
                λ _. Ensures-fact λ free.
                  Ensures-bind
                    (event-Keeps (put a u) a _ _ _ _ _ (next h (raise a free alone refl refl))
                      lawful (put_self a u))
                    λ _. Ensures-returns _ λ w k. k

  respond-Keeps :
      (u : Snapshot) (o : Option Alert) {r : Repository W} (c : Candidate)
      (x : CandidateVerification)
      → Steps Step v u
      → RepositoryLaws view r
      → Lookup x.alert_key u o
      → Leads u (respond s r c x o)
  unfolding respond
  respond-Keeps u none c x h lawful alone =
      Ensures-if x.healthy (λ _. Ensures-returns _ (bad u h))
        λ _. Ensures-bind (create_alert-Keeps u c x h lawful alone) λ _. Ensures-returns _ λ w k. k
  respond-Keeps u (some a) c x h lawful found =
      Ensures-if x.healthy
        (λ _.
          Ensures-bind (resolve_loaded-Keeps u a _ _ _ _ h lawful found.0)
            λ _. Ensures-returns _ λ w k. k)
        λ _. update_active-Keeps u a c x h lawful found.0 found.1

  lookup-Keeps :
      (u : Snapshot) (key : String) {r : Repository W}
      → RepositoryLaws view r
      → Ensures
          (Shows view u)
          (λ x w. FoundActive key u x × (view w ≡ u))
          K
          (attempt (r.get_active_alert_by_key key))
  lookup-Keeps u key {r} lawful = record {
    at = λ w p. (
      subst (λ z. FoundActive key z (r.get_active_alert_by_key key w).0) p
          (lawful.get_active_lem key w).1,
      (lawful.get_active_lem key w).0 ∙ p,
    );
  }

  -- What the intake does once the candidate is on record.
  verified-Keeps :
      (u : Snapshot) (c : Candidate) (f : Candidate → Exec W CandidateVerification)
      {r : Repository W}
      → Steps Step v u
      → RepositoryLaws view r
      → Quiet view (f c)
      → Leads u (do
        verification ← wrapping "verify alert candidate" (f c)
        check (validate_verification verification)
        found ← attempt (r.get_active_alert_by_key verification.alert_key)
        lookup ← lift (found_or_absent found)
        respond s r c verification lookup)
  verified-Keeps u c f h lawful quiet =
      Ensures-bind (Ensures-wrapping _ (Quiet-Keeps view Step v _ u h quiet)) λ x.
        Ensures-bind (check-Keeps view Step v _ u h) λ _. Ensures-fact λ _.
          Ensures-bind (lookup-Keeps u x.alert_key lawful) λ found. Ensures-fact λ known.
            Ensures-bind
              (Ensures-lift {Q = λ o w. Lookup x.alert_key u o × (view w ≡ u)} _
                (λ o w e p. (found-Lookup u x.alert_key found o e known, p)) (bad u h))
              λ o. Ensures-fact λ lookup. respond-Keeps u o c x h lawful lookup

  Recorded-Keeps :
      (c : Candidate) (b : Bool) (f : Candidate → Exec W CandidateVerification) {r : Repository W}
      → RepositoryLaws view r
      → Quiet view (f c)
      → Ensures
          (Recorded view c v b)
          (λ _. K)
          K
          (if not b then returns (ignored_result true) else (do
            verification ← wrapping "verify alert candidate" (f c)
            check (validate_verification verification)
            found ← attempt (r.get_active_alert_by_key verification.alert_key)
            lookup ← lift (found_or_absent found)
            respond s r c verification lookup))
  Recorded-Keeps c false f lawful quiet = Ensures-returns _ λ w p. bad v here w p.1
  Recorded-Keeps c true f lawful quiet = Ensures-fact λ new.
      verified-Keeps (note c.candidate_id v) c f (next here (intake c.candidate_id new)) lawful
        quiet

  pub intake_candidate-Keeps : (c : Candidate) → Leads v (intake_candidate s c)
  unfolding intake_candidate
  intake_candidate-Keeps c =
      Ensures-bind {Q = λ r w. RepositoryLaws view r × (view w ≡ v)}
        (Ensures-present s.repository _ (λ r w e p. (laws.repository_lem r e, p)) (bad v here))
        λ r. Ensures-fact λ lawful.
          Ensures-bind {Q = λ f w. ((c : Candidate) → Quiet view (f c)) × (view w ≡ v)}
            (Ensures-present s.verifier _ (λ f w e p. (λ c. laws.verifier_lem f c e, p))
              (bad v here))
            λ f. Ensures-fact λ quiet. Ensures-bind (now-Keeps v here) λ t.
              Ensures-bind (check-Keeps view Step v _ v here) λ _. Ensures-fact λ _.
                Ensures-bind
                  (Ensures-wrapping _
                    (Ensures-Keeps view Step v v here (lawful.try_record_lem _ v)))
                  λ b.
                    Recorded-Keeps (normalize_candidate c t) b f lawful
                      (quiet (normalize_candidate c t))

  record Loaded (p : Alert × Repository W) : Type 0 where
    found : v.alerts p.0.alert_id ≡ some p.0
    lawful : RepositoryLaws view p.1

  load-Keeps :
      (id : String) → Ensures (Shows view v) (λ p w. Loaded p × (view w ≡ v)) K (load_alert s id)
  unfolding load_alert
  load-Keeps id =
      Ensures-bind {Q = λ r w. RepositoryLaws view r × (view w ≡ v)}
        (Ensures-present s.repository _ (λ r w e p. (laws.repository_lem r e, p)) (bad v here))
        λ r. Ensures-fact λ lawful. Ensures-bind (Ensures-ensure _ _ (bad v here)) λ _.
          Ensures-fact λ _.
            Ensures-bind
              (Ensures-wrapping _ (Ensures-Keeps view Step v v here (lawful.get_lem _ v)))
              λ a. Ensures-returns _ λ w q. (record { found = q.0; lawful = lawful }, q.1)

  pub acknowledge_alert-Keeps : (req : AlertActionRequest) → Leads v (acknowledge_alert s req)
  unfolding acknowledge_alert
  acknowledge_alert-Keeps req = Ensures-bind (load-Keeps _) λ p. Ensures-fact λ loaded.
      Ensures-bind (now-Keeps v here) λ t.
        changed-Keeps v _ p.0 _ _ _ _ _ _ _ here loaded.lawful loaded.found (acknowledge _ t refl)

  pub snooze_alert-Keeps : (req : AlertActionRequest) → Leads v (snooze_alert s req)
  unfolding snooze_alert
  snooze_alert-Keeps req = Ensures-bind (load-Keeps _) λ p. Ensures-fact λ loaded.
      Ensures-bind (now-Keeps v here) λ t. Ensures-bind (Ensures-ensure _ _ (bad v here)) λ _.
        Ensures-fact λ future. Ensures-bind (now-Keeps v here) λ t'.
          changed-Keeps v _ p.0 _ _ _ _ _ _ _ here loaded.lawful loaded.found
            (snooze req.snoozed_until t t' (ltb→lt _ _ future) refl)

  pub resolve_alert-Keeps : (req : AlertActionRequest) → Leads v (resolve_alert s req)
  unfolding resolve_alert
  resolve_alert-Keeps req =
      Ensures-bind (load-Keeps _) λ p.
        Ensures-fact λ loaded. resolve_loaded-Keeps v p.0 _ _ _ _ here loaded.lawful loaded.found
