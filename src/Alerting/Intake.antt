-- ===== src/Alerting/Intake.antt =====
-- What the intake of a candidate does: once for each candidate id, and with one answer for each state
-- that the verifier finds.
use home_assistant.Base.{
  Bool, true, false, Option, none, some, ◌≡◌, refl, sym, arith, trim_space, Exec, not, returns,
  if◌then◌else◌, subst,
}
use home_assistant.Base.Ensures.{
  Settles, Ensures, Ensures-present, Ensures-wrapping, Ensures-bind, Ensures-fact,
}
use home_assistant.Base.Simulation.{Shows, Quiet, Quiet-Ensures, check-Ensures}
use home_assistant.Base.Time.{Time}
use home_assistant.Alerting.Model.{Candidate, CandidateResult}
use home_assistant.Alerting.Updates.{normalize_candidate}
use home_assistant.Alerting.Service.{Service, now, ignored_result, intake_candidate}
use home_assistant.Alerting.Lifecycle.{Snapshot}
use home_assistant.Alerting.Laws.{Recorded, RepositoryLaws, ServiceLaws}

normalized_id :
    (c : Candidate) (t : Time) → (normalize_candidate c t).candidate_id ≡ trim_space c.candidate_id
unfolding normalize_candidate
normalized_id c t = refl

-- An answer that a candidate whose id is on record is given.
abbrev pub Ignores : {W : Type 0} → (W → Snapshot) → Snapshot → CandidateResult → W → Type 0
Ignores view v r w = (r ≡ ignored_result true) × (view w ≡ v)

module _ {W : Type 0} (view : W → Snapshot) (s : Service W) (laws : ServiceLaws view s) where
  now_lem : (o : Option (W → Time × W)) → s.clock ≡ o → Quiet view (now s)
  unfolding now
  now_lem none e w = rw (e, now) (laws.wall_clock_lem w)
  now_lem (some f) e w = rw (e, now) (laws.clock_lem f e w)

  recorded_lem :
      (v : Snapshot) (c : Candidate) (b : Bool) (m : Exec W CandidateResult)
      → v.candidates c.candidate_id ≡ true
      → Ensures
          (Recorded view c v b)
          (Ignores view v)
          (Shows view v)
          (if not b then returns (ignored_result true) else m)
  recorded_lem v c true m known = record { at = λ w p. absurd (ground arith) }
  recorded_lem v c false m known = record { at = λ w p. (refl, p.1) }

  intake_known :
      (v : Snapshot) (c : Candidate)
      → v.candidates (trim_space c.candidate_id) ≡ true
      → Ensures (Shows view v) (Ignores view v) (Shows view v) (intake_candidate s c)
  unfolding intake_candidate
  intake_known v c known =
      Ensures-bind {Q = λ r w. RepositoryLaws view r × (view w ≡ v)}
        (Ensures-present s.repository _ (λ r w e p. (laws.repository_lem r e, p)) (λ w p. p))
        λ r. Ensures-fact λ lawful.
          Ensures-bind
            (Ensures-present {Q = λ _. Shows view v} s.verifier _ (λ f w e p. p) (λ w p. p))
            λ f. Ensures-bind (Quiet-Ensures view v _ (now_lem s.clock refl)) λ t.
              Ensures-bind (check-Ensures view v _) λ _. Ensures-fact λ _.
                let c' = normalize_candidate c t in
                Ensures-bind (Ensures-wrapping _ (lawful.try_record_lem c' v)) λ b.
                  recorded_lem v c' b _
                    (subst (λ id. v.candidates id ≡ true) (sym (normalized_id c t)) known)

  -- A candidate whose trimmed id is on record changes nothing that is stored, whether the first intake
  -- of it succeeded or not, and if the call returns a value, this says that the candidate is a
  -- duplicate and ignored, provided that the service meets its laws.
  pub intake_duplicate :
      (c : Candidate) (w : W)
      → (view w).candidates (trim_space c.candidate_id) ≡ true
      → Settles
          (Ignores view (view w))
          (Shows view (view w))
          (intake_candidate s c w).0
          (intake_candidate s c w).1
  intake_duplicate c w known = (intake_known (view w) c known).at w refl
