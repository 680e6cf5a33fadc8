-- ===== src/Edgestate/Stored.antt =====
-- What is published was stored, and is valid, whatever the repository and the adapter answer.
use home_assistant.Base.{none, some, List, [], ◌∷◌, ◌≡◌, refl, sym, subst, Option, Exec}
use home_assistant.Base.Ensures.{
  Ensures, Ensures-bind, Ensures-fact, Ensures-present, Ensures-wrapping, Ensures-returns,
  Ensures-mono,
}
use home_assistant.Base.Simulation.{Shows, check-Ensures, settled}
use home_assistant.Edgestate.Service.{
  DesiredState, Service, validate_desired_state, publish, put_desired, put_all,
}

-- the states that were stored and published, the latest first
pub record Snapshot : Type 0 where
  pub stored : List DesiredState
  pub published : List DesiredState

abbrev pub put_stored : DesiredState → Snapshot → Snapshot
put_stored state v = record v { stored = state ∷ v.stored }

abbrev pub put_published : DesiredState → Snapshot → Snapshot
put_published state v = record v { published = state ∷ v.published }

module _ {W : Type 0} (view : W → Snapshot) where
  pub record ServiceLaws (s : Service W) : Type 0 where
    pub upsert_lem :
        (f : DesiredState → Exec W (Unit {0})) (state : DesiredState) (v : Snapshot)
        → s.repository ≡ some f
        → Ensures (Shows view v) (λ _. Shows view (put_stored state v)) (Shows view v) (f state)
    pub adapter_lem :
        (f : DesiredState → Exec W (Unit {0})) (state : DesiredState) (v : Snapshot)
        → s.adapter ≡ some f
        → Ensures (Shows view v) (λ _. Shows view (put_published state v)) (Shows view v) (f state)

-- The states of one list occur in this order in another one, and each is valid.
pub data IsFrom : List DesiredState → List DesiredState → Type 0 where
  done : IsFrom [] []
  kept :
      {xs ys : List DesiredState} (x : DesiredState)
      → validate_desired_state x ≡ none
      → IsFrom xs ys
      → IsFrom (x ∷ xs) (x ∷ ys)
  stored_only : {xs ys : List DesiredState} (x : DesiredState) → IsFrom xs ys → IsFrom xs (x ∷ ys)

abbrev pub InOrder : Snapshot → Type 0
InOrder v = IsFrom v.published v.stored

module _ {W : Type 0} (view : W → Snapshot) (s : Service W) (laws : ServiceLaws view s) where
  Ordered : W → Type 0
  Ordered w = InOrder (view w)

  shown : (v : Snapshot) → InOrder v → (w : W) → view w ≡ v → Ordered w
  unfolding Ordered
  shown v h w e = subst InOrder (sym e) h

  publish_lem :
      (o : Option (DesiredState → Exec W (Unit {0}))) (state : DesiredState) (v : Snapshot)
      → s.adapter ≡ o
      → validate_desired_state state ≡ none
      → InOrder v
      → Ensures (Shows view (put_stored state v)) (λ _. Ordered) Ordered (publish o state)
  publish_lem none state v e valid h =
      Ensures-returns tt (shown (put_stored state v) (stored_only state h))
  publish_lem (some f) state v e valid h = Ensures-wrapping _ (
      Ensures-mono (laws.adapter_lem f state (put_stored state v) e) (λ w p. p)
        (λ _. shown (put_published state (put_stored state v)) (kept state valid h))
        (shown (put_stored state v) (stored_only state h)))

  put_desired_lem :
      (state : DesiredState) (v : Snapshot)
      → InOrder v
      → Ensures (Shows view v) (λ _. Ordered) Ordered (put_desired s state)
  unfolding put_desired
  put_desired_lem state v h =
      Ensures-bind {Q = λ _ w. (validate_desired_state state ≡ none) × (view w ≡ v)}
        (Ensures-mono (check-Ensures view v (validate_desired_state state)) (λ w p. p) (λ _ w p. p)
          (shown v h))
        λ _. Ensures-fact λ valid.
          Ensures-bind {Q = λ f w. (s.repository ≡ some f) × (view w ≡ v)}
            (Ensures-present s.repository _ (λ f w e p. (e, p)) (shown v h))
            λ f. Ensures-fact λ e.
              Ensures-bind {Q = λ _. Shows view (put_stored state v)}
                (Ensures-wrapping _
                  (Ensures-mono (laws.upsert_lem f state v e) (λ w p. p) (λ _ w p. p) (shown v h)))
                λ _. publish_lem s.adapter state v refl valid h

  -- If the states that were published are valid and were stored in the order of their publication, then
  -- so it is after any sequence of calls of PutDesired, failing ones included, provided that the
  -- repository and the adapter change nothing but what they are to store and publish.
  pub put_all-IsFrom :
      (states : List DesiredState) (w : W)
      → IsFrom (view w).published (view w).stored
      → IsFrom (view (put_all s states w)).published (view (put_all s states w)).stored
  unfolding put_all Ordered
  put_all-IsFrom [] w h = h
  put_all-IsFrom (state ∷ rest) w h = put_all-IsFrom rest (put_desired s state w).1 (
      settled Ordered (put_desired s state w).0 (put_desired s state w).1
        ((put_desired_lem state (view w) h).at w refl))
