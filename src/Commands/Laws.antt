-- ===== src/Commands/Laws.antt =====
-- What the command service relies on: the contract of its repository, and a clock and an id generator
-- that leave the repository alone. A call that returns an error has changed nothing, and a command
-- is created only under an id that is free (`command_id` is a primary key).
use home_assistant.Base.{reading, String, Option, none, some, [], ◌∷◌, ◌++◌, ◌≡◌, refl, ◌∙◌, Exec}
use home_assistant.Base.Ensures.{
  Ensures, Ensures-returns, Ensures-present, Ensures-wrapping, Ensures-ensure, Ensures-bind,
  Ensures-fact, Ensures-mono,
}
use home_assistant.Base.Time.{Time}
use home_assistant.Commands.Model.{Command, ProgressEvent, CommandResult}
use home_assistant.Commands.Service.{Repository, Service, now, load}
use home_assistant.Commands.Lifecycle.{Snapshot, put, Steps, here}

-- Every effect of the calls is seen in a snapshot of the world.
pub record RepositoryLaws {W : Type 0} (view : W → Snapshot) (r : Repository W) : Type 0 where
  pub create_lem :
      (c : Command) (v : Snapshot)
      → Ensures
          (λ w. view w ≡ v)
          (λ _ w. (v.commands c.command_id ≡ none) × (view w ≡ put c v))
          (λ w. view w ≡ v)
          (r.create_command c)
  pub get_lem :
      (id : String) (v : Snapshot)
      → Ensures
          (λ w. view w ≡ v)
          (λ c w. (v.commands c.command_id ≡ some c) × (view w ≡ v))
          (λ w. view w ≡ v)
          (r.get_command id)
  pub save_lem :
      (c : Command) (v : Snapshot)
      → Ensures (λ w. view w ≡ v) (λ _ w. view w ≡ put c v) (λ w. view w ≡ v) (r.save_command c)
  pub append_lem :
      (e : ProgressEvent) (v : Snapshot)
      → Ensures
          (λ w. view w ≡ v)
          (λ _ w. view w ≡ record v { events = v.events ++ e ∷ [] })
          (λ w. view w ≡ v)
          (r.append_progress_event e)
  pub record_lem :
      (x : CommandResult) (v : Snapshot)
      → Ensures
          (λ w. view w ≡ v)
          (λ _ w. view w ≡ record v { results = v.results ++ x ∷ [] })
          (λ w. view w ≡ v)
          (r.record_result x)

pub record ServiceLaws {W : Type 0} (view : W → Snapshot) (s : Service W) : Type 0 where
  pub repository_lem : (r : Repository W) → s.repository ≡ some r → RepositoryLaws view r
  pub clock_lem : (f : W → Time × W) (w : W) → s.clock ≡ some f → view (f w).1 ≡ view w
  pub wall_clock_lem : (w : W) → view (s.wall_clock w).1 ≡ view w
  pub id_generator_lem :
      (f : W → String × W) (w : W) → s.id_generator ≡ some f → view (f w).1 ≡ view w

module _ {W : Type 0} (view : W → Snapshot) (s : Service W) (laws : ServiceLaws view s)
    (v : Snapshot) where
  abbrev pub Keeps : W → Type 0
  Keeps w = Steps v (view w)

  equal_Keeps : (u : Snapshot) (w : W) → Steps v u → view w ≡ u → Keeps w
  equal_Keeps u w h e = rw e h

  pub Ensures-Keeps :
      {A : Type 0} {Q : A → W → Type 0} {m : Exec W A} (u : Snapshot)
      → Steps v u
      → Ensures (λ w. view w ≡ u) Q (λ w. view w ≡ u) m
      → Ensures (λ w. view w ≡ u) Q Keeps m
  Ensures-Keeps u h e = Ensures-mono e (λ w p. p) (λ a w q. q) (λ w p. equal_Keeps u w h p)

  read_lem :
      (source : W → Time × W)
      → ((w : W) → view (source w).1 ≡ view w)
      → Ensures (λ w. view w ≡ v) (λ _ w. view w ≡ v) Keeps (reading source)
  read_lem source h = record { at = λ w p. h w ∙ p }

  now_lem :
      (o : Option (W → Time × W))
      → s.clock ≡ o
      → Ensures (λ w. view w ≡ v) (λ _ w. view w ≡ v) Keeps (now s)
  unfolding now
  now_lem none e = rw (e, now) (read_lem s.wall_clock laws.wall_clock_lem)
  now_lem (some f) e = rw (e, now) (read_lem f (λ w. laws.clock_lem f w e))

  -- Reading the clock changes nothing.
  pub now-Keeps : Ensures (λ w. view w ≡ v) (λ _ w. view w ≡ v) Keeps (now s)
  now-Keeps = now_lem s.clock refl

  pub record Loaded (p : Command × Repository W) : Type 0 where
    pub found : v.commands p.0.command_id ≡ some p.0
    pub lawful : RepositoryLaws view p.1

  -- Loading a command changes nothing, and hands over what is stored.
  pub load-Keeps :
      (id : String) → Ensures (λ w. view w ≡ v) (λ p w. Loaded p × (view w ≡ v)) Keeps (load s id)
  unfolding load
  load-Keeps id =
      Ensures-bind {Q = λ r w. RepositoryLaws view r × (view w ≡ v)}
        (Ensures-present s.repository _ (λ r w e p. (laws.repository_lem r e, p)) bad)
        λ r. Ensures-fact λ lawful. Ensures-bind (Ensures-ensure _ _ bad) λ _. Ensures-fact λ _.
          Ensures-bind (Ensures-wrapping "load command" (Ensures-Keeps v here (lawful.get_lem _ v)))
            λ c. Ensures-returns _ λ w q. (record { found = q.0; lawful = lawful }, q.1)
    where
      bad : (w : W) → view w ≡ v → Keeps w
      bad w e = equal_Keeps v w here e
