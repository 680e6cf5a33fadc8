-- ===== src/Base/Sources.antt =====
-- Clocks and id generators, which a service may lack: what the services make of them, and that they
-- leave an abstraction of the world alone if the sources do.
use Prim.Native.String.{String}
use mathlib.Core.Path.{◌≡◌, refl}
use mathlib.Core.Bool.{false, not}
use mathlib.Core.Option.{Option, none, some}
use native.Mathlib.Omega.{arith}
use home_assistant.Base.Effects.{Error, Exec, reading, present, ensure, returns, ◌>>=◌, ◌>>◌}
use home_assistant.Base.Text.{is_empty, trim_space}
use home_assistant.Base.Ensures.{
  Ensures, Ensures-bind, Ensures-fact, Ensures-ensure, Ensures-returns, Ensures-present,
}
use home_assistant.Base.Simulation.{Shows, Quiet, Quiet-Ensures}

-- `if s.Clock != nil { return s.Clock().UTC() }; return time.Now().UTC()`
unfoldable pub clock_or : {W A : Type 0} → Option (W → A × W) → (W → A × W) → Exec W A
clock_or none wall = reading wall
clock_or (some clock) wall = reading clock

-- a trimmed id of the generator, with the errors for a generator that is missing and for a blank id
unfoldable pub generated_id : {W : Type 0} → Option (W → String × W) → Error → Error → Exec W String
generated_id generator missing blank = do
  next ← present generator missing
  raw ← reading next
  ensure (not (is_empty (trim_space raw))) blank
  returns (trim_space raw)

module _ {W V : Type 0} (view : W → V) where
  pub clock_or-Quiet :
      {A : Type 0} (o : Option (W → A × W)) (wall : W → A × W)
      → ((f : W → A × W) → o ≡ some f → Quiet view (reading f))
      → Quiet view (reading wall)
      → Quiet view (clock_or o wall)
  unfolding clock_or
  clock_or-Quiet none wall h k = k
  clock_or-Quiet (some f) wall h k = h f refl

  pub generated_id-Ensures :
      (v : V) (o : Option (W → String × W)) (missing blank : Error)
      → ((f : W → String × W) → o ≡ some f → Quiet view (reading f))
      → Ensures
          (Shows view v)
          (λ id w. (is_empty id ≡ false) × (view w ≡ v))
          (Shows view v)
          (generated_id o missing blank)
  unfolding generated_id
  generated_id-Ensures v o missing blank h =
      Ensures-bind {Q = λ g w. Quiet view (reading g) × (view w ≡ v)}
        (Ensures-present o missing (λ g w e p. (h g e, p)) (λ w p. p))
        λ g. Ensures-fact λ quiet. Ensures-bind (Quiet-Ensures view v _ quiet) λ raw.
          Ensures-bind (Ensures-ensure _ _ (λ w p. p))
            λ _. Ensures-fact λ named. Ensures-returns _ λ w p. (ground arith, p)
