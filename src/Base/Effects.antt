-- ===== src/Base/Effects.antt =====
-- Go's errors as values, and functions with effects on a world `W` that may return an error. What
-- a function has written before it returns an error stays written.
use Prim.Native.String.{String}
use mathlib.Core.Bool.{Bool, true, false}
use mathlib.Core.Option.{Option, none, some}
use mathlib.Core.List.{List}
use text.Mathlib.Text.{◌==◌}

-- `errorf` is `fmt.Errorf` without, `errorw` with a wrapped error, `sentinel` a package variable
-- made by `errors.New`.
pub data Error : Type 0 where
  errorf : String → List String → Error
  errorw : String → Error → Error
  sentinel : String → Error

-- `errors.Is` against a sentinel
abbrev pub is_error : String → Error → Bool
is_error target (errorf message arguments) = false
is_error target (errorw message cause) = is_error target cause
is_error target (sentinel name) = name == target

pub data Outcome {ℓ} (A : Type ℓ) : Type ℓ where
  ok : A → Outcome A
  err : Error → Outcome A

abbrev pub Exec : Type 0 → Type 0 → Type 0
Exec W A = W → Outcome A × W

abbrev pub returns : {W A : Type 0} → A → Exec W A
returns a w = (ok a, w)

abbrev pub fails : {W A : Type 0} → Error → Exec W A
fails e w = (err e, w)

abbrev pub lift : {W A : Type 0} → Outcome A → Exec W A
lift r w = (r, w)

-- `if err != nil { return fmt.Errorf("...: %w", err) }`
abbrev pub relabel : {A : Type 0} → String → Outcome A → Outcome A
relabel message (ok a) = ok a
relabel message (err e) = err (errorw message e)

abbrev pub wrapping : {W A : Type 0} → String → Exec W A → Exec W A
wrapping message m w = let (r, w') = m w in (relabel message r, w')

abbrev pub ensure : {W : Type 0} → Bool → Error → Exec W (Unit {0})
ensure true e w = (ok tt, w)
ensure false e w = (err e, w)

-- a dependency that may be nil
abbrev pub present : {W A : Type 0} → Option A → Error → Exec W A
present none e w = (err e, w)
present (some a) e w = (ok a, w)

abbrev pub continue : {W A B : Type 0} → Outcome A → (A → Exec W B) → Exec W B
continue (ok a) f w = f a w
continue (err e) f w = (err e, w)

infixl 5 ◌>>=◌ ◌>>◌
unfoldable pub ◌>>=◌ : {W A B : Type 0} → Exec W A → (A → Exec W B) → Exec W B
◌>>=◌ m f w = let (r, w') = m w in continue r f w'

abbrev pub ◌>>◌ : {W A B : Type 0} → Exec W A → Exec W B → Exec W B
m >> n = m >>= λ _. n

-- a clock or a generator, which gives no error
abbrev pub reading : {W A : Type 0} → (W → A × W) → Exec W A
reading source w = let (a, w') = source w in (ok a, w')

-- an error that the caller looks at
abbrev pub attempt : {W A : Type 0} → Exec W A → Exec W (Outcome A)
attempt m w = let (r, w') = m w in (ok r, w')

-- `return err` where a validation returned an error
abbrev pub check : {W : Type 0} → Option Error → Exec W (Unit {0})
check none w = (ok tt, w)
check (some e) w = (err e, w)

-- `if err != nil { return ... }` where something else than the error is returned
abbrev pub settle : {W A B : Type 0} → Outcome A × W → (Error → W → B) → (A → W → B) → B
settle (ok a, w) bad good = good a w
settle (err e, w) bad good = bad e w
