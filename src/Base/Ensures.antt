-- ===== src/Base/Ensures.antt =====
-- Triples for functions with effects: from a world where `P` holds, a returned value satisfies
-- `Q`, and an error leaves a world where `E` holds.
use Prim.Native.String.{String}
use mathlib.Core.Path.{◌≡◌, refl, subst}
use mathlib.Core.Bool.{Bool, true, false}
use mathlib.Core.Option.{Option, none, some}
use home_assistant.Base.Effects.{
  attempt, check, Error, Outcome, ok, err, Exec, returns, fails, lift, relabel, wrapping, ensure,
  present, continue, ◌>>=◌, settle,
}
use home_assistant.Base.Tests.{if◌then◌else◌}

abbrev pub Settles : {W A : Type 0} → (A → W → Type 0) → (W → Type 0) → Outcome A → W → Type 0
Settles Q E (ok a) w = Q a w
Settles Q E (err e) w = E w

pub record Ensures {W A : Type 0} (P : W → Type 0) (Q : A → W → Type 0) (E : W → Type 0)
    (m : Exec W A) : Type 0 where
  pub at : (w : W) → P w → Settles Q E (m w).0 (m w).1

pub Settles-ok :
    {W A : Type 0} (Q : A → W → Type 0) (E : W → Type 0) (r : Outcome A) (w : W) (a : A)
    → Settles Q E r w
    → r ≡ ok a
    → Q a w
Settles-ok Q E r w a h e = subst (λ o. Settles Q E o w) e h

wrapping_lem :
    {W A : Type 0} (Q : A → W → Type 0) (E : W → Type 0) (message : String) (r : Outcome A) (w : W)
    → Settles Q E r w
    → Settles Q E (relabel message r) w
wrapping_lem Q E message (ok a) w h = h
wrapping_lem Q E message (err e) w h = h

mono_lem :
    {W A : Type 0} (Q R : A → W → Type 0) (E F : W → Type 0) (r : Outcome A) (w : W)
    → ((a : A) (w : W) → Q a w → R a w)
    → ((w : W) → E w → F w)
    → Settles Q E r w
    → Settles R F r w
mono_lem Q R E F (ok a) w h k x = h a w x
mono_lem Q R E F (err e) w h k x = k w x

continue_lem :
    {W A B : Type 0} (Q : A → W → Type 0) (R : B → W → Type 0) (E : W → Type 0) (r : Outcome A)
    (w : W) (f : A → Exec W B)
    → Settles Q E r w
    → ((a : A) → Ensures (Q a) R E (f a))
    → Settles R E (continue r f w).0 (continue r f w).1
continue_lem Q R E (ok a) w f h k = (k a).at w h
continue_lem Q R E (err e) w f h k = h

module _ {W A : Type 0} {P : W → Type 0} {Q : A → W → Type 0} {E : W → Type 0} where
  pub Ensures-returns : (a : A) → ((w : W) → P w → Q a w) → Ensures P Q E (returns a)
  Ensures-returns a h = record { at = h }

  pub Ensures-fails : (e : Error) → ((w : W) → P w → E w) → Ensures P Q E (fails e)
  Ensures-fails e h = record { at = h }

  pub Ensures-lift :
      (r : Outcome A)
      → ((a : A) (w : W) → r ≡ ok a → P w → Q a w)
      → ((w : W) → P w → E w)
      → Ensures P Q E (lift r)
  Ensures-lift (ok a) h k = record { at = λ w p. h a w refl p }
  Ensures-lift (err e) h k = record { at = k }

  pub Ensures-present :
      (o : Option A) (e : Error)
      → ((a : A) (w : W) → o ≡ some a → P w → Q a w)
      → ((w : W) → P w → E w)
      → Ensures P Q E (present o e)
  Ensures-present none e h k = record { at = k }
  Ensures-present (some a) e h k = record { at = λ w p. h a w refl p }

  pub Ensures-if :
      (b : Bool) {m n : Exec W A}
      → (b ≡ true → Ensures P Q E m)
      → (b ≡ false → Ensures P Q E n)
      → Ensures P Q E (if b then m else n)
  Ensures-if true h k = h refl
  Ensures-if false h k = k refl

  pub Ensures-wrapping :
      (message : String) {m : Exec W A} → Ensures P Q E m → Ensures P Q E (wrapping message m)
  Ensures-wrapping message {m} h = record {
    at = λ w p. wrapping_lem Q E message (m w).0 (m w).1 (h.at w p);
  }

module _ {W : Type 0} {P E : W → Type 0} where
  pub Ensures-ensure :
      (b : Bool) (e : Error)
      → ((w : W) → P w → E w)
      → Ensures P (λ _ w. (b ≡ true) × P w) E (ensure b e)
  Ensures-ensure true e h = record { at = λ w p. (refl, p) }
  Ensures-ensure false e h = record { at = h }

module _ {W A B : Type 0} {P : W → Type 0} {Q : A → W → Type 0} {R : B → W → Type 0}
    {E : W → Type 0} where
  pub Ensures-bind :
      {m : Exec W A} {f : A → Exec W B}
      → Ensures P Q E m
      → ((a : A) → Ensures (Q a) R E (f a))
      → Ensures P R E (m >>= f)
  unfolding ◌>>=◌
  Ensures-bind {m} {f} h k = record {
    at = λ w p. continue_lem Q R E (m w).0 (m w).1 f (h.at w p) k;
  }

module _ {W A : Type 0} {P O : W → Type 0} {Q R : A → W → Type 0} {E F : W → Type 0}
    {m : Exec W A} where
  pub Ensures-mono :
      Ensures P Q E m
      → ((w : W) → O w → P w)
      → ((a : A) (w : W) → Q a w → R a w)
      → ((w : W) → E w → F w)
      → Ensures O R F m
  Ensures-mono h pre post bad = record {
    at = λ w o. mono_lem Q R E F (m w).0 (m w).1 post bad (h.at w (pre w o));
  }

-- A fact that names no world is taken out of the precondition.
module _ {W A : Type 0} {F : Type 0} {P : W → Type 0} {Q : A → W → Type 0} {E : W → Type 0}
    {m : Exec W A} where
  pub Ensures-fact : (F → Ensures P Q E m) → Ensures (λ w. F × P w) Q E m
  Ensures-fact h = record { at = λ w p. (h p.0).at w p.1 }

any_lem :
    {W A : Type 0} (r : Outcome A) (w : W)
    → Settles (λ _ _. Unit {0} × Unit {0}) (λ _. Unit {0}) r w
any_lem (ok a) w = (tt, tt)
any_lem (err e) w = tt

-- Nothing is asked of the worlds.
abbrev pub Returns : {W A : Type 0} → (A → Type 0) → Exec W A → Type 0
Returns F = Ensures (λ _. Unit {0}) (λ a _. F a × Unit {0}) (λ _. Unit {0})

module _ {W A : Type 0} where
  pub Returns-any : (m : Exec W A) → Returns (λ _. Unit {0}) m
  Returns-any m = record { at = λ w p. any_lem (m w).0 (m w).1 }

  pub Returns-returns : {F : A → Type 0} (a : A) → F a → Returns {W = W} F (returns a)
  Returns-returns a f = record { at = λ w p. (f, tt) }

  pub Returns-lift : (r : Outcome A) → Returns {W = W} (λ a. r ≡ ok a) (lift r)
  Returns-lift (ok a) = record { at = λ w p. (refl, tt) }
  Returns-lift (err e) = record { at = λ w p. tt }

  pub Returns-at :
      {F : A → Type 0} {m : Exec W A} (w : W) {a : A} → Returns F m → (m w).0 ≡ ok a → F a
  Returns-at {F} {m} w {a} h e =
      (subst (λ r. Settles (λ a _. F a × Unit {0}) (λ _. Unit {0}) r (m w).1) e (h.at w tt)).0

module _ {W A B : Type 0} {F : A → Type 0} {G : B → Type 0} {m : Exec W A} {f : A → Exec W B} where
  pub Returns-bind : Returns F m → ((a : A) → F a → Returns G (f a)) → Returns G (m >>= f)
  Returns-bind h k = Ensures-bind h λ a. Ensures-fact (k a)

-- a property of both continuations is one of the whole
pub settle_lem :
    {W A B : Type 0} (Q : A → W → Type 0) (E : W → Type 0) (R : B → Type 0) (o : Outcome A × W)
    (bad : Error → W → B) (good : A → W → B)
    → Settles Q E o.0 o.1
    → ((e : Error) (w : W) → E w → R (bad e w))
    → ((a : A) (w : W) → o.0 ≡ ok a → Q a w → R (good a w))
    → R (settle o bad good)
settle_lem Q E R (ok a, w) bad good h f g = g a w refl h
settle_lem Q E R (err e, w) bad good h f g = f e w h

pub settle_any :
    {W A B : Type 0} (R : B → Type 0) (o : Outcome A × W) (bad : Error → W → B) (good : A → W → B)
    → ((e : Error) (w : W) → o.0 ≡ err e → R (bad e w))
    → ((a : A) (w : W) → o.0 ≡ ok a → R (good a w))
    → R (settle o bad good)
settle_any R (ok a, w) bad good f g = g a w refl
settle_any R (err e, w) bad good f g = f e w refl

pub attempt-Returns :
    {W A : Type 0} (m : Exec W A) → Returns (λ o. (u : W) × ((m u).0 ≡ o)) (attempt m)
attempt-Returns m = record { at = λ w p. ((w, refl), tt) }

pub present-Returns :
    {W A : Type 0} (o : Option A) (e : Error) → Returns {W = W} (λ a. o ≡ some a) (present o e)
present-Returns none e = record { at = λ w p. tt }
present-Returns (some a) e = record { at = λ w p. (refl, tt) }

pub check-Returns : {W : Type 0} (o : Option Error) → Returns {W = W} (λ _. o ≡ none) (check o)
check-Returns none = record { at = λ w p. (refl, tt) }
check-Returns (some e) = record { at = λ w p. tt }

pub ensure-Returns :
    {W : Type 0} (b : Bool) (e : Error) → Returns {W = W} (λ _. b ≡ true) (ensure b e)
ensure-Returns true e = record { at = λ w p. (refl, tt) }
ensure-Returns false e = record { at = λ w p. tt }

wrapped_lem :
    {W A : Type 0} (message : String) (r : Outcome A) (w : W)
    → Settles (λ a _. (r ≡ ok a) × Unit {0}) (λ _. Unit {0}) (relabel message r) w
wrapped_lem message (ok a) w = (refl, tt)
wrapped_lem message (err e) w = tt

found_lem :
    {W A : Type 0} (m : Exec W A) (u : W) (r : Outcome A) (w : W)
    → Settles (λ a _. ((m u).0 ≡ ok a) × Unit {0}) (λ _. Unit {0}) r w
    → Settles (λ a _. ((x : W) × ((m x).0 ≡ ok a)) × Unit {0}) (λ _. Unit {0}) r w
found_lem m u (ok a) w h = ((u, h.0), tt)
found_lem m u (err e) w h = tt

-- what a call answered in some world, without its error
pub wrapping-Returns :
    {W A : Type 0} (message : String) (m : Exec W A)
    → Returns (λ a. (u : W) × ((m u).0 ≡ ok a)) (wrapping message m)
wrapping-Returns message m = record {
  at = λ w p. found_lem m w (relabel message (m w).0) (m w).1 (wrapped_lem message (m w).0 (m w).1);
}

answered_lem :
    {W A : Type 0} (r : Outcome A) (w : W)
    → Settles (λ a _. (r ≡ ok a) × Unit {0}) (λ _. Unit {0}) r w
answered_lem (ok a) w = (refl, tt)
answered_lem (err e) w = tt

-- what a call answered in some world
pub answer-Returns : {W A : Type 0} (m : Exec W A) → Returns (λ a. (u : W) × ((m u).0 ≡ ok a)) m
answer-Returns m = record {
  at = λ w p. found_lem m w (m w).0 (m w).1 (answered_lem (m w).0 (m w).1);
}
