-- ===== src/Base/Simulation.antt =====
-- Functions with effects against an abstract step relation: what an abstraction `view` of the world
-- shows changes along steps only, whether the function returns or fails.
use Prim.Native.String.{String}
use mathlib.Core.Path.{◌≡◌, refl, ◌∙◌}
use mathlib.Core.Option.{Option, none, some}
use home_assistant.Base.Effects.{Error, Outcome, ok, err, Exec, wrapping, check}
use home_assistant.Base.Ensures.{Settles, Ensures, Ensures-wrapping, Ensures-mono}

pub data Steps {V : Type 0} (Step : V → V → Type 0) (v : V) : V → Type 0 where
  here : Steps Step v v
  next : {u u' : V} → Steps Step v u → Step u u' → Steps Step v u'

pub Steps-trans :
    {V : Type 0} {Step : V → V → Type 0} {v u x : V}
    → Steps Step v u
    → Steps Step u x
    → Steps Step v x
Steps-trans p here = p
Steps-trans p (next q s) = next (Steps-trans p q) s

module _ {W V : Type 0} (view : W → V) where
  -- the abstraction is `u`
  abbrev pub Shows : V → W → Type 0
  Shows u w = view w ≡ u

  -- a call that leaves the abstraction alone, whatever comes of it
  abbrev pub Quiet : {A : Type 0} → Exec W A → Type 0
  Quiet m = (w : W) → view (m w).1 ≡ view w

Settles-both :
    {W A : Type 0} (P : W → Type 0) (r : Outcome A) (w : W) → P w → Settles (λ _. P) P r w
Settles-both P (ok a) w h = h
Settles-both P (err e) w h = h

pub settled : {W A : Type 0} (K : W → Type 0) (r : Outcome A) (w : W) → Settles (λ _. K) K r w → K w
settled K (ok a) w h = h
settled K (err e) w h = h

module _ {W V : Type 0} (view : W → V) (u : V) where
  pub Quiet-Ensures :
      {A : Type 0} (m : Exec W A)
      → Quiet view m
      → Ensures (Shows view u) (λ _. Shows view u) (Shows view u) m
  Quiet-Ensures m q = record { at = λ w p. Settles-both (Shows view u) (m w).0 (m w).1 (q w ∙ p) }

  pub Quiet-answers :
      {A : Type 0} (m : Exec W A)
      → Quiet view m
      → Ensures (Shows view u) (λ a w. ((x : W) × ((m x).0 ≡ ok a)) × (view w ≡ u)) (Shows view u) m
  Quiet-answers {A} m q = record { at = λ w p. answer_lem (m w).0 (m w).1 w refl (q w ∙ p) }
    where
      answer_lem :
          (o : Outcome A) (w x : W)
          → (m x).0 ≡ o
          → view w ≡ u
          → Settles (λ a w. ((x : W) × ((m x).0 ≡ ok a)) × (view w ≡ u)) (Shows view u) o w
      answer_lem (ok a) w x h p = ((x, h), p)
      answer_lem (err e) w x h p = p

  pub check-Ensures :
      (e : Option Error)
      → Ensures (Shows view u) (λ _ w. (e ≡ none) × (view w ≡ u)) (Shows view u) (check e)
  check-Ensures none = record { at = λ w p. (refl, p) }
  check-Ensures (some e) = record { at = λ w p. p }

module _ {W V : Type 0} (view : W → V) (Step : V → V → Type 0) (v : V) where
  abbrev pub Keeps : W → Type 0
  Keeps w = Steps Step v (view w)

  pub Shows-Keeps : (u : V) (w : W) → Steps Step v u → view w ≡ u → Keeps w
  Shows-Keeps u w h e = rw e h

  pub Ensures-Keeps :
      {A : Type 0} {Q : A → W → Type 0} {m : Exec W A} (u : V)
      → Steps Step v u
      → Ensures (Shows view u) Q (Shows view u) m
      → Ensures (Shows view u) Q Keeps m
  Ensures-Keeps u h e = Ensures-mono e (λ w p. p) (λ a w q. q) (λ w p. Shows-Keeps u w h p)

  pub Quiet-Keeps :
      {A : Type 0} (m : Exec W A) (u : V)
      → Steps Step v u
      → Quiet view m
      → Ensures (Shows view u) (λ _. Shows view u) Keeps m
  Quiet-Keeps m u h q = Ensures-Keeps u h (Quiet-Ensures view u m q)

  pub check-Keeps :
      (e : Option Error) (u : V)
      → Steps Step v u
      → Ensures (Shows view u) (λ _ w. (e ≡ none) × (view w ≡ u)) Keeps (check e)
  check-Keeps e u h = Ensures-Keeps u h (check-Ensures view u e)

  -- A step is taken where the call succeeds, and none where it fails.
  pub Step-Keeps :
      {A : Type 0} {m : Exec W A} (message : String) (u u' : V)
      → Steps Step v u
      → Step u u'
      → Ensures (Shows view u) (λ _. Shows view u') (Shows view u) m
      → Ensures (Shows view u) (λ _. Shows view u') Keeps (wrapping message m)
  Step-Keeps message u u' h s e = Ensures-wrapping message (Ensures-Keeps u h e)

module _ {W V : Type 0} (view : W → V) (Step : V → V → Type 0) where
  pub reached :
      {A : Type 0} (m : Exec W A) (w : W)
      → Ensures (Shows view (view w)) (λ _. Keeps view Step (view w)) (Keeps view Step (view w)) m
      → Steps Step (view w) (view (m w).1)
  reached m w h = settled (Keeps view Step (view w)) (m w).0 (m w).1 (h.at w refl)
