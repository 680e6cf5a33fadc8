-- ===== src/Base/Split.antt =====
-- Go's `strings.Split` at one character and `strings.Join`, on texts, and that they undo each other.
use Prim.Native.Nat.{ℕ}
use Prim.Native.Char.{Char, code}
use Prim.Native.String.{String}
use mathlib.Core.Path.{◌≡◌, refl, ap, ◌∙◌}
use mathlib.Core.Bool.{Bool, false, ◌||◌}
use mathlib.Core.List.{List, [], ◌∷◌}
use native.Mathlib.Omega.{arith}
use home_assistant.Base.Tests.{eqb, if◌then◌else◌}

unfoldable pub append : String → String → String
append String.[] t = t
append (String.◌∷◌ c s) t = String.◌∷◌ c (append s t)

-- whether a character that meets the test occurs, as in `strings.ContainsAny`
unfoldable pub has : (ℕ → Bool) → String → Bool
has test String.[] = false
has test (String.◌∷◌ c s) = test (code c) || has test s

abbrev pub onto_first : Char → List String → List String
onto_first c [] = String.◌∷◌ c String.[] ∷ []
onto_first c (s ∷ rest) = String.◌∷◌ c s ∷ rest

unfoldable pub split : ℕ → String → List String
split separator String.[] = String.[] ∷ []
split separator (String.◌∷◌ c s) =
    let rest = split separator s in
    if eqb (code c) separator then String.[] ∷ rest else onto_first c rest

unfoldable pub join : Char → List String → String
unfolding append
join separator [] = String.[]
join separator (s ∷ []) = s
join separator (s ∷ t ∷ rest) = append s (String.◌∷◌ separator (join separator (t ∷ rest)))

abbrev pub AllLack : ℕ → List String → Type 0
AllLack separator [] = Unit
AllLack separator (s ∷ rest) = (has (eqb separator) s ≡ false) × AllLack separator rest

split_one :
    (separator : ℕ) (s : String) → has (eqb separator) s ≡ false → split separator s ≡ s ∷ []
unfolding split has
split_one separator String.[] h = refl
split_one separator (String.◌∷◌ c s) h = ground (arith, split_one separator s)

split-append :
    (separator : Char) (s t : String)
    → has (eqb (code separator)) s ≡ false
    → split (code separator) (append s (String.◌∷◌ separator t)) ≡ s ∷ split (code separator) t
unfolding split has append
split-append separator String.[] t h = ground arith
split-append separator (String.◌∷◌ c s) t h = ground (arith, split-append separator s t)

-- What is joined from texts without the separator is split into them again.
pub split-join :
    (separator : Char) (s : String) (rest : List String)
    → AllLack (code separator) (s ∷ rest)
    → split (code separator) (join separator (s ∷ rest)) ≡ s ∷ rest
unfolding join
split-join separator s [] h = split_one (code separator) s h.0
split-join separator s (t ∷ rest) (h, k) =
    split-append separator s (join separator (t ∷ rest)) h
    ∙ ap (λ l. s ∷ l) (split-join separator t rest k)
