-- ===== src/Authorization/Actions.antt =====
-- What an action looks like.
use Prim.Native.Char.{code}
use text.Mathlib.TextEquality.{Char-path}
use home_assistant.Base.{
  ℕ, String, Bool, true, false, ◌&&◌, ◌||◌, ◌≤◌, ◌⊎◌, and_true, ◌≡◌, ◌↔◌, refl, sym, ◌∙◌, ap, inl,
  inr, eqb, Bool-cases, arith,
}
use home_assistant.Base.Split.{append, has}
use home_assistant.Authorization.Service.{
  is_letter, is_word, first, second_start, second, matches, valid_action,
}

-- a letter, and then letters, digits and underscores
unfoldable pub all_word : String → Bool
all_word String.[] = true
all_word (String.◌∷◌ c s) = is_word (code c) && all_word s

unfoldable pub is_identifier : String → Bool
unfolding all_word
is_identifier String.[] = false
is_identifier (String.◌∷◌ c s) = is_letter (code c) && all_word s

second_lem : (s : String) → matches second s ≡ all_word s
unfolding matches all_word
second_lem String.[] = refl
second_lem (String.◌∷◌ c s) = rw (second_lem s) refl

second_start_lem : (s : String) → matches second_start s ≡ is_identifier s
unfolding matches is_identifier
second_start_lem String.[] = refl
second_start_lem (String.◌∷◌ c s) = rw (second_lem s) refl

both_false : (a b : Bool) → (a || b) ≡ false → (a ≡ false) × (b ≡ false)
both_false false b h = (refl, h)
both_false true b h = absurd cc

and_assoc : (a b c : Bool) → (a && (b && c)) ≡ ((a && b) && c)
and_assoc true b c = refl
and_assoc false b c = refl

eqb_swap : (a b : ℕ) → eqb a b ≡ false → eqb b a ≡ false
eqb_swap a b h = ground arith

first_lem :
    (s t : String)
    → has (eqb b':') s ≡ false
    → matches first (append s (String.◌∷◌ ":" t)) ≡ (all_word s && is_identifier t)
unfolding matches all_word append has
first_lem String.[] t h = second_start_lem t
first_lem (String.◌∷◌ c s) t h =
    let (apart, rest) = both_false (eqb b':' (code c)) (has (eqb b':') s) h in
    rw (eqb_swap b':' (code c) apart, first_lem s t rest)
      (and_assoc (is_word (code c)) (all_word s) (is_identifier t))

-- Two texts that a colon joins are a valid action exactly where both are a letter with letters, digits
-- and underscores after it, provided that the first one has no colon.
pub valid_action-append :
    (s t : String)
    → has (eqb b':') s ≡ false
    → valid_action (append s (String.◌∷◌ ":" t)) ≡ (is_identifier s && is_identifier t)
unfolding valid_action matches is_identifier append has
valid_action-append String.[] t h = refl
valid_action-append (String.◌∷◌ c s) t h =
    let (apart, rest) = both_false (eqb b':' (code c)) (has (eqb b':') s) h in
    rw (first_lem s t rest) (and_assoc (is_letter (code c)) (all_word s) (is_identifier t))

abbrev pub IsLetter : ℕ → Type 0
IsLetter c = (b'a' ≤ c) × (c ≤ b'z')

-- a letter, a digit or an underscore
abbrev pub IsWord : ℕ → Type 0
IsWord c = IsLetter c ⊎ ((b'0' ≤ c) × (c ≤ b'9')) ⊎ (c ≡ b'_')

abbrev pub AllWord : String → Type 0
AllWord String.[] = Unit
AllWord (String.◌∷◌ c s) = IsWord (code c) × AllWord s

abbrev pub IsIdentifier : String → Type 0
IsIdentifier String.[] = ⊥
IsIdentifier (String.◌∷◌ c s) = IsLetter (code c) × AllWord s

-- Two identifiers that a colon joins.
pub record IsAction (action : String) : Type 0 where
  pub resource : String
  pub verb : String
  pub joined : action ≡ append resource (String.◌∷◌ ":" verb)
  pub is_resource : IsIdentifier resource
  pub is_verb : IsIdentifier verb

letter_lem : (c : ℕ) → (is_letter c ≡ true) ↔ IsLetter c
letter_lem c = ground arith

word_lem : (c : ℕ) → (is_word c ≡ true) ↔ IsWord c
word_lem c = ground arith

all_word-AllWord : (s : String) → all_word s ≡ true → AllWord s
unfolding all_word
all_word-AllWord String.[] h = tt
all_word-AllWord (String.◌∷◌ c s) h =
    let (k, l) = and_true (is_word (code c)) (all_word s) h in
    ((word_lem (code c)).0 k, all_word-AllWord s l)

AllWord-all_word : (s : String) → AllWord s → all_word s ≡ true
unfolding all_word
AllWord-all_word String.[] h = refl
AllWord-all_word (String.◌∷◌ c s) (h, k) = rw ((word_lem (code c)).1 h, AllWord-all_word s k) refl

identifier_lem : (s : String) → is_identifier s ≡ true → IsIdentifier s
unfolding is_identifier
identifier_lem String.[] h = absurd cc
identifier_lem (String.◌∷◌ c s) h =
    let (k, l) = and_true (is_letter (code c)) (all_word s) h in
    ((letter_lem (code c)).0 k, all_word-AllWord s l)

identified_lem : (s : String) → IsIdentifier s → is_identifier s ≡ true
unfolding is_identifier
identified_lem String.[] h = absurd h
identified_lem (String.◌∷◌ c s) (h, k) = rw ((letter_lem (code c)).1 h, AllWord-all_word s k) refl

no_colon : (s : String) → AllWord s → has (eqb b':') s ≡ false
unfolding has
no_colon String.[] h = refl
no_colon (String.◌∷◌ c s) (h, k) = ground (arith, no_colon s k)

first_split :
    (s : String)
    → matches first s ≡ true
    → (u : String) × (t : String) × (s ≡ append u (String.◌∷◌ ":" t)) × AllWord u × IsIdentifier t
unfolding matches append
first_split String.[] h = absurd cc
first_split (String.◌∷◌ c s) h = elim (Bool-cases (eqb (code c) b':')) [
  | inl e ↦
      (let colon : matches second_start s ≡ true = rw e at h in
        (
          "",
          s,
          ap (λ d. String.◌∷◌ d s) (Char-path c ":" (ground arith)),
          tt,
          identifier_lem s (sym (second_start_lem s) ∙ colon),
        ))
  | inr e ↦
      (let (k, l) = and_true (is_word (code c)) (matches first s) (rw e at h) in
        let (u, t, joined, words, verb) = first_split s l in
        (
          String.◌∷◌ c u,
          t,
          ap (λ x. String.◌∷◌ c x) joined,
          ((word_lem (code c)).0 k, words),
          verb,
        ))
]

pub valid-IsAction : (action : String) → valid_action action ≡ true → IsAction action
unfolding valid_action matches append
valid-IsAction String.[] h = absurd cc
valid-IsAction (String.◌∷◌ c s) h =
    let (letter, l) = and_true (is_letter (code c)) (matches first s) h in
    let (u, t, joined, words, verb) = first_split s l in
    record {
      resource = String.◌∷◌ c u;
      verb = t;
      joined = ap (λ x. String.◌∷◌ c x) joined;
      is_resource = ((letter_lem (code c)).0 letter, words);
      is_verb = verb;
    }

identifier-no_colon : (s : String) → IsIdentifier s → has (eqb b':') s ≡ false
unfolding has
identifier-no_colon String.[] h = absurd h
identifier-no_colon (String.◌∷◌ c s) (h, k) = no_colon (String.◌∷◌ c s) (inl h, k)

pub IsAction-valid : (action : String) → IsAction action → valid_action action ≡ true
IsAction-valid action h =
    ap valid_action h.joined
    ∙ valid_action-append h.resource h.verb (identifier-no_colon h.resource h.is_resource)
    ∙ rw (identified_lem h.resource h.is_resource, identified_lem h.verb h.is_verb) refl
