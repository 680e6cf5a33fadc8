-- ===== src/Base/Json.antt =====
-- Go's `json.Valid`: the byte-at-a-time scanner of encoding/json, over the bytes of a document.
pub mod Encode
use Prim.Native.Nat.{ℕ, zero, suc}
use mathlib.Core.Path.{◌≡◌, refl}
use mathlib.Core.Bool.{Bool, true, false, ◌&&◌, ◌||◌}
use mathlib.Core.Option.{Option, none, some}
use mathlib.Core.List.{List, [], ◌∷◌}
use home_assistant.Base.Tests.{leb, eqb, if◌then◌else◌}
use home_assistant.Base.Text.{codes}

-- what encloses the value that is being read
pub data Context : Type 0 where
  object_key object_value array_value : Context

pub data Mode : Type 0 where
  begin_value begin_value_or_empty begin_string begin_string_or_empty end_value : Mode
  in_string in_escape : Mode
  in_unicode : ℕ → Mode
  after_minus in_integer after_integer after_dot in_fraction after_e after_e_sign in_exponent : Mode
  in_literal : List ℕ → Mode

abbrev State : Type 0
State = Mode × List Context

abbrev is_json_space : ℕ → Bool
is_json_space c = eqb c 0x20 || eqb c 0x09 || eqb c 0x0d || eqb c 0x0a

abbrev is_digit : ℕ → Bool
is_digit c = leb b'0' c && leb c b'9'

abbrev is_hex : ℕ → Bool
is_hex c = is_digit c || leb b'a' c && leb c b'f' || leb b'A' c && leb c b'F'

length : List Context → ℕ
length [] = 0
length (x ∷ xs) = suc (length xs)

-- `pushParseState` with `maxNestingDepth`
push : Mode → Context → List Context → Option State
unfolding length
push mode context stack = if leb (length stack) 9_999 then some (mode, context ∷ stack) else none

value_step : ℕ → List Context → Option State
unfolding push
value_step c stack =
    if is_json_space c
    then some (begin_value, stack)
    else if eqb c b'{'
    then push begin_string_or_empty object_key stack
    else if eqb c b'['
    then push begin_value_or_empty array_value stack
    else if eqb c b'"'
    then some (in_string, stack)
    else if eqb c b'-'
    then some (after_minus, stack)
    else if eqb c b'0'
    then some (after_integer, stack)
    else if leb b'1' c && leb c b'9'
    then some (in_integer, stack)
    else if eqb c b't'
    then some (in_literal (codes "rue"), stack)
    else if eqb c b'f'
    then some (in_literal (codes "alse"), stack)
    else if eqb c b'n'
    then some (in_literal (codes "ull"), stack)
    else none

string_step : Mode → ℕ → List Context → Option State
string_step mode c stack =
    if is_json_space c
    then some (mode, stack)
    else if eqb c b'"'
    then some (in_string, stack)
    else none

end_step : ℕ → List Context → Option State
end_step c [] = if is_json_space c then some (end_value, []) else none
end_step c (object_key ∷ stack) =
    if is_json_space c
    then some (end_value, object_key ∷ stack)
    else if eqb c b':'
    then some (begin_value, object_value ∷ stack)
    else none
end_step c (object_value ∷ stack) =
    if is_json_space c
    then some (end_value, object_value ∷ stack)
    else if eqb c b','
    then some (begin_string, object_key ∷ stack)
    else if eqb c b'}'
    then some (end_value, stack)
    else none
end_step c (array_value ∷ stack) =
    if is_json_space c
    then some (end_value, array_value ∷ stack)
    else if eqb c b','
    then some (begin_value, array_value ∷ stack)
    else if eqb c b']'
    then some (end_value, stack)
    else none

abbrev pop : List Context → List Context
pop [] = []
pop (context ∷ stack) = stack

is_simple_escape : ℕ → Bool
is_simple_escape c =
    eqb c b'b'
    || eqb c b'f'
    || eqb c b'n'
    || eqb c b'r'
    || eqb c b't'
    || eqb c 0x5c
    || eqb c b'/'
    || eqb c b'"'

after_integer_step : ℕ → List Context → Option State
unfolding end_step
after_integer_step c stack =
    if eqb c b'.'
    then some (after_dot, stack)
    else if eqb c b'e' || eqb c b'E'
    then some (after_e, stack)
    else end_step c stack

step : Mode → ℕ → List Context → Option State
unfolding value_step string_step end_step is_simple_escape after_integer_step
step begin_value c stack = value_step c stack
step begin_value_or_empty c stack =
    if is_json_space c
    then some (begin_value_or_empty, stack)
    else if eqb c b']'
    then end_step c stack
    else value_step c stack
step begin_string c stack = string_step begin_string c stack
step begin_string_or_empty c stack =
    if eqb c b'}' then some (end_value, pop stack) else string_step begin_string_or_empty c stack
step end_value c stack = end_step c stack
step in_string c stack =
    if eqb c b'"'
    then some (end_value, stack)
    else if eqb c 0x5c
    then some (in_escape, stack)
    else if leb 0x20 c
    then some (in_string, stack)
    else none
step in_escape c stack =
    if is_simple_escape c
    then some (in_string, stack)
    else if eqb c b'u'
    then some (in_unicode 3, stack)
    else none
step (in_unicode zero) c stack = if is_hex c then some (in_string, stack) else none
step (in_unicode (suc k)) c stack = if is_hex c then some (in_unicode k, stack) else none
step after_minus c stack =
    if eqb c b'0'
    then some (after_integer, stack)
    else if leb b'1' c && leb c b'9'
    then some (in_integer, stack)
    else none
step in_integer c stack =
    if is_digit c then some (in_integer, stack) else after_integer_step c stack
step after_integer c stack = after_integer_step c stack
step after_dot c stack = if is_digit c then some (in_fraction, stack) else none
step in_fraction c stack =
    if is_digit c
    then some (in_fraction, stack)
    else if eqb c b'e' || eqb c b'E'
    then some (after_e, stack)
    else end_step c stack
step after_e c stack =
    if eqb c b'+' || eqb c b'-'
    then some (after_e_sign, stack)
    else if is_digit c
    then some (in_exponent, stack)
    else none
step after_e_sign c stack = if is_digit c then some (in_exponent, stack) else none
step in_exponent c stack = if is_digit c then some (in_exponent, stack) else end_step c stack
step (in_literal []) c stack = end_step c stack
step (in_literal (x ∷ [])) c stack = if eqb c x then some (end_value, stack) else none
step (in_literal (x ∷ y ∷ rest)) c stack =
    if eqb c x then some (in_literal (y ∷ rest), stack) else none

-- `eof` steps once more, by a space
accepts : Option State → Bool
accepts (some (end_value, [])) = true
accepts _ = false

scan : Mode → List Context → List ℕ → Bool
unfolding step accepts
scan mode stack [] = accepts (step mode 0x20 stack)
scan mode stack (c ∷ rest) = elim (step mode c stack) [
  | none ↦ false
  | some (mode', stack') ↦ scan mode' stack' rest
]

unfoldable pub valid : List ℕ → Bool
unfolding scan
valid document = scan begin_value [] document

abbrev pub empty_object : List ℕ
empty_object = codes "{}"

-- a message, or an empty object where there is none, as each package's `normalizeJSON` has it
abbrev pub or_empty_object : List ℕ → List ℕ
or_empty_object [] = empty_object
or_empty_object (c ∷ rest) = c ∷ rest

pub valid-empty_object : valid empty_object ≡ true
unfolding valid
valid-empty_object = refl

nested_document : valid (codes "{\"a\": [1, -2.5e+3, \"x\\u00e9\"], \"b\": null} ") ≡ true
unfolding valid
nested_document = refl

trailing_comma : valid (codes "[1, ]") ≡ false
unfolding valid
trailing_comma = refl

not_a_document : valid [] ≡ false
unfolding valid
not_a_document = refl
