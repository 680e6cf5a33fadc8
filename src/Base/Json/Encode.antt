-- ===== src/Base/Json/Encode.antt =====
-- Go's `json.Marshal` of texts and of maps from texts to texts: the bytes that it writes.
use Prim.Native.Nat.{ℕ, ◌+◌, ◌/◌, ◌%◌}
use Prim.Native.String.{String}
use mathlib.Core.Path.{◌≡◌, refl}
use mathlib.Core.Bool.{◌||◌}
use mathlib.Core.List.{List, [], ◌∷◌, ◌++◌, map}
use home_assistant.Base.Tests.{ltb, eqb, if◌then◌else◌}
use home_assistant.Base.Text.{codes}

hex_digit : ℕ → ℕ
hex_digit d = if ltb d 10 then d + b'0' else d + 87

-- \u00xx, and so on
unicode_escape : ℕ → List ℕ
unicode_escape c =
    0x5c
    ∷ b'u'
    ∷ hex_digit (c / 0x1000 % 16)
    ∷ hex_digit (c / 0x100 % 16)
    ∷ hex_digit (c / 16 % 16)
    ∷ hex_digit (c % 16)
    ∷ []

utf8 : ℕ → List ℕ
utf8 c =
    if ltb c 0x80
    then c ∷ []
    else if ltb c 0x800
    then (0xc0 + c / 0x40) ∷ (0x80 + c % 0x40) ∷ []
    else if ltb c 0x10000
    then (0xe0 + c / 0x1000) ∷ (0x80 + c / 0x40 % 0x40) ∷ (0x80 + c % 0x40) ∷ []
    else (0xf0 + c / 0x40000)
      ∷ (0x80 + c / 0x1000 % 0x40)
      ∷ (0x80 + c / 0x40 % 0x40)
      ∷ (0x80 + c % 0x40)
      ∷ []

escape : ℕ → List ℕ
escape c =
    if eqb c b'"' || eqb c 0x5c
    then 0x5c ∷ c ∷ []
    else if eqb c 0x08
    then 0x5c ∷ b'b' ∷ []
    else if eqb c 0x0c
    then 0x5c ∷ b'f' ∷ []
    else if eqb c 0x0a
    then 0x5c ∷ b'n' ∷ []
    else if eqb c 0x0d
    then 0x5c ∷ b'r' ∷ []
    else if eqb c 0x09
    then 0x5c ∷ b't' ∷ []
    else if ltb c 0x20 || eqb c b'<' || eqb c b'>' || eqb c b'&' || eqb c 0x2028 || eqb c 0x2029
    then unicode_escape c
    else utf8 c

escape_all : List ℕ → List ℕ
escape_all [] = []
escape_all (c ∷ rest) = escape c ++ escape_all rest

unfoldable pub encode_string : String → List ℕ
unfolding escape_all escape unicode_escape utf8 hex_digit
encode_string s = b'"' ∷ (escape_all (codes s) ++ b'"' ∷ [])

-- A map with its keys in order, and its values encoded.
members : List (String × List ℕ) → List ℕ
members [] = []
members ((k, v) ∷ []) = encode_string k ++ (b':' ∷ v)
members ((k, v) ∷ e ∷ m) = encode_string k ++ (b':' ∷ (v ++ (b',' ∷ members (e ∷ m))))

unfoldable pub encode_entries : List (String × List ℕ) → List ℕ
unfolding members
encode_entries m = b'{' ∷ (members m ++ b'}' ∷ [])

-- A map from texts to texts.
unfoldable pub encode_map : List (String × String) → List ℕ
encode_map m = encode_entries (map (λ (k, v). (k, encode_string v)) m)

encoded_map :
    encode_map (("a", "x\"<") ∷ ("b", "é") ∷ [])
    ≡ codes "{\"a\":\"x\\\"\\u003c\",\"b\":\"" ++ (0xc3 ∷ 0xa9 ∷ codes "\"}")
unfolding encode_map encode_entries encode_string
encoded_map = refl
