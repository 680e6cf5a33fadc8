-- ===== src/Telemetry/StrictJson.antt =====
-- The check of telemetry-ingest/internal/pipeline/strict_json.go for repeated keys. What the calls of
-- `Decoder.Token` on a document return is a list that ends with the document. `More` looks at the
-- next of them: where it differs from the decoder's, the next call returns the same error.
use home_assistant.Base.{
  ℕ, zero, suc, ◌+◌, String, Bool, true, false, ◌||◌, Option, none, some, List, [], ◌∷◌, ◌==◌,
  if◌then◌else◌, errorf, Error,
}

pub data Token : Type 0 where
  open_object close_object open_array close_array : Token
  text : String → Token
  scalar : Token

pub data Read : Type 0 where
  token : Token → Read
  failure : Error → Read

abbrev pub end_of_file : Error
end_of_file = Error.sentinel "EOF"

abbrev pub is_close : Token → Bool
is_close close_object = true
is_close close_array = true
is_close _ = false

-- `Decoder.More`
abbrev pub more : List Read → Bool
more [] = false
more (token close_object ∷ rest) = false
more (token close_array ∷ rest) = false
more (_ ∷ rest) = true

-- what is left to read after a value, an error, or too little fuel
pub data Scan : Type 0 where
  left : List Read → Scan
  refused : Error → Scan
  exhausted : Scan

abbrev pub and_scan : Scan → (List Read → Scan) → Scan
and_scan (left reads) f = f reads
and_scan (refused e) f = refused e
and_scan exhausted f = exhausted

-- what is to be read: a value, the members of an object with the keys that are seen, or the elements
-- of an array
pub data Phase : Type 0 where
  value : Phase
  members : List String → Phase
  elements : Phase

unfoldable pub is_seen : String → List String → Bool
is_seen key [] = false
is_seen key (k ∷ seen) = (k == key) || is_seen key seen

-- the token that closes an object or an array
abbrev pub close : Token → Error → List Read → Scan
close expected e [] = refused end_of_file
close expected e (failure e' ∷ rest) = refused e'
close close_object e (token close_object ∷ rest) = left rest
close close_array e (token close_array ∷ rest) = left rest
close expected e (token t ∷ rest) = refused e

-- the key of a member, and how the loop goes on after it
abbrev pub member_key : List Read → List String → (String → List Read → Scan) → Scan
member_key [] seen f = refused end_of_file
member_key (failure e ∷ rest) seen f = refused e
member_key (token (text key) ∷ rest) seen f =
    if is_seen key seen then refused (errorf "duplicate json key %q" (key ∷ [])) else f key rest
member_key (token t ∷ rest) seen f = refused (errorf "object key must be a string" [])

-- `rejectDuplicateValueKeys` and its two loops
unfoldable pub scan : ℕ → Phase → List Read → Scan
scan zero phase reads = exhausted
scan (suc fuel) value [] = refused end_of_file
scan (suc fuel) value (failure e ∷ rest) = refused e
scan (suc fuel) value (token open_object ∷ rest) = scan fuel (members []) rest
scan (suc fuel) value (token open_array ∷ rest) = scan fuel elements rest
scan (suc fuel) value (token close_object ∷ rest) =
    refused (errorf "unexpected json delimiter %q" ("}" ∷ []))
scan (suc fuel) value (token close_array ∷ rest) =
    refused (errorf "unexpected json delimiter %q" ("]" ∷ []))
scan (suc fuel) value (token (text s) ∷ rest) = left rest
scan (suc fuel) value (token scalar ∷ rest) = left rest
scan (suc fuel) (members seen) reads = elim (more reads) [
  | true ↦ member_key reads seen (λ key rest.
      and_scan (scan fuel value rest) (λ rest'. scan fuel (members (key ∷ seen)) rest'))
  | false ↦ close close_object (errorf "object is not closed" []) reads
]
scan (suc fuel) elements reads = elim (more reads) [
  | true ↦ and_scan (scan fuel value reads) (λ rest. scan fuel elements rest)
  | false ↦ close close_array (errorf "array is not closed" []) reads
]

-- the end of the document
abbrev pub at_end : Scan → Option Error
at_end (left []) = none
at_end (left (token t ∷ rest)) = some (errorf "json has trailing data" [])
at_end (left (failure e ∷ rest)) = some e
at_end (refused e) = some e
at_end exhausted = some (errorf "too little fuel" [])

abbrev pub read_count : List Read → ℕ
read_count [] = 0
read_count (r ∷ rest) = suc (read_count rest)

-- A call for each token is fuel enough, and one for a value that is missing.
unfoldable pub reject_duplicate_json_keys : List Read → Option Error
reject_duplicate_json_keys reads =
    at_end (scan (suc (read_count reads + read_count reads)) value reads)
