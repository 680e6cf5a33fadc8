-- ===== src/Releases/Versions.antt =====
-- Dotted versions: `parseDottedVersion`, `compareDottedVersion` and `versionWithin` of
-- backend/internal/domain/releases/service.go.
use Prim.Native.Nat.{Ordering}
use Prim.Native.Char.{code}
use home_assistant.Base.Split.{split}
use home_assistant.Base.{
  ℕ, zero, suc, ◌+◌, ◌-◌, ◌*◌, String, Bool, true, false, ◌&&◌, ◌||◌, Option, none, some, List, [],
  ◌∷◌, errorf, Outcome, ok, err, ltb, leb, eqb, if◌then◌else◌, is_empty, trim_space,
}

-- `strings.TrimPrefix` with "v"
unfoldable pub trim_prefix : String → String
trim_prefix String.[] = String.[]
trim_prefix (String.◌∷◌ c s) = if eqb (code c) 0x76 then s else String.◌∷◌ c s

-- the text before the first "-" or "+"
unfoldable pub without_suffix : String → String
without_suffix String.[] = String.[]
without_suffix (String.◌∷◌ c s) =
    let rest = without_suffix s in
    if eqb (code c) 0x2d || eqb (code c) 0x2b then String.[] else String.◌∷◌ c rest

unfoldable pub digits_from : ℕ → String → Option ℕ
digits_from value String.[] = some value
digits_from value (String.◌∷◌ c s) =
    let rest = digits_from (value * 10 + (code c - 0x30)) s in
    if leb 0x30 (code c) && leb (code c) 0x39 then rest else none

abbrev in_range : Option ℕ → Option ℕ
in_range none = none
in_range (some n) = if ltb n 0x8000000000000000 then some n else none

-- `strconv.Atoi` of a text without a sign, which is an `int` of 64 bits.
unfoldable pub atoi : String → Option ℕ
atoi s = if is_empty s then none else in_range (digits_from 0 s)

abbrev with_value : String → Option ℕ → Outcome (List ℕ) → Outcome (List ℕ)
with_value version none rest = err (errorf "invalid version %q" (version ∷ []))
with_value version (some n) (ok values) = ok (n ∷ values)
with_value version (some n) (err e) = err e

-- the loop over the parts of a version
unfoldable pub parse_parts : String → List String → Outcome (List ℕ)
parse_parts version [] = ok []
parse_parts version (part ∷ parts) = with_value version (atoi part) (parse_parts version parts)

unfoldable pub parse_dotted_version : String → Outcome (List ℕ)
parse_dotted_version text =
    let version = without_suffix (trim_prefix (trim_space text)) in
    if is_empty version
    then err (errorf "empty version" [])
    else parse_parts version (split 0x2e version)

abbrev pub length : List ℕ → ℕ
length [] = 0
length (n ∷ l) = suc (length l)

abbrev pub max : ℕ → ℕ → ℕ
max m n = if ltb m n then n else m

-- A part of a version, which is 0 where the version has none.
abbrev pub part : List ℕ → ℕ → ℕ
part [] k = 0
part (n ∷ l) zero = n
part (n ∷ l) (suc k) = part l k

abbrev pub others : List ℕ → List ℕ
others [] = []
others (n ∷ l) = l

-- the loop over the parts of both versions, of which `n` are left
unfoldable pub compare_parts : ℕ → List ℕ → List ℕ → Ordering
compare_parts zero left right = Ordering.eq
compare_parts (suc n) left right =
    let rest = compare_parts n (others left) (others right) in
    if ltb (part left 0) (part right 0)
    then Ordering.lt
    else if ltb (part right 0) (part left 0)
    then Ordering.gt
    else rest

unfoldable pub compare_values : List ℕ → List ℕ → Ordering
compare_values left right = compare_parts (max (length left) (length right)) left right

abbrev pub compare_outcomes : Outcome (List ℕ) → Outcome (List ℕ) → Outcome Ordering
compare_outcomes (err e) right = err e
compare_outcomes (ok left) (err e) = err e
compare_outcomes (ok left) (ok right) = ok (compare_values left right)

-- The -1, 0 and 1 of the source are `lt`, `eq` and `gt`.
unfoldable pub compare_dotted_version : String → String → Outcome Ordering
compare_dotted_version left right =
    compare_outcomes (parse_dotted_version left) (parse_dotted_version right)

abbrev is_at_least : Outcome Ordering → Outcome Bool
is_at_least (ok Ordering.lt) = ok false
is_at_least (ok _) = ok true
is_at_least (err e) = err e

abbrev is_at_most : Outcome Ordering → Outcome Bool
is_at_most (ok Ordering.gt) = ok false
is_at_most (ok _) = ok true
is_at_most (err e) = err e

abbrev both : Outcome Bool → Outcome Bool → Outcome Bool
both (ok true) second = second
both (ok false) second = ok false
both (err e) second = err e

abbrev bounded_below : String → String → Outcome Bool
bounded_below value bound =
    if is_empty bound then ok true else is_at_least (compare_dotted_version value bound)

abbrev bounded_above : String → String → Outcome Bool
bounded_above value bound =
    if is_empty bound then ok true else is_at_most (compare_dotted_version value bound)

unfoldable pub version_within : String → String → String → Outcome Bool
version_within text min_version max_version =
    let value = trim_space text in
    if is_empty value
    then ok (is_empty min_version && is_empty max_version)
    else both (bounded_below value min_version) (bounded_above value max_version)
