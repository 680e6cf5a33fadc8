-- ===== src/Base/Decimal.antt =====
-- Numbers in decimal, as `fmt` prints them with `%d`, `%02d` and `%04d`.
use Prim.Native.Nat.{ℕ, zero, suc, ◌+◌, ◌/◌, ◌%◌}
use Prim.Native.Char.{Char, code}
use Prim.Native.String.{String}
use mathlib.Core.Path.{◌≡◌, refl}
use mathlib.Core.Bool.{Bool, false}
use mathlib.Core.Logic.{inl, inr}
use native.Mathlib.Omega.{arith}
use home_assistant.Base.Tests.{ltb, if◌then◌else◌, Bool-cases}
use home_assistant.Base.Split.{append, has}
use home_assistant.Base.Int.{ℤ, pos, negsuc}

unfoldable pub digit : ℕ → Char
digit zero = "0"
digit (suc zero) = "1"
digit (suc (suc zero)) = "2"
digit (suc (suc (suc zero))) = "3"
digit (suc (suc (suc (suc zero)))) = "4"
digit (suc (suc (suc (suc (suc zero))))) = "5"
digit (suc (suc (suc (suc (suc (suc zero)))))) = "6"
digit (suc (suc (suc (suc (suc (suc (suc zero))))))) = "7"
digit (suc (suc (suc (suc (suc (suc (suc (suc zero)))))))) = "8"
digit _ = "9"

-- The digits of `n` before `rest`. Fuel above `n` is enough, since each digit divides by ten.
unfoldable pub decimal_from : ℕ → ℕ → String → String
decimal_from zero n rest = rest
decimal_from (suc fuel) n rest =
    let more = decimal_from fuel (n / 10) (String.◌∷◌ (digit (n % 10)) rest) in
    if ltb n 10 then String.◌∷◌ (digit n) rest else more

unfoldable pub decimal : ℕ → String
decimal n = decimal_from (n + 1) n String.[]

unfoldable pub decimal_2 : ℕ → String
decimal_2 n = if ltb n 10 then String.◌∷◌ "0" (decimal n) else decimal n

unfoldable pub decimal_4 : ℕ → String
decimal_4 n =
    if ltb n 10
    then append "000" (decimal n)
    else if ltb n 100
    then append "00" (decimal n)
    else if ltb n 1_000
    then String.◌∷◌ "0" (decimal n)
    else decimal n

-- an `int` with `%d`
unfoldable pub int_text : ℤ → String
int_text (pos n) = decimal n
int_text (negsuc n) = String.◌∷◌ "-" (decimal (suc n))

year_run : decimal_4 987 ≡ "0987"
unfolding decimal_4 decimal decimal_from digit append
year_run = refl

-- A test that fails at each digit fails at all of a number.
module _ (test : ℕ → Bool) (digits : (n : ℕ) → test (code (digit n)) ≡ false) where
  has-decimal_from :
      (fuel n : ℕ) (rest : String)
      → has test rest ≡ false
      → has test (decimal_from fuel n rest) ≡ false
  unfolding decimal_from has
  has-decimal_from zero n rest h = h
  has-decimal_from (suc fuel) n rest h = elim (Bool-cases (ltb n 10)) [
    | inl e ↦ rw e (rw (digits n) h)
    | inr e ↦
        rw e (
          has-decimal_from fuel (n / 10) (String.◌∷◌ (digit (n % 10)) rest)
            (rw (digits (n % 10)) h))
  ]

  pub has-decimal : (n : ℕ) → has test (decimal n) ≡ false
  unfolding decimal has
  has-decimal n = has-decimal_from (n + 1) n String.[] refl

  zero_lem : test (code "0") ≡ false
  unfolding digit
  zero_lem = digits 0

  pub has-decimal_2 : (n : ℕ) → has test (decimal_2 n) ≡ false
  unfolding decimal_2 has
  has-decimal_2 n = elim (Bool-cases (ltb n 10)) [
    | inl e ↦ rw (e, zero_lem) (has-decimal n)
    | inr e ↦ rw e (has-decimal n)
  ]

  pub has-decimal_4 : (n : ℕ) → has test (decimal_4 n) ≡ false
  unfolding decimal_4 has append
  has-decimal_4 n = ground (arith, zero_lem, has-decimal n)
