-- ===== src/Telemetry/DistinctKeys.antt =====
-- The check for repeated keys ends, and on the tokens of a document it finds out whether some object
-- in it has a key twice.
use home_assistant.Base.{
  ℕ, zero, suc, ◌+◌, ◌≤◌, String, List, [], ◌∷◌, ◌≢◌, subst, arith, inl, inr, Error, Bool-cases,
}
use home_assistant.Telemetry.StrictJson.{
  Read, token, failure, open_object, close_object, open_array, close_array, text, scalar, more,
  Scan, left, refused, exhausted, and_scan, Phase, value, members, elements, is_seen, close,
  member_key, scan, read_count,
}

-- A value that is read leaves fewer tokens than there were.
abbrev Ends : ℕ → Scan → Type 0
Ends n (left rest) = suc (read_count rest) ≤ n
Ends n (refused e) = Unit
Ends n exhausted = ⊥

Ends-mono : (n k : ℕ) (s : Scan) → n ≤ k → Ends n s → Ends k s
Ends-mono n k (left rest) h e = omega arith
Ends-mono n k (refused x) h e = tt
Ends-mono n k exhausted h e = e

and_scan-Ends :
    (n k : ℕ) (s : Scan) (f : List Read → Scan)
    → Ends n s
    → ((rest : List Read) → suc (read_count rest) ≤ n → Ends k (f rest))
    → Ends k (and_scan s f)
and_scan-Ends n k (left rest) f h g = g rest h
and_scan-Ends n k (refused e) f h g = tt
and_scan-Ends n k exhausted f h g = h

close_object-Ends :
    (e : Error) (reads : List Read) → Ends (read_count reads) (close close_object e reads)
close_object-Ends e [] = tt
close_object-Ends e (failure x ∷ rest) = tt
close_object-Ends e (token open_object ∷ rest) = tt
close_object-Ends e (token close_object ∷ rest) = omega arith
close_object-Ends e (token open_array ∷ rest) = tt
close_object-Ends e (token close_array ∷ rest) = tt
close_object-Ends e (token (text s) ∷ rest) = tt
close_object-Ends e (token scalar ∷ rest) = tt

close_array-Ends :
    (e : Error) (reads : List Read) → Ends (read_count reads) (close close_array e reads)
close_array-Ends e [] = tt
close_array-Ends e (failure x ∷ rest) = tt
close_array-Ends e (token open_object ∷ rest) = tt
close_array-Ends e (token close_object ∷ rest) = tt
close_array-Ends e (token open_array ∷ rest) = tt
close_array-Ends e (token close_array ∷ rest) = omega arith
close_array-Ends e (token (text s) ∷ rest) = tt
close_array-Ends e (token scalar ∷ rest) = tt

-- fuel for a phase, by the tokens
abbrev need : Phase → ℕ → ℕ
need value n = suc (n + n)
need (members seen) n = suc (suc (n + n))
need elements n = suc (suc (n + n))

member_key-Ends :
    (reads : List Read) (seen : List String) (f : String → List Read → Scan)
    → ((key : String) (rest : List Read)
        → suc (read_count rest) ≤ read_count reads
        → Ends (read_count reads) (f key rest))
    → Ends (read_count reads) (member_key reads seen f)
member_key-Ends [] seen f h = tt
member_key-Ends (failure e ∷ rest) seen f h = tt
member_key-Ends (token open_object ∷ rest) seen f h = tt
member_key-Ends (token close_object ∷ rest) seen f h = tt
member_key-Ends (token open_array ∷ rest) seen f h = tt
member_key-Ends (token close_array ∷ rest) seen f h = tt
member_key-Ends (token (text key) ∷ rest) seen f h = elim (Bool-cases (is_seen key seen)) [
  | inl e ↦ rw e tt
  | inr e ↦ rw e (h key rest (omega arith))
]
member_key-Ends (token scalar ∷ rest) seen f h = tt

scan-Ends :
    (fuel : ℕ) (phase : Phase) (reads : List Read)
    → need phase (read_count reads) ≤ fuel
    → Ends (read_count reads) (scan fuel phase reads)
unfolding scan
scan-Ends zero value reads h = absurd omega arith
scan-Ends zero (members seen) reads h = absurd omega arith
scan-Ends zero elements reads h = absurd omega arith
scan-Ends (suc fuel) value [] h = tt
scan-Ends (suc fuel) value (failure e ∷ rest) h = tt
scan-Ends (suc fuel) value (token open_object ∷ rest) h =
    Ends-mono (read_count rest) _ _ (omega arith) (scan-Ends fuel (members []) rest (omega arith))
scan-Ends (suc fuel) value (token open_array ∷ rest) h =
    Ends-mono (read_count rest) _ _ (omega arith) (scan-Ends fuel elements rest (omega arith))
scan-Ends (suc fuel) value (token close_object ∷ rest) h = tt
scan-Ends (suc fuel) value (token close_array ∷ rest) h = tt
scan-Ends (suc fuel) value (token (text s) ∷ rest) h = omega arith
scan-Ends (suc fuel) value (token scalar ∷ rest) h = omega arith
scan-Ends (suc fuel) (members seen) reads h = elim (Bool-cases (more reads)) [
  | inl e ↦
      rw (e, scan, Ends)
        (member_key-Ends reads seen _ (λ key rest k.
          and_scan-Ends (read_count rest) _ _ _ (scan-Ends fuel value rest (omega arith))
            (λ rest' l.
              Ends-mono (read_count rest') _ _ (omega arith)
                (scan-Ends fuel (members (key ∷ seen)) rest' (omega arith)))))
  | inr e ↦ rw (e, scan, Ends) (close_object-Ends _ reads)
]
scan-Ends (suc fuel) elements reads h = elim (Bool-cases (more reads)) [
  | inl e ↦
      rw (e, scan, Ends)
        (and_scan-Ends (read_count reads) _ _ _ (scan-Ends fuel value reads (omega arith))
          (λ rest l.
            Ends-mono (read_count rest) _ _ (omega arith)
              (scan-Ends fuel elements rest (omega arith))))
  | inr e ↦ rw (e, scan, Ends) (close_array-Ends _ reads)
]

-- The check for repeated keys never runs out of the fuel that it is given: whatever the tokens are, it
-- comes to a value's end or to an error.
pub scan_ends :
    (reads : List Read) → scan (suc (read_count reads + read_count reads)) value reads ≢ exhausted
scan_ends reads h =
    subst (Ends (read_count reads)) h
      (scan-Ends (suc (read_count reads + read_count reads)) value reads (omega arith))
