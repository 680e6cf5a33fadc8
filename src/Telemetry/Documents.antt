-- ===== src/Telemetry/Documents.antt =====
-- Documents and their tokens: the check for repeated keys passes those in which no object has a key
-- twice.
use home_assistant.Base.{
  ℕ, zero, suc, ◌+◌, ◌≤◌, String, Bool, true, false, not, ◌&&◌, ◌||◌, none, some, List, [], ◌∷◌,
  ◌≡◌, ◌↔◌, refl, sym, ◌∙◌, ap, subst, arith, inl, inr, ◌==◌, Error, errorf, Bool-cases,
}
use home_assistant.Telemetry.StrictJson.{
  Read, token, open_object, close_object, open_array, close_array, text, scalar, more, Scan, left,
  refused, and_scan, value, members, elements, is_seen, scan, at_end, read_count,
  reject_duplicate_json_keys,
}

mutual
  pub data Document : Type 0 where
    leaf : Document
    string : String → Document
    array : Items → Document
    object : Fields → Document

  pub data Items : Type 0 where
    no_item : Items
    item : Document → Items → Items

  pub data Fields : Type 0 where
    no_field : Fields
    field : String → Document → Fields → Fields

-- the tokens of a document, before others
unfoldable mutual
  pub reads : Document → List Read → List Read
  reads leaf rest = token scalar ∷ rest
  reads (string s) rest = token (text s) ∷ rest
  reads (array xs) rest = token open_array ∷ reads_items xs (token close_array ∷ rest)
  reads (object xs) rest = token open_object ∷ reads_fields xs (token close_object ∷ rest)

  reads_items : Items → List Read → List Read
  reads_items no_item rest = rest
  reads_items (item x xs) rest = reads x (reads_items xs rest)

  reads_fields : Fields → List Read → List Read
  reads_fields no_field rest = rest
  reads_fields (field key x xs) rest = token (text key) ∷ reads x (reads_fields xs rest)

abbrev has_key : String → Fields → Bool
has_key key no_field = false
has_key key (field k x xs) = (key == k) || has_key key xs

-- whether no object of a document has a key twice
unfoldable mutual
  pub distinct : Document → Bool
  distinct leaf = true
  distinct (string s) = true
  distinct (array xs) = distinct_items xs
  distinct (object xs) = distinct_fields xs

  distinct_items : Items → Bool
  distinct_items no_item = true
  distinct_items (item x xs) = distinct x && distinct_items xs

  distinct_fields : Fields → Bool
  distinct_fields no_field = true
  distinct_fields (field key x xs) = not (has_key key xs) && distinct x && distinct_fields xs

unfoldable mutual
  size : Document → ℕ
  size leaf = 1
  size (string s) = 1
  size (array xs) = suc (suc (size_items xs))
  size (object xs) = suc (suc (size_fields xs))

  size_items : Items → ℕ
  size_items no_item = 0
  size_items (item x xs) = size x + size_items xs

  size_fields : Fields → ℕ
  size_fields no_field = 0
  size_fields (field key x xs) = suc (size x + size_fields xs)

size_positive : (x : Document) → 1 ≤ size x
unfolding size
size_positive leaf = omega arith
size_positive (string s) = omega arith
size_positive (array xs) = omega arith
size_positive (object xs) = omega arith

mutual
  unfolding reads reads_items reads_fields size size_items size_fields

  read_count-reads :
      (x : Document) (rest : List Read) → read_count (reads x rest) ≡ size x + read_count rest
  read_count-reads leaf rest = omega arith
  read_count-reads (string s) rest = omega arith
  read_count-reads (array xs) rest =
      omega (arith, read_count-reads_items xs (token close_array ∷ rest))
  read_count-reads (object xs) rest =
      omega (arith, read_count-reads_fields xs (token close_object ∷ rest))

  read_count-reads_items :
      (xs : Items) (rest : List Read)
      → read_count (reads_items xs rest) ≡ size_items xs + read_count rest
  read_count-reads_items no_item rest = omega arith
  read_count-reads_items (item x xs) rest =
      omega (arith, read_count-reads x (reads_items xs rest), read_count-reads_items xs rest)

  read_count-reads_fields :
      (xs : Fields) (rest : List Read)
      → read_count (reads_fields xs rest) ≡ size_fields xs + read_count rest
  read_count-reads_fields no_field rest = omega arith
  read_count-reads_fields (field key x xs) rest =
      omega (arith, read_count-reads x (reads_fields xs rest), read_count-reads_fields xs rest)

-- A scan goes on with the rest, or is refused.
abbrev Judged : Bool → List Read → Scan → Type 0
Judged true rest s = s ≡ left rest
Judged false rest s = (e : Error) × (s ≡ refused e)

and_scan-Judged :
    (a b : Bool) (mid rest : List Read) (s : Scan) (f : List Read → Scan)
    → Judged a mid s
    → Judged b rest (f mid)
    → Judged (a && b) rest (and_scan s f)
and_scan-Judged true b mid rest s f h k = rw h k
and_scan-Judged false b mid rest s f (e, h) k = (e, ap (λ x. and_scan x f) h)

-- whether no key is among those that were seen
abbrev fresh : List String → Fields → Bool
fresh seen no_field = true
fresh seen (field key x xs) = not (is_seen key seen) && fresh seen xs

new_key : (a s f h : Bool) → (not (a || s) && (f && not h)) ≡ ((not s && f) && not (a || h))
new_key true true true h = refl
new_key true true false h = refl
new_key true false true h = refl
new_key true false false h = refl
new_key false true f h = refl
new_key false false f h = refl

moved : (d f k g : Bool) → (d && ((f && not k) && g)) ≡ (f && (not k && d && g))
moved true true true g = refl
moved true true false g = refl
moved true false k g = refl
moved false true true g = refl
moved false true false g = refl
moved false false k g = refl

fresh_none : (xs : Fields) → fresh [] xs ≡ true
unfolding is_seen
fresh_none no_field = refl
fresh_none (field key x xs) = fresh_none xs

fresh_lem :
    (key : String) (seen : List String) (xs : Fields)
    → fresh (key ∷ seen) xs ≡ (fresh seen xs && not (has_key key xs))
unfolding is_seen
fresh_lem key seen no_field = refl
fresh_lem key seen (field k x xs) =
    rw (fresh_lem key seen xs)
      (new_key (key == k) (is_seen k seen) (fresh seen xs) (has_key key xs))

Judged-subst :
    (a b : Bool) (rest : List Read) (s : Scan) → a ≡ b → Judged a rest s → Judged b rest s
Judged-subst a b rest s e h = subst (λ c. Judged c rest s) e h

field_lem :
    (key : String) (seen : List String) (x : Document) (xs : Fields)
    → (distinct x && (fresh (key ∷ seen) xs && distinct_fields xs))
      ≡ (fresh seen xs && distinct_fields (field key x xs))
unfolding distinct_fields
field_lem key seen x xs =
    rw (fresh_lem key seen xs)
      (moved (distinct x) (fresh seen xs) (has_key key xs) (distinct_fields xs))

reads-more : (x : Document) (rest : List Read) → more (reads x rest) ≡ true
unfolding reads
reads-more leaf rest = refl
reads-more (string s) rest = refl
reads-more (array xs) rest = refl
reads-more (object xs) rest = refl

mutual
  unfolding reads reads_items reads_fields distinct distinct_items distinct_fields size size_items
      size_fields scan

  scan-reads :
      (fuel : ℕ) (x : Document) (rest : List Read)
      → size x + size x ≤ suc fuel
      → Judged (distinct x) rest (scan fuel value (reads x rest))
  scan-reads zero x rest h = absurd omega (arith, size_positive x)
  scan-reads (suc fuel) leaf rest h = refl
  scan-reads (suc fuel) (string s) rest h = refl
  scan-reads (suc fuel) (array xs) rest h = scan-reads_items fuel xs rest (omega arith)
  scan-reads (suc fuel) (object xs) rest h =
      Judged-subst _ (distinct_fields xs) rest _ (ap (λ b. b && distinct_fields xs) (fresh_none xs))
        (scan-reads_fields fuel [] xs rest (omega arith))

  scan-reads_items :
      (fuel : ℕ) (xs : Items) (rest : List Read)
      → suc (size_items xs + size_items xs) ≤ fuel
      → Judged
          (distinct_items xs)
          rest
          (scan fuel elements (reads_items xs (token close_array ∷ rest)))
  scan-reads_items zero xs rest h = absurd omega arith
  scan-reads_items (suc fuel) no_item rest h = refl
  scan-reads_items (suc fuel) (item x xs) rest h =
      rw (reads-more x (reads_items xs (token close_array ∷ rest)), scan, Judged)
        (and_scan-Judged (distinct x) (distinct_items xs) _ rest _ _
          (scan-reads fuel x (reads_items xs (token close_array ∷ rest))
            (omega (arith, size_positive x)))
          (scan-reads_items fuel xs rest (omega (arith, size_positive x))))

  scan-reads_fields :
      (fuel : ℕ) (seen : List String) (xs : Fields) (rest : List Read)
      → suc (size_fields xs + size_fields xs) ≤ fuel
      → Judged
          (fresh seen xs && distinct_fields xs)
          rest
          (scan fuel (members seen) (reads_fields xs (token close_object ∷ rest)))
  scan-reads_fields zero seen xs rest h = absurd omega arith
  scan-reads_fields (suc fuel) seen no_field rest h = refl
  scan-reads_fields (suc fuel) seen (field key x xs) rest h = elim (Bool-cases (is_seen key seen)) [
    | inl e ↦ rw (e, Judged) (errorf "duplicate json key %q" (key ∷ []), refl)
    | inr e ↦
        rw (e, Judged)
          (Judged-subst _ _ rest _ (field_lem key seen x xs) (
            and_scan-Judged (distinct x) _ _ rest _ _
              (scan-reads fuel x (reads_fields xs (token close_object ∷ rest))
                (omega (arith, size_positive x)))
              (scan-reads_fields fuel (key ∷ seen) xs rest (omega (arith, size_positive x)))))
  ]

-- what an end of the document makes of a scan
Judged-at_end : (b : Bool) (s : Scan) → Judged b [] s → (at_end s ≡ none) ↔ (b ≡ true)
Judged-at_end true s h = (λ _. refl, λ _. ap at_end h)
Judged-at_end false s (e, h) =
    (λ k. absurd (let bad : some e ≡ none = sym (ap at_end h) ∙ k in cc), λ k. absurd cc)

enough :
    (x : Document) → size x + size x ≤ suc (suc (read_count (reads x []) + read_count (reads x [])))
enough x = omega (arith, read_count-reads x [])

-- On the tokens of a document, the check for repeated keys finds no fault exactly where no object in
-- the document, however deep, has a key twice.
pub reject_duplicate_json_keys-reads :
    (x : Document) → (reject_duplicate_json_keys (reads x []) ≡ none) ↔ (distinct x ≡ true)
unfolding reject_duplicate_json_keys
reject_duplicate_json_keys-reads x =
    Judged-at_end (distinct x) _
      (scan-reads (suc (read_count (reads x []) + read_count (reads x []))) x [] (enough x))
