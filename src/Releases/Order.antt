-- ===== src/Releases/Order.antt =====
-- What the comparison of versions says: which part is the first to differ.
use Prim.Native.Nat.{Ordering}
use home_assistant.Base.{
  ℕ, zero, suc, ◌<◌, ◌≤◌, ◌≡◌, refl, sym, ◌∙◌, List, [], ◌∷◌, ltb, if◌then◌else◌, arith, inl, inr,
  Bool-cases, subst,
}
use home_assistant.Releases.Versions.{part, others, length, max, compare_parts, compare_values}

-- The first of `a` and `b` to differ is less in `a`.
abbrev pub Below : (ℕ → ℕ) → (ℕ → ℕ) → Type 0
Below a b = (k : ℕ) × ((i : ℕ) → i < k → a i ≡ b i) × (a k < b k)

abbrev pub Decides : Ordering → (ℕ → ℕ) → (ℕ → ℕ) → Type 0
Decides Ordering.lt a b = Below a b
Decides Ordering.eq a b = (k : ℕ) → a k ≡ b k
Decides Ordering.gt a b = Below b a

part-others : (l : List ℕ) (k : ℕ) → part (others l) k ≡ part l (suc k)
part-others [] k = refl
part-others (n ∷ l) k = refl

length-others : (l : List ℕ) (n : ℕ) → length l ≤ suc n → length (others l) ≤ n
length-others [] n h = ground arith
length-others (x ∷ l) n h = ground arith

before_lem :
    (a b : ℕ → ℕ) (k : ℕ)
    → a 0 ≡ b 0
    → ((i : ℕ) → i < k → a (suc i) ≡ b (suc i))
    → (i : ℕ) → i < suc k
    → a i ≡ b i
before_lem a b k h below zero lt = h
before_lem a b k h below (suc i) lt = below i (ground arith)

all_lem : (a b : ℕ → ℕ) → a 0 ≡ b 0 → ((k : ℕ) → a (suc k) ≡ b (suc k)) → (k : ℕ) → a k ≡ b k
all_lem a b h rest zero = h
all_lem a b h rest (suc k) = rest k

Decides-suc :
    (a b : ℕ → ℕ) (o : Ordering)
    → a 0 ≡ b 0
    → Decides o (λ k. a (suc k)) (λ k. b (suc k))
    → Decides o a b
Decides-suc a b Ordering.lt h (k, below, less) = (suc k, before_lem a b k h below, less)
Decides-suc a b Ordering.eq h rest = all_lem a b h rest
Decides-suc a b Ordering.gt h (k, below, less) = (suc k, before_lem b a k (sym h) below, less)

-- The parts of a list and its rest, as functions.
shifted :
    (l r : List ℕ) (o : Ordering)
    → Decides o (part (others l)) (part (others r))
    → Decides o (λ k. part l (suc k)) (λ k. part r (suc k))
shifted [] [] o h = h
shifted [] (y ∷ r) o h = h
shifted (x ∷ l) [] o h = h
shifted (x ∷ l) (y ∷ r) o h = h

head_lem :
    (a b : ℕ → ℕ) (rest : Ordering)
    → (a 0 ≡ b 0 → Decides rest a b)
    → Decides
        (if ltb (a 0) (b 0) then Ordering.lt else if ltb (b 0) (a 0) then Ordering.gt else rest)
        a
        b
head_lem a b rest h = elim (Bool-cases (ltb (a 0) (b 0))) [
  | inl e ↦ rw e (0, (λ i lt. absurd (ground arith)), ground arith)
  | inr e ↦ elim (Bool-cases (ltb (b 0) (a 0))) [
    | inl d ↦ rw (e, d) (0, (λ i lt. absurd (ground arith)), ground arith)
    | inr d ↦ rw (e, d) (h (ground arith))
  ]
]

compare_parts-Decides :
    (n : ℕ) (left right : List ℕ)
    → length left ≤ n
    → length right ≤ n
    → Decides (compare_parts n left right) (part left) (part right)
unfolding compare_parts
compare_parts-Decides zero [] [] h k = λ i. refl
compare_parts-Decides zero [] (y ∷ r) h k = absurd (ground arith)
compare_parts-Decides zero (x ∷ l) r h k = absurd (ground arith)
compare_parts-Decides (suc n) left right h k =
    head_lem (part left) (part right) (compare_parts n (others left) (others right)) (λ e.
      Decides-suc (part left) (part right) (compare_parts n (others left) (others right)) e (
        shifted left right _ (
          compare_parts-Decides n (others left) (others right) (length-others left n h)
            (length-others right n k))))

-- The comparison of two parsed versions says which is less at the first part where they differ, with
-- 0 for a part that one of them lacks, or that there is no such part.
pub compare_values-Decides :
    (left right : List ℕ) → Decides (compare_values left right) (part left) (part right)
unfolding compare_values
compare_values-Decides left right =
    compare_parts-Decides (max (length left) (length right)) left right (ground arith)
      (ground arith)

Below-Below : (a b : ℕ → ℕ) → Below a b → Below b a → ⊥
Below-Below a b (k, h, less) (j, g, more) = elim (Bool-cases (ltb k j)) [
  | inl e ↦ (let same : b k ≡ a k = g k (ground arith) in ground arith)
  | inr e ↦ elim (Bool-cases (ltb j k)) [
    | inl d ↦ (let same : a j ≡ b j = h j (ground arith) in ground arith)
    | inr d ↦
        (let same : k ≡ j = ground arith in
          let more' : b k < a k = subst (λ i. b i < a i) (sym same) more in ground arith)
  ]
]

-- Only one of the three answers decides.
pub Decides-unique : (a b : ℕ → ℕ) (o p : Ordering) → Decides o a b → Decides p a b → o ≡ p
Decides-unique a b Ordering.lt Ordering.lt h k = refl
Decides-unique a b Ordering.lt Ordering.eq h k =
    let e : a h.0 ≡ b h.0 = k h.0 in absurd (ground (arith, h.2))
Decides-unique a b Ordering.lt Ordering.gt h k = absurd (Below-Below a b h k)
Decides-unique a b Ordering.eq Ordering.lt h k =
    let e : a k.0 ≡ b k.0 = h k.0 in absurd (ground (arith, k.2))
Decides-unique a b Ordering.eq Ordering.eq h k = refl
Decides-unique a b Ordering.eq Ordering.gt h k =
    let e : a k.0 ≡ b k.0 = h k.0 in absurd (ground (arith, k.2))
Decides-unique a b Ordering.gt Ordering.lt h k = absurd (Below-Below a b k h)
Decides-unique a b Ordering.gt Ordering.eq h k =
    let e : a h.0 ≡ b h.0 = k h.0 in absurd (ground (arith, h.2))
Decides-unique a b Ordering.gt Ordering.gt h k = refl

abbrev pub opposite : Ordering → Ordering
opposite Ordering.lt = Ordering.gt
opposite Ordering.eq = Ordering.eq
opposite Ordering.gt = Ordering.lt

opposite-Decides : (a b : ℕ → ℕ) (o : Ordering) → Decides o a b → Decides (opposite o) b a
opposite-Decides a b Ordering.lt h = h
opposite-Decides a b Ordering.eq h = λ k. sym (h k)
opposite-Decides a b Ordering.gt h = h

-- The comparison of two parsed versions is less, equal or greater exactly if it is greater, equal or
-- less with the versions swapped.
pub compare_values_swap :
    (left right : List ℕ) → compare_values right left ≡ opposite (compare_values left right)
compare_values_swap left right =
    Decides-unique (part right) (part left) _ _ (compare_values-Decides right left)
      (opposite-Decides (part left) (part right) _ (compare_values-Decides left right))

Below-trans : (a b c : ℕ → ℕ) → Below a b → Below b c → Below a c
Below-trans a b c (k, h, less) (j, g, more) = elim (Bool-cases (ltb k j)) [
  | inl e ↦ (k, (λ i lt. h i lt ∙ g i (ground arith)), ground (arith, g k (ground arith)))
  | inr e ↦ elim (Bool-cases (ltb j k)) [
    | inl d ↦ (j, (λ i lt. h i (ground arith) ∙ g i lt), ground (arith, h j (ground arith)))
    | inr d ↦
        (let same : j ≡ k = ground arith in
          let more' : b k < c k = subst (λ i. b i < c i) same more in
          (k, (λ i lt. h i lt ∙ g i (ground arith)), ground arith))
  ]
]

-- If one parsed version compares as less than a second, and this as less than a third, so does the
-- first to the third.
pub compare_values_trans :
    (x y z : List ℕ)
    → compare_values x y ≡ Ordering.lt
    → compare_values y z ≡ Ordering.lt
    → compare_values x z ≡ Ordering.lt
compare_values_trans x y z h k =
    Decides-unique (part x) (part z) _ Ordering.lt (compare_values-Decides x z) (
      Below-trans (part x) (part y) (part z)
        (subst (λ o. Decides o (part x) (part y)) h (compare_values-Decides x y))
        (subst (λ o. Decides o (part y) (part z)) k (compare_values-Decides y z)))
