-- ===== src/Controlplane/Limits.antt =====
-- How many calls the rate limiter allows.
use home_assistant.Base.{
  ℕ, ◌+◌, ◌-◌, ◌<◌, ◌≡◌, refl, sym, ◌∙◌, ap, String, Bool, true, false, List, [], ◌∷◌, ◌==◌, eq_iff,
  eq_refl, leb, if◌then◌else◌, arith, Bool-cases, inl, inr, subst,
}
use home_assistant.Base.Time.{Time}
use home_assistant.Controlplane.RateLimiter.{
  RateBucket, RateLimiter, Call, is_over, counted, verdict, allow,
}

abbrev pub one_if : Bool → ℕ
one_if true = 1
one_if false = 0

abbrev pub smaller : ℕ → ℕ → ℕ
smaller m n = if leb m n then m else n

-- How many of the calls are of the scope.
abbrev pub calls_of : String → List Call → ℕ
calls_of scope [] = 0
calls_of scope (c ∷ rest) = one_if (c.scope == scope) + calls_of scope rest

-- How many calls of the scope the limiter allows, of calls that come in this order.
unfoldable pub allowed_of : String → RateLimiter → List Call → ℕ
unfolding allow
allowed_of scope l [] = 0
allowed_of scope l (c ∷ rest) =
    (if c.scope == scope then one_if (allow l c).0.0 else 0) + allowed_of scope (allow l c).1 rest

abbrev pub Before : Time → List Call → Type 0
Before t [] = Unit
Before t (c ∷ rest) = (c.time < t) × Before t rest

counted_open :
    (l : RateLimiter) (c : Call) (b : RateBucket)
    → 0 < b.reset_at
    → c.time < b.reset_at
    → (counted l c b).reset_at ≡ b.reset_at × (counted l c b).count ≡ b.count + 1
unfolding counted
counted_open l c b pos lt = elim (Bool-cases (is_over b c.time)) [
  | inl e ↦ absurd (ground arith)
  | inr e ↦ rw e (refl, refl)
]

module _ (l : RateLimiter) (c : Call) (scope : String) where
  allow_bucket :
      (c.scope == scope) ≡ true → (allow l c).1.buckets scope ≡ counted l c (l.buckets scope)
  unfolding allow
  allow_bucket e = rw e (ap (λ x. counted l c (l.buckets x)) ((eq_iff _ _).0 e))

  allow_other : (c.scope == scope) ≡ false → (allow l c).1.buckets scope ≡ l.buckets scope
  unfolding allow
  allow_other e = rw e refl

  allow_limit : (allow l c).1.limit ≡ l.limit
  unfolding allow
  allow_limit = refl

  allow_first :
      (c.scope == scope) ≡ true
      → one_if (allow l c).0.0 ≡ one_if (leb (counted l c (l.buckets scope)).count l.limit)
  unfolding allow
  allow_first e =
      subst (λ x. one_if (allow l c).0.0 ≡ one_if (leb (counted l c (l.buckets x)).count l.limit))
        ((eq_iff _ _).0 e) (verdict_lem (counted l c (l.buckets c.scope)))
    where
      verdict_lem : (b : RateBucket) → one_if (verdict l c b).0 ≡ one_if (leb b.count l.limit)
      verdict_lem b = elim (Bool-cases (leb b.count l.limit)) [
        | inl e ↦ rw e refl
        | inr e ↦ rw e refl
      ]

sum_lem :
    (first rest n limit count : ℕ)
    → first ≡ one_if (leb (count + 1) limit)
    → rest ≡ smaller n (limit - (count + 1))
    → first + rest ≡ smaller (1 + n) (limit - count)
sum_lem first rest n limit count h k = ground arith

skipped_lem : (a n k : ℕ) → a ≡ smaller n k → 0 + a ≡ smaller (0 + n) k
skipped_lem a n k h = ground arith

-- A call that counts as number `k + 1` in its window, and the calls after it.
step_lem :
    (scope : String) (l : RateLimiter) (c : Call) (rest : List Call) (b : RateBucket) (k : ℕ)
    → l.buckets scope ≡ b
    → (counted l c b).count ≡ k + 1
    → allowed_of scope (allow l c).1 rest
      ≡ smaller (calls_of scope rest) ((allow l c).1.limit - (counted l c b).count)
    → (c.scope == scope) ≡ true
    → allowed_of scope l (c ∷ rest) ≡ smaller (calls_of scope (c ∷ rest)) (l.limit - k)
unfolding allowed_of
step_lem scope l c rest b k h count ih e =
    let n = calls_of scope rest in
    let first : one_if (allow l c).0.0 ≡ one_if (leb (k + 1) l.limit) =
      allow_first l c scope e
      ∙ ap (λ x. one_if (leb (counted l c x).count l.limit)) h
      ∙ ap (λ x. one_if (leb x l.limit)) count in
    let others : allowed_of scope (allow l c).1 rest ≡ smaller n (l.limit - (k + 1)) =
      ih
      ∙ ap (λ x. smaller n (x - (counted l c b).count)) (allow_limit l c scope)
      ∙ ap (λ x. smaller n (l.limit - x)) count in
    rw e (
      sum_lem (one_if (allow l c).0.0) (allowed_of scope (allow l c).1 rest) n l.limit k first
        others)

-- In the open window of a scope, calls of the scope are allowed until its count reaches the limit,
-- whatever calls of other scopes come between.
open_window :
    (scope : String) (calls : List Call) (l : RateLimiter) (b : RateBucket)
    → l.buckets scope ≡ b
    → 0 < b.reset_at
    → Before b.reset_at calls
    → allowed_of scope l calls ≡ smaller (calls_of scope calls) (l.limit - b.count)
unfolding allowed_of
open_window scope [] l b h pos times = ground arith
open_window scope (c ∷ rest) l b h pos (lt, times) = elim (Bool-cases (c.scope == scope)) [
  | inl e ↦
      (let (reset, count) = counted_open l c b pos lt in
        let ih =
          open_window scope rest (allow l c).1 (counted l c b)
            (allow_bucket l c scope e ∙ ap (counted l c) h) (subst (λ r. 0 < r) (sym reset) pos)
            (subst (λ r. Before r rest) (sym reset) times) in
        step_lem scope l c rest b b.count h count ih e)
  | inr e ↦
      (let ih = open_window scope rest (allow l c).1 b (allow_other l c scope e ∙ h) pos times in
        rw e (
          skipped_lem (allowed_of scope (allow l c).1 rest) (calls_of scope rest)
            (l.limit - b.count)
            (ih ∙ ap (λ x. smaller (calls_of scope rest) (x - b.count)) (allow_limit l c scope))))
]

counted_over :
    (l : RateLimiter) (c : Call) (b : RateBucket)
    → is_over b c.time ≡ true
    → (counted l c b).reset_at ≡ c.time + l.window × (counted l c b).count ≡ 1
unfolding counted
counted_over l c b e = rw e (refl, refl)

-- Let a call come when the bucket of its scope is over, and open a window, and further calls of any
-- scopes before the window ends. Then of the calls of the scope, this one included, as many are
-- allowed as there are, or as the limit says if that is fewer.
pub allowed_in_window :
    (l : RateLimiter) (c : Call) (rest : List Call)
    → is_over (l.buckets c.scope) c.time ≡ true
    → 0 < c.time + l.window
    → Before (c.time + l.window) rest
    → allowed_of c.scope l (c ∷ rest) ≡ smaller (1 + calls_of c.scope rest) l.limit
allowed_in_window l c rest over pos times =
    let (reset, count) = counted_over l c (l.buckets c.scope) over in
    let same = eq_refl c.scope in
    let ih =
      open_window c.scope rest (allow l c).1 (counted l c (l.buckets c.scope))
        (allow_bucket l c c.scope same) (subst (λ r. 0 < r) (sym reset) pos)
        (subst (λ r. Before r rest) (sym reset) times) in
    step_lem c.scope l c rest (l.buckets c.scope) 0 refl count ih same
    ∙ (let one : one_if (c.scope == c.scope) ≡ 1 = ap one_if same in
        ap (λ n. smaller (n + calls_of c.scope rest) (l.limit - 0)) one ∙ ground arith)
