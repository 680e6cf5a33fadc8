-- ===== src/Controlplane/Examples.antt =====
-- Runs of the idempotency store and of the rate limiter, and the theorems at them.
use home_assistant.Base.{
  some, ℕ, ◌+◌, none, List, [], ◌∷◌, ◌≡◌, refl, arith, ◌==◌, if◌then◌else◌, String,
}
use home_assistant.Controlplane.Idempotency.{
  Response, Request, State, put, look_up, store_response, respond, get_or_store, serve,
}
use home_assistant.Controlplane.RateLimiter.{
  RateLimiter, Call, new_rate_limiter, counted, retry_after, allow,
}
use home_assistant.Controlplane.Replays.{get_or_store_once}
use home_assistant.Controlplane.Limits.{allowed_of, calls_of, smaller, allowed_in_window}

-- What a run computes through.
machinery : ℕ
unfolding look_up store_response respond get_or_store serve new_rate_limiter counted retry_after
    allow allowed_of
machinery = 0

abbrev response : ℕ → Response
response status = record { status_code = status; headers = λ name. none; body = [] }

-- Each request that does its work adds one to the world.
abbrev request : String → ℕ → Request ℕ
request hash time = record {
  scope = "POST /v1/alerts|user:u1";
  key = "k1";
  request_hash = hash;
  time = time;
  conflict = response 409;
  produce = λ n. (response 201, n + 1);
}

abbrev first : Request ℕ
first = request "h1" 1_000

abbrev retry : Request ℕ
retry = request "h1" 1_400

abbrev between : List (Request ℕ)
between = request "h2" 1_200 ∷ []

abbrev state : State ℕ
state = record { store = record { ttl = 500; entries = λ key. none }; world = 0 }

once_run : (serve (first ∷ retry ∷ request "h1" 1_501 ∷ []) state).world ≡ 2
unfolding machinery
once_run = refl

get_or_store_once_example :
    ((get_or_store first state).0 ≡ response 201)
    × ((get_or_store first state).1.world ≡ 0 + 1)
    × (get_or_store retry (serve (first ∷ between) state) ≡ (
      if first.request_hash == retry.request_hash
          then record (response 201) {
            headers = put "X-HomeSignal-Idempotency-Replayed" (some "true") (response 201).headers;
          }
          else response 409,
      serve (first ∷ between) state,
    ))
get_or_store_once_example =
    get_or_store_once first retry between state tt refl (ground arith, tt) (ground arith)

abbrev limiter : RateLimiter
limiter = record { limit = 2; window = 60; buckets = λ scope. record { reset_at = 0; count = 0 } }

abbrev call : String → ℕ → Call
call scope time = record { scope = scope; time = time; later = time }

abbrev calls : List Call
calls = call "a" 110 ∷ call "b" 120 ∷ call "a" 130 ∷ call "a" 159 ∷ []

limited_run : allowed_of "a" limiter (call "a" 100 ∷ calls) ≡ 2
unfolding machinery
limited_run = refl

allowed_in_window_example :
    allowed_of "a" limiter (call "a" 100 ∷ calls) ≡ smaller (1 + calls_of "a" calls) 2
allowed_in_window_example =
    allowed_in_window limiter (call "a" 100) calls refl (ground arith)
      (ground arith, (ground arith, (ground arith, (ground arith, tt))))
