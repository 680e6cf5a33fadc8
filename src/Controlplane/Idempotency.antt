-- ===== src/Controlplane/Idempotency.antt =====
-- The store of responses by idempotency key (`idempotencyStore` in
-- backend/internal/controlplane/idempotency.go), beside a world `W` on which the requests act. Its
-- two critical sections are `look_up` and `store_response`; a map is a function.
use home_assistant.Base.{
  ℕ, ◌+◌, String, not, Option, none, some, List, [], ◌∷◌, ◌++◌, ◌==◌, if◌then◌else◌, codes,
}
use home_assistant.Base.Time.{Time, Duration, after}
use Prim.Native.String.{◌++◌ as append}

pub record Response : Type 0 where
  pub status_code : ℕ
  pub headers : String → Option String
  pub body : List ℕ

pub record IdempotencyEntry : Type 0 where
  pub request_hash : String
  pub expires_at : Time
  pub response : Response

abbrev pub Entries : Type 0
Entries = String → Option IdempotencyEntry

pub record IdempotencyStore : Type 0 where
  pub ttl : Duration
  pub entries : Entries

-- A request with what it reads: the time at its start, the response to a reused key, and its own work.
pub record Request (W : Type 0) : Type 0 where
  pub scope : String
  pub key : String
  pub request_hash : String
  pub time : Time
  pub conflict : Response
  pub produce : W → Response × W

pub record State (W : Type 0) : Type 0 where
  pub store : IdempotencyStore
  pub world : W

abbrev pub cache_key : {W : Type 0} → Request W → String
cache_key c = append c.scope (append "|" c.key)

abbrev pub put : {A : Type 0} → String → Option A → (String → Option A) → String → Option A
put key value m k = if key == k then value else m k

abbrev pub replayed : Response → Response
replayed r = record r { headers = put "X-HomeSignal-Idempotency-Replayed" (some "true") r.headers }

pub data Lookup : Type 0 where
  missing : Lookup
  found : Response → Lookup

module _ {W : Type 0} where
  -- an entry that is not expired answers the request
  abbrev pub answered : Request W → IdempotencyEntry → Response
  answered c e = if not (e.request_hash == c.request_hash) then c.conflict else replayed e.response

  unfoldable pub look_up : Request W → Option IdempotencyEntry → Entries → Lookup × Entries
  look_up c none entries = (missing, entries)
  look_up c (some e) entries =
      if after c.time e.expires_at
      then (missing, put (cache_key c) none entries)
      else (found (answered c e), entries)

  abbrev pub new_entry : Request W → Duration → Response → IdempotencyEntry
  new_entry c ttl r = record {
    request_hash = c.request_hash;
    expires_at = c.time + ttl;
    response = r;
  }

  unfoldable pub store_response : Request W → IdempotencyStore → Response → IdempotencyStore
  store_response c s r = record s {
    entries = put (cache_key c) (some (new_entry c s.ttl r)) s.entries;
  }

  abbrev pub produced : Request W → IdempotencyStore → Response × W → Response × State W
  produced c s (r, w) = (r, record { store = store_response c s r; world = w })

  unfoldable pub respond : Request W → State W → Lookup × Entries → Response × State W
  respond c s (missing, entries) =
      produced c (record s.store { entries = entries }) (c.produce s.world)
  respond c s (found r, entries) = (r, record s { store = record s.store { entries = entries } })

  unfoldable pub get_or_store : Request W → State W → Response × State W
  get_or_store c s = respond c s (look_up c (s.store.entries (cache_key c)) s.store.entries)

  unfoldable pub serve : List (Request W) → State W → State W
  serve [] s = s
  serve (c ∷ rest) s = serve rest (get_or_store c s).1

-- What is hashed of a request, for the digest of SHA-256 in hexadecimal.
unfoldable pub request_hash : (List ℕ → String) → String → String → List ℕ → String
request_hash sha256 method path body = sha256 (codes method ++ 10 ∷ codes path ++ 10 ∷ body)
