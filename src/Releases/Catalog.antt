-- ===== src/Releases/Catalog.antt =====
-- What a refreshed catalog of Home Assistant versions is.
use home_assistant.Base.{
  ℕ, ◌+◌, ◌<◌, Bool-cases, arith, subst, Bool, true, false, not, eq_iff, Option, none, some, List,
  ◌≡◌, ◌⊎◌, inl, inr, refl, Error, errorw, Outcome, ok, err, Exec, if◌then◌else◌, trim_space,
}
use home_assistant.Base.Json
use home_assistant.Base.Json.Encode.{encode_map, encode_entries, encode_string}
use home_assistant.Base.Split.{append}
use home_assistant.Base.Ensures.{settle_any}
use home_assistant.Base.Time.{Time, Duration, is_zero}
use home_assistant.Releases.Versions.{parse_dotted_version}
use home_assistant.Releases.Clocks.{IsClock, now_lem}
use home_assistant.Releases.HaVersions.{
  active, unavailable, CoreVersionCatalog, Repository, Service, Answer, validate_catalog,
  normalize_json, or_error, status_error, parse_error, fetched_catalog, unavailable_catalog,
  empty_catalog, now, ttl_of, save_unless, save_fetched, refresh_from, refresh_latest_stable,
}

-- A catalog that can be used for comparisons.
pub record IsCatalog (c : CoreVersionCatalog) : Type 0 where
  pub key : c.catalog_key ≡ "stable"
  pub active : c.status ≡ active
  pub values : List ℕ
  pub parsed : parse_dotted_version c.latest_version ≡ ok values
  pub metadata : Json.valid c.metadata ≡ true

valid_lem :
    (k n m : Bool) (p : Outcome (List ℕ)) (x y z : Error)
    → (if not k
        then some x
        else or_error (if n then some y else parse_error p) (if m then none else some z))
      ≡ none
    → (k ≡ true) × (m ≡ true) × ((values : List ℕ) × (p ≡ ok values))
unfolding parse_error
valid_lem false n m p x y z h = absurd cc
valid_lem true true m p x y z h = absurd cc
valid_lem true false m (err e) x y z h = absurd cc
valid_lem true false false (ok v) x y z h = absurd cc
valid_lem true false true (ok v) x y z h = (refl, refl, (v, refl))

fetched_catalog-IsCatalog :
    (c : CoreVersionCatalog) (t : Time) (ttl : Duration)
    → validate_catalog (fetched_catalog c t ttl) ≡ none
    → IsCatalog (fetched_catalog c t ttl)
unfolding validate_catalog status_error fetched_catalog
fetched_catalog-IsCatalog c t ttl h =
    let (k, m, p) =
      valid_lem _ _ (Json.valid (normalize_json c.metadata))
        (parse_dotted_version (trim_space c.latest_version)) _ _ _ h in
    record { key = (eq_iff _ _).0 k; active = refl; values = p.0; parsed = p.1; metadata = m }

-- The catalog that is stored where the provider fails.
pub record IsUnavailable (t : Time) (ttl : Duration) (c : CoreVersionCatalog) : Type 0 where
  pub key : c.catalog_key ≡ "stable"
  pub status : c.status ≡ unavailable
  pub latest_version : c.latest_version ≡ ""
  pub metadata : Json.valid c.metadata ≡ true
  pub fetched_at : c.fetched_at ≡ t
  pub expires_at : c.expires_at ≡ t + ttl

-- The catalog that is stored for what the provider gave: it keeps the times that this has, and is else
-- fetched at the time and expires with the time to live after it was fetched.
pub record IsKept (t : Time) (ttl : Duration) (found c : CoreVersionCatalog) : Type 0 where
  pub is_catalog : IsCatalog c
  pub latest_version : c.latest_version ≡ trim_space found.latest_version
  pub source_url : c.source_url ≡ trim_space found.source_url
  pub fetched_at :
      ((found.fetched_at ≡ 0) × (c.fetched_at ≡ t))
      ⊎ ((0 < found.fetched_at) × (c.fetched_at ≡ found.fetched_at))
  pub expires_at :
      ((found.expires_at ≡ 0) × (c.expires_at ≡ c.fetched_at + ttl))
      ⊎ ((0 < found.expires_at) × (c.expires_at ≡ found.expires_at))

-- What RefreshLatestStable answers, where the clock gave the time `t` and the provider was asked at the
-- world `u`.
pub data IsRefreshed {W : Type 0} (s : Service W) (t : Time) (u : W) (answer : Answer)
    : Type 0 where
  fetched :
      (r : Repository W) (p : Exec W CoreVersionCatalog) (found : CoreVersionCatalog)
      → s.repository ≡ some r
      → s.provider ≡ some p
      → (p u).0 ≡ ok found
      → IsKept t (ttl_of s) found answer.0
      → (r.save_core_catalog answer.0 (p u).1).0 ≡ ok tt
      → answer.1 ≡ none
      → IsRefreshed s t u answer
  missed :
      (r : Repository W) (p : Exec W CoreVersionCatalog) (e : Error)
      → s.repository ≡ some r
      → s.provider ≡ some p
      → (p u).0 ≡ err e
      → IsUnavailable t (ttl_of s) answer.0
      → (r.save_core_catalog answer.0 (p u).1).0 ≡ ok tt
      → answer.1 ≡ some (errorw "fetch latest Home Assistant version" e)
      → IsRefreshed s t u answer
  invalid :
      (p : Exec W CoreVersionCatalog) (found : CoreVersionCatalog) (e : Error)
      → s.provider ≡ some p
      → (p u).0 ≡ ok found
      → validate_catalog (fetched_catalog found t (ttl_of s)) ≡ some e
      → answer ≡ (empty_catalog, some e)
      → IsRefreshed s t u answer
  unsaved :
      (r : Repository W) (p : Exec W CoreVersionCatalog) (c : CoreVersionCatalog) (d e : Error)
      → s.repository ≡ some r
      → s.provider ≡ some p
      → (r.save_core_catalog c (p u).1).0 ≡ err d
      → answer ≡ (empty_catalog, some e)
      → IsRefreshed s t u answer
  unequipped :
      (e : Error)
      → (s.repository ≡ none) ⊎ (s.provider ≡ none)
      → answer ≡ (empty_catalog, some e)
      → IsRefreshed s t u answer

default_lem :
    (given other : Time)
    → ((given ≡ 0) × ((if is_zero given then other else given) ≡ other))
      ⊎ ((0 < given) × ((if is_zero given then other else given) ≡ given))
default_lem given other = elim (Bool-cases (is_zero given)) [
  | inl e ↦ inl (ground arith, rw e refl)
  | inr e ↦ inr (ground arith, rw e refl)
]

fetched_catalog-IsKept :
    (c : CoreVersionCatalog) (t : Time) (ttl : Duration)
    → validate_catalog (fetched_catalog c t ttl) ≡ none
    → IsKept t ttl c (fetched_catalog c t ttl)
unfolding fetched_catalog
fetched_catalog-IsKept c t ttl h = record {
  is_catalog = fetched_catalog-IsCatalog c t ttl h;
  latest_version = refl;
  source_url = refl;
  fetched_at = default_lem c.fetched_at t;
  expires_at = default_lem c.expires_at _;
}

unavailable_lem : (t : Time) (ttl : Duration) → IsUnavailable t ttl (unavailable_catalog t ttl)
unfolding Json.valid encode_map encode_entries encode_string append
unavailable_lem t ttl = record {
  key = refl;
  status = refl;
  latest_version = refl;
  metadata = refl;
  fetched_at = refl;
  expires_at = refl;
}

module _ {W : Type 0} (s : Service W) (w : W) (r : Repository W) (p : Exec W CoreVersionCatalog)
    (is_repository : s.repository ≡ some r) (is_provider : s.provider ≡ some p) where
  abbrev stored : CoreVersionCatalog → CoreVersionCatalog
  stored c = fetched_catalog c (now s w).0 (ttl_of s)

  save_unless_lem :
      (c : CoreVersionCatalog) (o : Option Error)
      → (p (now s w).1).0 ≡ ok c
      → validate_catalog (stored c) ≡ o
      → IsRefreshed s (now s w).0 (now s w).1 (save_unless o r (stored c) (p (now s w).1).1).0
  save_unless_lem c (some e) h refused = invalid p c e is_provider h refused refl
  save_unless_lem c none h valid =
      settle_any (λ (o : Answer × W). IsRefreshed s (now s w).0 (now s w).1 o.0)
        (r.save_core_catalog (stored c) (p (now s w).1).1) _ _
        (λ d u failed. unsaved r p _ d _ is_repository is_provider failed refl)
        (λ _ u saved.
          fetched r p c is_repository is_provider h
            (fetched_catalog-IsKept c (now s w).0 (ttl_of s) valid) saved refl)

  save_fetched_lem :
      (o : Outcome CoreVersionCatalog)
      → (p (now s w).1).0 ≡ o
      → IsRefreshed s (now s w).0 (now s w).1 (save_fetched s r (now s w).0 o (p (now s w).1).1).0
  unfolding save_fetched
  save_fetched_lem (ok c) h = save_unless_lem c (validate_catalog (stored c)) h refl
  save_fetched_lem (err e) h =
      settle_any (λ (o : Answer × W). IsRefreshed s (now s w).0 (now s w).1 o.0)
        (r.save_core_catalog (unavailable_catalog (now s w).0 (ttl_of s)) (p (now s w).1).1) _ _
        (λ d u failed. unsaved r p _ d _ is_repository is_provider failed refl)
        (λ _ u saved.
          missed r p e is_repository is_provider h (unavailable_lem (now s w).0 (ttl_of s)) saved
            refl)

module _ {W : Type 0} (s : Service W) (w : W) where
  refresh_from_lem :
      (o : Option (Repository W)) (q : Option (Exec W CoreVersionCatalog))
      → s.repository ≡ o
      → s.provider ≡ q
      → IsRefreshed s (now s w).0 (now s w).1 (refresh_from s o q w).0
  unfolding refresh_from
  refresh_from_lem none q e d = unequipped _ (inl e) refl
  refresh_from_lem (some r) none e d = unequipped _ (inr d) refl
  refresh_from_lem (some r) (some p) e d = save_fetched_lem s w r p e d (p (now s w).1).0 refl

  -- What RefreshLatestStable answers. What the provider gave, asked once the clock was read, comes
  -- without an error if it passes the validation and is saved: its key is "stable", it is active,
  -- its trimmed version parses, its metadata are valid JSON, and its times are those that it had,
  -- or, where it had none, the time that the clock gave and the time to live after it was fetched.
  -- Where the provider fails, its error comes with a catalog that was saved and says that no version
  -- is available, fetched at that time. Any other error comes with the empty catalog: the repository
  -- or the provider is missing, the validation fails or the repository does not save.
  pub refresh_latest_stable-IsRefreshed :
      (clock : W → Time × W)
      → IsClock s clock
      → IsRefreshed s (clock w).0 (clock w).1 (refresh_latest_stable s w).0
  unfolding refresh_latest_stable
  refresh_latest_stable-IsRefreshed clock is_clock =
      subst (λ (c : W → Time × W). IsRefreshed s (c w).0 (c w).1 (refresh_latest_stable s w).0)
        (now_lem s clock is_clock) (refresh_from_lem s.repository s.provider refl refl)
