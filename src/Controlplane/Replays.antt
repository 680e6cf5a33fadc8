-- ===== src/Controlplane/Replays.antt =====
-- What a request with an idempotency key that was used before gets.
use home_assistant.Base.{
  ◌+◌, ◌≤◌, ◌<◌, ◌≡◌, refl, ◌∙◌, ap, String, Bool, true, false, not, Option, none, some, List, [],
  ◌∷◌, ◌==◌, eq_iff, eq_refl, if◌then◌else◌, arith, Bool-cases, inl, inr,
}
use home_assistant.Base.Time.{Time, after}
use home_assistant.Controlplane.Idempotency.{
  IdempotencyEntry, Request, State, cache_key, put, answered, look_up, new_entry, store_response,
  respond, get_or_store, serve,
}

-- Each request starts by the time.
abbrev pub Until : {W : Type 0} → Time → List (Request W) → Type 0
Until t [] = Unit
Until t (c ∷ rest) = (c.time ≤ t) × Until t rest

module _ {W : Type 0} where
  -- A request whose key has an entry that is not expired is answered from it, and changes nothing.
  answered_lem :
      (c : Request W) (s : State W) (e : IdempotencyEntry)
      → s.store.entries (cache_key c) ≡ some e
      → c.time ≤ e.expires_at
      → get_or_store c s ≡ (answered c e, s)
  unfolding get_or_store respond look_up
  answered_lem c s e h t =
      let early : after c.time e.expires_at ≡ false = ground arith in rw (h, early) refl

  other_key :
      (c : Request W) (s : State W) (key : String) (o : Option IdempotencyEntry)
      → (cache_key c == key) ≡ false
      → (respond c s (look_up c o s.store.entries)).1.store.entries key ≡ s.store.entries key
  unfolding respond look_up store_response
  other_key c s key none h = rw h refl
  other_key c s key (some e) h = elim (Bool-cases (after c.time e.expires_at)) [
    | inl late ↦ rw (late, h) refl
    | inr early ↦ rw early refl
  ]

  get_or_store_kept :
      (c : Request W) (s : State W) (key : String) (e : IdempotencyEntry)
      → s.store.entries key ≡ some e
      → c.time ≤ e.expires_at
      → (get_or_store c s).1.store.entries key ≡ some e
  unfolding get_or_store
  get_or_store_kept c s key e h t = elim (Bool-cases (cache_key c == key)) [
    | inl same ↦
        ap (λ x. x.1.store.entries key)
          (answered_lem c s e (ap s.store.entries ((eq_iff _ _).0 same) ∙ h) t)
        ∙ h
    | inr other ↦ other_key c s key (s.store.entries (cache_key c)) other ∙ h
  ]

  serve_kept :
      (calls : List (Request W)) (s : State W) (key : String) (e : IdempotencyEntry)
      → s.store.entries key ≡ some e
      → Until e.expires_at calls
      → (serve calls s).store.entries key ≡ some e
  unfolding serve
  serve_kept [] s key e h t = h
  serve_kept (c ∷ rest) s key e h (t, times) =
      serve_kept rest (get_or_store c s).1 key e (get_or_store_kept c s key e h t) times

  -- the bucket is free: no entry, or one that is expired
  abbrev pub IsFree : Request W → Option IdempotencyEntry → Type 0
  IsFree c none = Unit
  IsFree c (some e) = e.expires_at < c.time

  produced_lem :
      (c : Request W) (s : State W) (o : Option IdempotencyEntry)
      → IsFree c o
      → ((respond c s (look_up c o s.store.entries)).0 ≡ (c.produce s.world).0)
        × ((respond c s (look_up c o s.store.entries)).1.world ≡ (c.produce s.world).1)
        × ((respond c s (look_up c o s.store.entries)).1.store.entries (cache_key c)
            ≡ some (new_entry c s.store.ttl (c.produce s.world).0))
  unfolding respond look_up store_response
  produced_lem c s none h = rw (eq_refl (cache_key c)) (refl, refl, refl)
  produced_lem c s (some e) h =
      let late : after c.time e.expires_at ≡ true = ground arith in
      rw (late, eq_refl (cache_key c)) (refl, refl, refl)

  -- Let a request come whose key has no entry, or an expired one, then any requests, and then one with
  -- the same scope and key, all within the time to live of the store from the first. The first is
  -- answered by its own work, and this is the state of the world that it leaves. The last does not
  -- change anything; it is answered with the first's response, with the header
  -- X-HomeSignal-Idempotency-Replayed set to "true", if its hash is the same, and as a conflict if not.
  pub get_or_store_once :
      (first last : Request W) (between : List (Request W)) (s : State W)
      → IsFree first (s.store.entries (cache_key first))
      → cache_key last ≡ cache_key first
      → Until (first.time + s.store.ttl) between
      → last.time ≤ first.time + s.store.ttl
      → ((get_or_store first s).0 ≡ (first.produce s.world).0)
        × ((get_or_store first s).1.world ≡ (first.produce s.world).1)
        × (get_or_store last (serve (first ∷ between) s) ≡ (
          if first.request_hash == last.request_hash
              then record (first.produce s.world).0 {
                headers =
                    put "X-HomeSignal-Idempotency-Replayed"
                      (some "true")
                      (first.produce s.world).0.headers;
              }
              else last.conflict,
          serve (first ∷ between) s,
        ))
  unfolding get_or_store serve
  get_or_store_once first last between s free same times t =
      let (response, world, entry) =
        produced_lem first s (s.store.entries (cache_key first)) free in
      let kept = serve_kept between (get_or_store first s).1 (cache_key first) _ entry times in
      (
        response,
        world,
        answered_lem last (serve between (get_or_store first s).1) _
              (ap (serve between (get_or_store first s).1).store.entries same ∙ kept) t
            ∙ ap (λ r. (r, serve between (get_or_store first s).1))
                (not_lem _ _ (first.request_hash == last.request_hash)),
      )
    where
      not_lem : {A : Type 0} (x y : A) (b : Bool) → (if not b then y else x) ≡ (if b then x else y)
      not_lem x y true = refl
      not_lem x y false = refl
