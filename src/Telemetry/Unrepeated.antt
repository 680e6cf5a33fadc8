-- ===== src/Telemetry/Unrepeated.antt =====
-- Any sequence of requests to the pipeline: what was seen stays seen and is not written again, and
-- what is written has passed the checks.
use home_assistant.Base.{
  and_true, String, true, false, List, [], ◌∷◌, ◌≡◌, refl, sym, ◌∙◌, ap, subst, inl, inr,
  if◌then◌else◌, Bool-cases, eq_refl, eq_iff, ◌==◌,
}
use home_assistant.Telemetry.Model.{IngestRequest, ValidatedMessage, MessageDedupeKey, same_message}
use home_assistant.Telemetry.Pipeline.{RuntimePipeline, Environment, message_key, is_telemetry}
use home_assistant.Telemetry.Ingest.{Answer, ingest, serve}
use home_assistant.Telemetry.Laws.{
  Snapshot, put_message, put_written, put_latest, PipelineLaws, Reported, IsChecked, hash_of,
  Ingested, rejected, rejected_late, duplicate, unchanged, unwritten, written,
}
use home_assistant.Telemetry.Contract.{ingest-Ingested}

-- the writes of a message
unfoldable pub writes : MessageDedupeKey → List ValidatedMessage → List ValidatedMessage
writes key [] = []
writes key (m ∷ rest) =
    let others = writes key rest in if same_message (message_key m) key then m ∷ others else others

-- A message that was seen stays seen, and is not written again.
pub record IsUnrepeated (key : MessageDedupeKey) (v u : Snapshot) : Type 0 where
  pub seen : u.messages key ≡ true
  pub no_write : writes key u.written ≡ writes key v.written

same_message-equal : (a b : MessageDedupeKey) → same_message a b ≡ true → a ≡ b
same_message-equal a b h =
    let (d, m) = and_true (a.device_id == b.device_id) (a.message_id == b.message_id) h in
    λ i. record {
      device_id = (eq_iff a.device_id b.device_id).0 d i;
      message_id = (eq_iff a.message_id b.message_id).0 m i;
    }

seen_apart :
    (v : Snapshot) (a b : MessageDedupeKey)
    → v.messages a ≡ false
    → v.messages b ≡ true
    → same_message a b ≡ false
seen_apart v a b h k = elim (Bool-cases (same_message a b)) [
  | inl e ↦
      absurd (let clash : false ≡ true = sym h ∙ ap v.messages (same_message-equal a b e) ∙ k in cc)
  | inr e ↦ e
]

-- what the snapshots of an ingestion share with the one before it
module _ (key : MessageDedupeKey) where
  kept : (v u : Snapshot) → u ≡ v → v.messages key ≡ true → IsUnrepeated key v u
  kept v u e h = record {
    seen = ap (λ x. x.messages key) e ∙ h;
    no_write = ap (λ x. writes key x.written) e;
  }

  IsUnrepeated-trans :
      (v u x : Snapshot) → IsUnrepeated key v u → IsUnrepeated key u x → IsUnrepeated key v x
  IsUnrepeated-trans v u x p q = record { seen = q.seen; no_write = q.no_write ∙ p.no_write }

  Reported-IsUnrepeated :
      (v u : Snapshot) → Reported v u → v.messages key ≡ true → IsUnrepeated key v u
  Reported-IsUnrepeated v u (inl e) h = kept v u e h
  Reported-IsUnrepeated v u (inr (x, e)) h =
      subst (IsUnrepeated key v) (sym e) (record { seen = h; no_write = refl })

  put_message-IsUnrepeated :
      (k : MessageDedupeKey) (v : Snapshot)
      → v.messages key ≡ true
      → IsUnrepeated key v (put_message k v)
  put_message-IsUnrepeated k v h = record {
    seen = elim (Bool-cases (same_message k key)) [ inl e ↦ rw e refl | inr e ↦ rw e h ];
    no_write = refl;
  }

  put_written-IsUnrepeated :
      (m : ValidatedMessage) (v : Snapshot)
      → v.messages key ≡ true
      → v.messages (message_key m) ≡ false
      → IsUnrepeated key v (put_written m v)
  unfolding writes
  put_written-IsUnrepeated m v h new = record {
    seen = h;
    no_write = rw (seen_apart v (message_key m) key new h) refl;
  }

  put_latest-IsUnrepeated :
      (m : ValidatedMessage) (hash : String) (v : Snapshot)
      → v.messages key ≡ true
      → v.messages (message_key m) ≡ false
      → IsUnrepeated key v (put_latest m hash v)
  put_latest-IsUnrepeated m hash v h new =
      let p = put_written-IsUnrepeated m v h new in
      elim (Bool-cases (is_telemetry m)) [
        | inl e ↦ rw e (record { seen = p.seen; no_write = p.no_write })
        | inr e ↦ rw e p
      ]

  module _ {W : Type 0} (env : Environment W) (p : RuntimePipeline W) where
    Ingested-IsUnrepeated :
        (request : IngestRequest) (v : Snapshot) (answer : Answer) (u : Snapshot)
        → Ingested env p request v answer u
        → v.messages key ≡ true
        → IsUnrepeated key v u
    Ingested-IsUnrepeated request v answer u (rejected f g r) h = Reported-IsUnrepeated v u r h
    Ingested-IsUnrepeated request v answer u (rejected_late m x c new f g (inl e) r) h =
        let q = subst (IsUnrepeated key v) (sym e) (put_written-IsUnrepeated m v h new) in
        IsUnrepeated-trans v x u q (Reported-IsUnrepeated x u r q.seen)
    Ingested-IsUnrepeated request v answer u (rejected_late m x c new f g (inr e) r) h =
        let q =
          subst (IsUnrepeated key v) (sym e)
            (put_latest-IsUnrepeated m (hash_of env p m) v h new) in
        IsUnrepeated-trans v x u q (Reported-IsUnrepeated x u r q.seen)
    Ingested-IsUnrepeated request v answer u (duplicate m c seen e k) h = kept v u k h
    Ingested-IsUnrepeated request v answer u (unchanged m c t same e k) h =
        subst (IsUnrepeated key v) (sym k) (put_message-IsUnrepeated (message_key m) v h)
    Ingested-IsUnrepeated request v answer u (unwritten m c none_ e k) h =
        subst (IsUnrepeated key v) (sym k) (put_message-IsUnrepeated (message_key m) v h)
    Ingested-IsUnrepeated request v answer u (written m c new e k) h =
        let q = put_latest-IsUnrepeated m (hash_of env p m) v h new in
        subst (IsUnrepeated key v) (sym k)
          (IsUnrepeated-trans v _ _ q (put_message-IsUnrepeated (message_key m) _ q.seen))

recorded : (v u : Snapshot) (k : MessageDedupeKey) → u ≡ put_message k v → u.messages k ≡ true
recorded v u k e = ap (λ x. x.messages k) e ∙ rw (eq_refl k.device_id, eq_refl k.message_id) refl

-- The message of a request that was accepted is recorded.
accepted-recorded :
    {W : Type 0} (env : Environment W) (p : RuntimePipeline W) (request : IngestRequest)
    (v : Snapshot) (answer : Answer) (u : Snapshot)
    → Ingested env p request v answer u
    → answer.0.accepted ≡ true
    → (m : ValidatedMessage) × IsChecked env p request m × (u.messages (message_key m) ≡ true)
accepted-recorded env p request v answer u (rejected f g r) h = absurd cc
accepted-recorded env p request v answer u (rejected_late m x c new f g e r) h = absurd cc
accepted-recorded env p request v answer u (duplicate m c seen e k) h =
    (m, c, ap (λ x. x.messages (message_key m)) k ∙ seen)
accepted-recorded env p request v answer u (unchanged m c t same e k) h =
    (m, c, recorded _ u (message_key m) k)
accepted-recorded env p request v answer u (unwritten m c none_ e k) h =
    (m, c, recorded _ u (message_key m) k)
accepted-recorded env p request v answer u (written m c new e k) h =
    (m, c, recorded _ u (message_key m) k)

module _ {W : Type 0} (view : W → Snapshot) (env : Environment W) (p : RuntimePipeline W)
    (laws : PipelineLaws view env p) where
  serve-IsUnrepeated :
      (key : MessageDedupeKey) (requests : List IngestRequest) (w : W)
      → (view w).messages key ≡ true
      → IsUnrepeated key (view w) (view (serve env p requests w))
  unfolding serve
  serve-IsUnrepeated key [] w h = kept key (view w) (view w) refl h
  serve-IsUnrepeated key (request ∷ rest) w h =
      let q =
        Ingested-IsUnrepeated key env p request _ _ _ (ingest-Ingested view env p laws request w)
          h in
      IsUnrepeated-trans key _ _ _ q (serve-IsUnrepeated key rest (ingest env p request w).1 q.seen)

  -- Where an ingestion is accepted, the request holds a message that passed the checks, and whatever
  -- requests follow, failing ones included, the message of this device and id stays recorded and is not
  -- written again, provided that the pipeline meets its laws.
  pub ingest-serve-IsUnrepeated :
      (request : IngestRequest) (later : List IngestRequest) (w : W)
      → (ingest env p request w).0.0.accepted ≡ true
      → (m : ValidatedMessage) × IsChecked env p request m
        × IsUnrepeated
            (message_key m)
            (view (ingest env p request w).1)
            (view (serve env p later (ingest env p request w).1))
  ingest-serve-IsUnrepeated request later w h =
      let (m, checked, seen) =
        accepted-recorded env p request _ _ _ (ingest-Ingested view env p laws request w) h in
      (m, checked, serve-IsUnrepeated (message_key m) later (ingest env p request w).1 seen)
