-- ===== src/Telemetry/Message.antt =====
-- What the ingestion of a message that was validated comes to.
use home_assistant.Base.{
  String, Bool, true, false, Option, none, some, ◌≡◌, ◌≢◌, refl, sym, ◌∙◌, ap, inl, inr, Error,
  Outcome, ok, err, Exec, Bool-cases, ◌⊎◌, eq_iff,
}
use home_assistant.Base.Ensures.{settle_lem, Settles}
use home_assistant.Base.Simulation.{Shows}
use home_assistant.Telemetry.Model.{IngestRequest, IngestResult, ValidatedMessage, IngestFailure}
use home_assistant.Telemetry.Pipeline.{
  RuntimePipeline, Environment, with_defaults, state_dedupe_key, message_key, record_failure,
  is_telemetry, is_same_hash, should_suppress_unchanged_telemetry,
}
use home_assistant.Telemetry.Ingest.{
  Answer, acceptance, complete, record_written, write_latest, write_unless, ingest_unless,
  ingest_message,
}
use home_assistant.Telemetry.Laws.{
  Snapshot, put_message, put_failure, put_written, put_latest, PipelineLaws, Reported, IsChecked,
  hash_of, Ingested, rejected, rejected_late, duplicate, unchanged, unwritten, written,
}

pub some_error : {e : Error} → some e ≢ none
some_error h = cc

sunk :
    {W : Type 0} (view : W → Snapshot) (v : Snapshot) (x : IngestFailure) (r : Outcome (Unit {0}))
    (w : W)
    → Settles (λ _. Shows view (put_failure x v)) (Shows view v) r w
    → Reported v (view w)
sunk view v x (ok a) w h = inr (x, h)
sunk view v x (err e) w h = inl h

module _ {W : Type 0} (view : W → Snapshot) (env : Environment W) (p : RuntimePipeline W)
    (laws : PipelineLaws view env p) where
  pub sink_lem :
      (o : Option (IngestFailure → Exec W (Unit {0}))) (x : IngestFailure) (v : Snapshot) (w : W)
      → p.failure_sink ≡ o
      → view w ≡ v
      → Reported v (view (record_failure o x w))
  unfolding record_failure
  sink_lem none x v w e h = inl h
  sink_lem (some f) x v w e h = sunk view v x (f x w).0 (f x w).1 ((laws.sink_lem f x v e).at w h)

  module _ (request : IngestRequest) (v : Snapshot) where
    abbrev pub Comes : Answer × W → Type 0
    Comes o = Ingested env p request v o.0 (view o.1)

    -- Where a rejection of whatever kind is what an ingestion may come to.
    abbrev MayReject : Snapshot → Type 0
    MayReject x =
        (answer : Answer) (u : Snapshot)
        → answer.0.accepted ≡ false
        → answer.1 ≢ none
        → Reported x u
        → Ingested env p request v answer u

    module _ (m : ValidatedMessage) (checked : IsChecked env p request m)
        (new : v.messages (message_key m) ≡ false) where
      abbrev hash : String
      hash = hash_of env p m

      late : (x : Snapshot) → (x ≡ put_written m v) ⊎ (x ≡ put_latest m hash v) → MayReject x
      late x h answer u f g r = rejected_late m x checked new f g h r

      complete_lem :
          (result : IngestResult) (x : Snapshot) (w : W)
          → view w ≡ x
          → MayReject x
          → ((u : Snapshot)
              → u ≡ put_message (message_key m) x
              → Ingested env p request v (result, none) u)
          → Comes (complete p (with_defaults env p) m hash result w)
      unfolding complete
      complete_lem result x w h bad good =
          settle_lem (λ _. Shows view (put_message (message_key m) x)) (Shows view x) Comes _ _ _
            ((laws.store_lem.message_lem (message_key m) x).at w h)
            (λ e u k. bad _ _ refl some_error (sink_lem p.failure_sink _ x u refl k))
            (λ _ u _ k. good (view u) k)

      finished_lem :
          (w : W)
          → view w ≡ put_latest m hash v
          → Comes (complete p (with_defaults env p) m hash (acceptance m hash true false "") w)
      finished_lem w h =
          complete_lem _ (put_latest m hash v) w h (late _ (inr refl))
            λ u k. written m checked new refl k

      record_written_lem :
          (b : Bool) (w : W)
          → is_telemetry m ≡ b
          → view w ≡ put_written m v
          → Comes (record_written b p (with_defaults env p) m hash w)
      unfolding record_written
      record_written_lem true w e h =
          settle_lem (λ _. Shows view (put_latest m hash v)) (Shows view (put_written m v)) Comes
            ((with_defaults env p).dedupe_store.record_material_hash (state_dedupe_key m) hash w) _
            _ (rw e ((laws.store_lem.hash_lem (state_dedupe_key m) hash (put_written m v)).at w h))
            (λ e u k.
              late (put_written m v) (inl refl) _ _ refl some_error
                (sink_lem p.failure_sink _ _ u refl k))
            (λ _ u _ k. finished_lem u k)
      record_written_lem false w e h = finished_lem w (rw e h)

      write_latest_lem :
          (o : Option (ValidatedMessage → Exec W (Unit {0}))) (w : W)
          → p.writer ≡ o
          → view w ≡ v
          → Comes (write_latest o p (with_defaults env p) m hash w)
      unfolding write_latest
      write_latest_lem none w e h =
          complete_lem _ v w h (λ _ _ f g r. rejected f g r) λ u k. unwritten m checked e refl k
      write_latest_lem (some f) w e h =
          settle_lem (λ _. Shows view (put_written m v)) (Shows view v) Comes _ _ _
            ((laws.writer_lem f m v e).at w h)
            (λ e u k. rejected refl some_error (sink_lem p.failure_sink _ v u refl k))
            (λ _ u _ k. record_written_lem _ u refl k)

      hashed_lem :
          (r : Outcome (Option String)) (w : W)
          → Settles (λ o u. (o ≡ v.hashes (state_dedupe_key m)) × (view u ≡ v)) (Shows view v) r w
          → (is_same_hash r hash ≡ true → v.hashes (state_dedupe_key m) ≡ some hash) × (view w ≡ v)
      hashed_lem (ok none) w (e, h) = (λ same. absurd cc, h)
      hashed_lem (ok (some x)) w (e, h) =
          (λ same. sym e ∙ ap (λ y. some y) ((eq_iff x hash).0 same), h)
      hashed_lem (err e) w h = (λ same. absurd cc, h)

      suppressed_lem :
          (w : W)
          → view w ≡ v
          → ((should_suppress_unchanged_telemetry (with_defaults env p).dedupe_store m hash w).0
                ≡ true
              → (is_telemetry m ≡ true) × (v.hashes (state_dedupe_key m) ≡ some hash))
            × (view
                  (should_suppress_unchanged_telemetry
                    (with_defaults env p).dedupe_store
                    m
                    hash
                    w).1
                ≡ v)
      unfolding should_suppress_unchanged_telemetry
      suppressed_lem w h =
          let store = (with_defaults env p).dedupe_store in
          let (same, shown) =
            hashed_lem (store.last_material_hash (state_dedupe_key m) w).0
              (store.last_material_hash (state_dedupe_key m) w).1
              ((laws.store_lem.last_lem (state_dedupe_key m) v).at w h) in
          elim (Bool-cases (is_telemetry m)) [
            | inl e ↦ rw e (λ f. (refl, same f), shown)
            | inr e ↦ rw e (λ f. absurd cc, h)
          ]

      write_unless_lem :
          (b : Bool) (w : W)
          → (b ≡ true → (is_telemetry m ≡ true) × (v.hashes (state_dedupe_key m) ≡ some hash))
          → view w ≡ v
          → Comes (write_unless b p (with_defaults env p) m hash w)
      unfolding write_unless
      write_unless_lem true w e h =
          complete_lem _ v w h (λ _ _ f g r. rejected f g r)
            λ u k. unchanged m checked (e refl).0 (e refl).1 refl k
      write_unless_lem false w e h = write_latest_lem p.writer w refl h

    ingest_unless_lem :
        (m : ValidatedMessage) (b : Bool) (w : W)
        → IsChecked env p request m
        → b ≡ v.messages (message_key m)
        → view w ≡ v
        → Comes (ingest_unless b p (with_defaults env p) m (hash_of env p m) w)
    unfolding ingest_unless
    ingest_unless_lem m true w checked e h = duplicate m checked (sym e) refl h
    ingest_unless_lem m false w checked e h =
        let (same, shown) = suppressed_lem m checked (sym e) w h in
        write_unless_lem m checked (sym e) _ _ same shown

    pub ingest_message_lem :
        (m : ValidatedMessage) (w : W)
        → IsChecked env p request m
        → view w ≡ v
        → Comes (ingest_message p (with_defaults env p) m (hash_of env p m) w)
    unfolding ingest_message
    ingest_message_lem m w checked h =
        settle_lem (λ b u. (b ≡ v.messages (message_key m)) × (view u ≡ v)) (Shows view v) Comes _ _
          _ ((laws.store_lem.seen_lem (message_key m) v).at w h)
          (λ e u k. rejected refl some_error (sink_lem p.failure_sink _ v u refl k))
          (λ b u _ k. ingest_unless_lem m b u checked k.0 k.1)
