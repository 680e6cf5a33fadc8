-- ===== src/Telemetry/Contract.antt =====
-- What an ingestion comes to.
use home_assistant.Base.{Bool, true, false, Option, none, some, ◌≡◌, refl, Outcome, ok, err, Exec}
use home_assistant.Base.Ensures.{
  settle_lem, Settles, Ensures, Ensures-bind, Ensures-fact, Ensures-ensure, Ensures-returns,
  Ensures-wrapping,
}
use home_assistant.Base.Simulation.{Shows, Quiet-Ensures}
use home_assistant.Base.Time.{Time, is_zero}
use home_assistant.Telemetry.Model.{
  RuntimeEnvelope, AuthenticatedDeviceContext, TransportCredential, IngestRequest,
}
use home_assistant.Telemetry.Pipeline.{
  RuntimePipeline, Environment, with_defaults, resolve_authority,
}
use home_assistant.Telemetry.Ingest.{received, ingest_at, ingest}
use home_assistant.Telemetry.Laws.{Snapshot, PipelineLaws, Ingested, rejected}
use home_assistant.Telemetry.Message.{Comes, sink_lem, ingest_message_lem, some_error}

lifted_lem : {W A : Type 0} (P : W → Type 0) (r : Outcome A) (w : W) → P w → Settles (λ _. P) P r w
lifted_lem P (ok a) w h = h
lifted_lem P (err e) w h = h

module _ {W : Type 0} (view : W → Snapshot) (env : Environment W) (p : RuntimePipeline W)
    (laws : PipelineLaws view env p) where
  module _ (request : IngestRequest) (v : Snapshot) where
    resolve_lem :
        (o : Option (TransportCredential → Exec W AuthenticatedDeviceContext))
        (envelope : RuntimeEnvelope)
        → p.authority_resolver ≡ o
        → Ensures
            (Shows view v)
            (λ _. Shows view v)
            (Shows view v)
            (resolve_authority o request envelope)
    unfolding resolve_authority
    resolve_lem none envelope e = Ensures-returns _ λ w h. h
    resolve_lem (some f) envelope e = Ensures-bind (Ensures-ensure _ _ (λ w h. h)) λ _.
        Ensures-fact λ _.
          Ensures-bind {Q = λ _. Shows view v}
            (Ensures-wrapping _ (Quiet-Ensures view v _ (laws.resolver_lem f _ e)))
            λ device.
              Ensures-bind (Ensures-ensure _ _ (λ w h. h))
                λ _. Ensures-fact λ _. Ensures-returns _ λ w h. h

    ingest_at_lem :
        (t : Time) (w : W)
        → view w ≡ v
        → (Comes view env p laws request v) (ingest_at env p (with_defaults env p) request t w)
    unfolding ingest_at
    ingest_at_lem t w h =
        settle_lem (λ _. Shows view v) (Shows view v) (Comes view env p laws request v) _ _ _
          (lifted_lem (Shows view v) _ w h)
          (λ e u k. rejected refl some_error (sink_lem view env p laws p.failure_sink _ v u refl k))
          λ envelope u parsed k.
            settle_lem (λ _. Shows view v) (Shows view v) (Comes view env p laws request v) _ _ _
              (lifted_lem (Shows view v) _ u k)
              (λ e u k.
                rejected refl some_error (sink_lem view env p laws p.failure_sink _ v u refl k))
              λ projection u projected k.
                settle_lem (λ _. Shows view v) (Shows view v) (Comes view env p laws request v) _ _
                  _ ((resolve_lem p.authority_resolver envelope refl).at u k)
                  (λ e u k.
                    rejected refl some_error (sink_lem view env p laws p.failure_sink _ v u refl k))
                  λ device x resolved l.
                    settle_lem (λ _. Shows view v) (Shows view v) (Comes view env p laws request v)
                      _ _ _ (lifted_lem (Shows view v) _ x l)
                      (λ e u k.
                        rejected refl some_error
                          (sink_lem view env p laws p.failure_sink _ v u refl k))
                      λ _ y identified k.
                        ingest_message_lem view env p laws request v _ y
                          (record {
                            parsed = parsed;
                            projected = projected;
                            world = u;
                            resolved = resolved;
                            identified = identified;
                          })
                          k

  received_lem :
      (b : Bool) (request : IngestRequest) (w : W)
      → view (received b (with_defaults env p) request w).1 ≡ view w
  unfolding received
  received_lem true request w = laws.clock_lem w
  received_lem false request w = refl

  -- An ingestion comes to one of these, provided that the pipeline meets its laws: a rejection with an
  -- error, which has written nothing and recorded at most a failure; a rejection after the message was
  -- written, where the store failed to record it; the acceptance of a message that was seen before, and
  -- nothing has changed; the acceptance of telemetry whose hash is the last one of its state, or of a
  -- message where there is no writer, and the message is recorded; or the acceptance of a message that
  -- was not seen, which is written and recorded, with its hash if it is telemetry. All but the first
  -- are of a message that was parsed, validated, resolved and matched with its payload.
  pub ingest-Ingested :
      (request : IngestRequest) (w : W)
      → Ingested env p request (view w) (ingest env p request w).0 (view (ingest env p request w).1)
  unfolding ingest
  ingest-Ingested request w =
      ingest_at_lem request (view w) _ _ (received_lem (is_zero request.received_at) request w)
