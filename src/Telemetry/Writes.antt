-- ===== src/Telemetry/Writes.antt =====
-- Any sequence of requests to a pipeline with the parser and the catalog that the source makes: what
-- is written has passed the checks.
use home_assistant.Base.{
  String, none, List, [], ◌∷◌, ◌≡◌, refl, sym, ◌∙◌, ap, subst, inl, inr, ◌⊎◌, ok, Bool-cases,
}
use home_assistant.Telemetry.Model.{IngestRequest, ValidatedMessage}
use home_assistant.Telemetry.Catalog.{parse, validate, default_catalog}
use home_assistant.Telemetry.Pipeline.{
  RuntimePipeline, Environment, with_defaults, or_default, is_telemetry,
}
use home_assistant.Telemetry.Ingest.{Answer, ingest, serve}
use home_assistant.Telemetry.Laws.{
  Snapshot, put_latest, PipelineLaws, Reported, IsChecked, hash_of, Ingested, rejected,
  rejected_late, duplicate, unchanged, unwritten, written,
}
use home_assistant.Telemetry.Contract.{ingest-Ingested}
use home_assistant.Telemetry.Genuine.{
  IsGenuine, AllGenuine, parse_lem, validate_lem, identified_lem,
}

reported_lem : (v u : Snapshot) → Reported v u → u.written ≡ v.written
reported_lem v u (inl e) = ap (λ x. x.written) e
reported_lem v u (inr (x, e)) = ap (λ y. y.written) e

latest_lem :
    (m : ValidatedMessage) (hash : String) (v : Snapshot)
    → (put_latest m hash v).written ≡ m ∷ v.written
latest_lem m hash v = elim (Bool-cases (is_telemetry m)) [ inl e ↦ rw e refl | inr e ↦ rw e refl ]

module _ {W : Type 0} (env : Environment W) (p : RuntimePipeline W) where
  -- An ingestion writes nothing, or one message that passed the checks.
  Ingested_lem :
      (request : IngestRequest) (v : Snapshot) (answer : Answer) (u : Snapshot)
      → Ingested env p request v answer u
      → (u.written ≡ v.written)
        ⊎ ((m : ValidatedMessage) × IsChecked env p request m × (u.written ≡ m ∷ v.written))
  Ingested_lem request v answer u (rejected f g r) = inl (reported_lem v u r)
  Ingested_lem request v answer u (rejected_late m x c new f g (inl e) r) =
      inr (m, c, reported_lem x u r ∙ ap (λ y. y.written) e)
  Ingested_lem request v answer u (rejected_late m x c new f g (inr e) r) =
      inr (m, c, reported_lem x u r ∙ ap (λ y. y.written) e ∙ latest_lem m (hash_of env p m) v)
  Ingested_lem request v answer u (duplicate m c seen e k) = inl (ap (λ y. y.written) k)
  Ingested_lem request v answer u (unchanged m c t same e k) = inl (ap (λ y. y.written) k)
  Ingested_lem request v answer u (unwritten m c no_writer e k) = inl (ap (λ y. y.written) k)
  Ingested_lem request v answer u (written m c new e k) =
      inr (m, c, ap (λ y. y.written) k ∙ latest_lem m (hash_of env p m) v)

  module _ (parser : p.parser ≡ none) (catalog : p.catalog ≡ none) where
    IsChecked-IsGenuine :
        (request : IngestRequest) (m : ValidatedMessage)
        → IsChecked env p request m
        → IsGenuine env.decoders m
    unfolding with_defaults
    IsChecked-IsGenuine request m c = record {
      envelope = parse_lem env.decoders request.route request.body m.envelope (
          subst (λ o. or_default o (parse env.decoders) request.route request.body ≡ ok m.envelope)
            parser c.parsed);
      projected = validate_lem env.decoders m.envelope m.projection (
          subst
            (λ o.
              validate (or_default o (default_catalog env.decoders)) m.envelope ≡ ok m.projection)
            catalog c.projected);
      identified = identified_lem env.decoders m.envelope.payload m.device.device_id c.identified;
    }

module _ {W : Type 0} (view : W → Snapshot) (env : Environment W) (p : RuntimePipeline W)
    (laws : PipelineLaws view env p) where
  -- If each message that is written has passed the checks of the source's parser and catalog, and
  -- its payload, unless it is empty, names no device but the one that was resolved, be it in the
  -- field device_id, in homesignal_device_id or in one of these two of the object device, where this
  -- has an id that is not blank, then so it is after any sequence of requests, failing ones
  -- included, where the pipeline has no other parser and catalog, provided that it meets its laws.
  pub serve-AllGenuine :
      (requests : List IngestRequest) (w : W)
      → p.parser ≡ none
      → p.catalog ≡ none
      → AllGenuine env.decoders (view w).written
      → AllGenuine env.decoders (view (serve env p requests w)).written
  unfolding serve
  serve-AllGenuine [] w parser catalog h = h
  serve-AllGenuine (request ∷ rest) w parser catalog h =
      serve-AllGenuine rest (ingest env p request w).1 parser catalog
        (elim (Ingested_lem env p request _ _ _ (ingest-Ingested view env p laws request w)) [
          | inl e ↦ subst (AllGenuine env.decoders) (sym e) h
          | inr (m, c, e) ↦
              subst (AllGenuine env.decoders) (sym e)
                (IsChecked-IsGenuine env p parser catalog request m c, h)
        ])
