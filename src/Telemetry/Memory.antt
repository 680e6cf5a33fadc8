-- ===== src/Telemetry/Memory.antt =====
-- The stores of telemetry-ingest/internal/pipeline/memory.go, and that a pipeline with them meets its
-- laws. A set of keys is the list of them, and a map an association list.
use mathlib.Core.Option.{some-injective}
use home_assistant.Base.{
  String, Bool, false, ◌||◌, Option, none, some, List, [], ◌∷◌, refl, ap, subst, ok, Exec,
  if◌then◌else◌,
}
use home_assistant.Base.Time.{Time}
use home_assistant.Telemetry.Model.{
  ValidatedMessage, IngestFailure, MessageDedupeKey, same_message, StateDedupeKey, same_state,
}
use home_assistant.Telemetry.Pipeline.{DedupeStore, RuntimePipeline, Environment, with_defaults}
use home_assistant.Telemetry.Catalog.{Decoders}
use home_assistant.Base.Ensures.{Ensures}
use home_assistant.Base.Simulation.{Shows}
use home_assistant.Telemetry.Laws.{Snapshot, put_written, put_failure, StoreLaws, PipelineLaws}

pub record Memory : Type 0 where
  pub messages : List MessageDedupeKey
  pub material_hashes : List (StateDedupeKey × String)
  pub written : List ValidatedMessage
  pub failures : List IngestFailure
  pub time : Time

abbrev pub has_message : List MessageDedupeKey → MessageDedupeKey → Bool
has_message [] key = false
has_message (k ∷ rest) key = same_message k key || has_message rest key

abbrev pub find_hash : List (StateDedupeKey × String) → StateDedupeKey → Option String
find_hash [] key = none
find_hash ((k, hash) ∷ rest) key = if same_state k key then some hash else find_hash rest key

abbrev pub view : Memory → Snapshot
view m = record {
  messages = has_message m.messages;
  hashes = find_hash m.material_hashes;
  written = m.written;
  failures = m.failures;
}

abbrev pub memory_dedupe_store : DedupeStore Memory
memory_dedupe_store = record {
  seen_message = λ key m. (ok (has_message m.messages key), m);
  record_message = λ key m. (ok tt, record m { messages = key ∷ m.messages });
  last_material_hash = λ key m. (ok (find_hash m.material_hashes key), m);
  record_material_hash =
      λ key hash m. (ok tt, record m { material_hashes = (key, hash) ∷ m.material_hashes });
}

-- `MemoryWriter`, the latest first
abbrev pub write_latest : ValidatedMessage → Exec Memory (Unit {0})
write_latest message m = (ok tt, record m { written = message ∷ m.written })

-- `MemoryFailureSink`, the latest first
abbrev pub record_failure : IngestFailure → Exec Memory (Unit {0})
record_failure failure m = (ok tt, record m { failures = failure ∷ m.failures })

abbrev pub environment : Decoders → (String → String) → Environment Memory
environment decoders digest = record {
  decoders = decoders;
  digest = digest;
  new_dedupe_store = memory_dedupe_store;
  wall_clock = λ m. (m.time, m);
}

-- a pipeline with the writer and the sink in memory, and the defaults for the rest
abbrev pub pipeline : RuntimePipeline Memory
pipeline = record {
  parser = none;
  catalog = none;
  authority_resolver = none;
  dedupe_store = none;
  writer = some write_latest;
  failure_sink = some record_failure;
  clock = none;
}

store_laws : StoreLaws view memory_dedupe_store
store_laws = record {
  seen_lem = λ k v. record { at = λ m e. (ap (λ u. u.messages k) e, e) };
  message_lem = λ k v. record {
    at = λ m e i. record (e i) { messages = λ x. same_message k x || (e i).messages x };
  };
  last_lem = λ k v. record { at = λ m e. (ap (λ u. u.hashes k) e, e) };
  hash_lem = λ k hash v. record {
    at = λ m e i. record (e i) {
      hashes = λ x. if same_state k x then some hash else (e i).hashes x;
    };
  };
}

pub memory_laws :
    (decoders : Decoders) (digest : String → String)
    → PipelineLaws view (environment decoders digest) pipeline
unfolding with_defaults
memory_laws decoders digest = record {
  store_lem = store_laws;
  clock_lem = λ m. refl;
  resolver_lem = λ f c e. absurd cc;
  writer_lem = λ f x v e.
      subst
        (λ (g : ValidatedMessage → Exec Memory (Unit {0})).
          Ensures (Shows view v) (λ _. Shows view (put_written x v)) (Shows view v) (g x))
        (some-injective _ _ e)
        (record { at = λ m h i. record (h i) { written = x ∷ (h i).written } });
  sink_lem = λ f x v e.
      subst
        (λ (g : IngestFailure → Exec Memory (Unit {0})).
          Ensures (Shows view v) (λ _. Shows view (put_failure x v)) (Shows view v) (g x))
        (some-injective _ _ e)
        (record { at = λ m h i. record (h i) { failures = x ∷ (h i).failures } });
}
