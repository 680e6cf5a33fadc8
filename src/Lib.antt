-- ===== src/Lib.antt =====
-- HomeSignal for Home Assistant: a cloud backend (backend/), a telemetry ingest service
-- (telemetry-ingest/) and an agent that runs as a Home Assistant app (homesignal/), all in Go.
-- This library models the core logic of the backend's domain services and of the ingest pipeline
-- and proves it correct.
--
-- Base: what the parts share. Tests has the Boolean tests and the conditional; Text has
-- `strings.TrimSpace`; Json has the scanner of `json.Valid`; Time has instants and durations in
-- nanoseconds; Split and Decimal have `strings.Split`, `strings.Join` and decimal numbers, Int has
-- integers with a sign; Sources has clocks and id generators that may be missing; Effects has Go's
-- errors as values and functions with effects, `Exec W A`, that act on a world `W` and return a
-- value or an error beside the new world; Ensures has the triples by which such functions are
-- verified, and Simulation what relates them to abstract steps.
--
-- Commands: backend/internal/domain/commands/service.go. Model has the data, Updates the pure
-- updates of a command, Service the operations (`Create` is `create`, and so on), over a
-- repository, a clock and an id generator that are fields of `Service` and act on a world that is
-- a parameter. Lifecycle has the abstract state machine, Laws what is assumed of the repository,
-- Refinement that each operation takes steps of the machine only, Invariants what these steps
-- keep, Calls any sequence of calls, Creation and Deadlines the single operations. Memory is a
-- repository in memory that meets the laws, and Examples has runs over it.
--
-- Alerting: backend/internal/domain/alerting/service.go, laid out as Commands is: Model, Updates,
-- Service (`IntakeCandidate` is `intake_candidate`; its part after the lookup of the active alert
-- is `respond`), Lifecycle, Laws, Refinement, Invariants, Calls, and Intake for duplicate
-- candidates.
--
-- Recipients: backend/internal/domain/alerting/recipients.go. Subscriptions has the loops over
-- families and recipients, Service the operations (`CreateRecipient` is `create_recipient`), where
-- `Mail` stands for `mail.ParseAddress` and `strings.ToLower`; Selection is about the loops, Laws
-- has what is assumed of the service, and Contracts what each operation leaves behind.
--
-- Releases: in backend/internal/domain/releases, Versions has the comparison of dotted versions in
-- service.go and HaVersions all of ha_versions.go (`AdvisoryForInstalled` is
-- `advisory_for_installed`, and its decision, which the source writes as a row of early returns,
-- is `advisory_from`). Order is about the comparison, Clocks about the clock, Advisories and
-- Catalog about the operations. `RefreshLatestStable` returns a catalog beside its error, as in the source; the text of a second
-- error that the first one's message quotes is left out. The parts of a version are below 2 ^ 63,
-- as `strconv.Atoi` has it.
--
-- Controlplane: backend/internal/controlplane/idempotency.go. Idempotency has `getOrStore` as
-- `get_or_store`, over a world on which the requests act, RateLimiter has `allow`; Replays and
-- Limits are about them. A Go map is a function, and a run of `getOrStore` is one step, so that
-- requests with one key that run at the same time are not modelled.
--
-- Backups: backend/internal/domain/backups/service.go. Model has the data, Service the two
-- operations, Lifecycle what the repository holds and how it changes, Laws what is assumed,
-- Results what the operations are to leave behind, Outcomes and Contracts that they do, Calls any
-- sequence of calls.
-- Commanded puts the command service in as the creator of commands.
--
-- Artifacts: backend/internal/domain/artifacts/service.go. Service has `CreateUpload`, ObjectKeys
-- is about the key under which an upload is stored, Laws has what is assumed and what is to be left
-- behind, and Contracts that it is. The year
-- of a key is printed as `%04d` prints it.
--
-- Telemetry: telemetry-ingest/internal/pipeline. Envelope, HealthSnapshot, AgentAlarm and
-- StrictJson have the checks of the files of these names, Catalog the parser, the catalog and the
-- hash, Pipeline the pipeline with its parts, and Ingest its `Ingest` as `ingest`, whose parts are
-- named for what they do. Laws has what is assumed of the stores and what an ingestion may come
-- to, Message and Contract that it comes to this, Unrepeated and Writes are about any sequence of
-- requests, and Genuine and Named about one that was checked. DistinctKeys and Documents are about the check
-- for repeated keys, whose fuel is twice the number of tokens and one. The decoding of JSON by
-- encoding/json is a parameter, `Decoders`, with the tokens of a document as a list. A text counts
-- as its code points. Requests are served one after another.
--
-- Edgestate: backend/internal/domain/edgestate/service.go, with `PutDesired` as `put_desired`;
-- Stored is about sequences of its calls.
--
-- Authorization: backend/internal/domain/authorization/authorization.go, with `Can` as `can`;
-- Actions is about the form of an action, and Granted about the decision.
--
-- Notifications: backend/internal/domain/notifications/service.go, with `EnqueueAlertEmail` as
-- `enqueue_alert_email` and `ProcessPending` as `process_pending`, on the alerts of Alerting and
-- the recipients of Recipients. Processed and Enqueued are about what they return.
--
-- A Go string type with named values is a data type with these values and one more, `unknown` or
-- `other`, for any other text, or, in Telemetry and Edgestate, a text. A nil pointer, interface or map is
-- `none`. A context is left out. An error keeps its format, its arguments and its cause. A byte
-- string is a list of numbers. Times before the zero time, negative durations and the wrap of
-- 64-bit nanoseconds are left out, and so is the wrap of the count of an alert's occurrences, an
-- `int` in the source, which comes after 2 ^ 63 - 1 candidates.
--
-- Not modelled: HTTP, SQL and AWS adapters, process start, the portal and the design documents,
-- release channels and rollouts, diagnostics, authentication, routing, read models,
-- migrations, and the agent.
pub mod Base
pub mod Commands
pub mod Alerting
pub mod Recipients
pub mod Releases
pub mod Controlplane
pub mod Backups
pub mod Artifacts
pub mod Telemetry
pub mod Edgestate
pub mod Authorization
pub mod Notifications
