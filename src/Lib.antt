-- ===== src/Lib.antt =====
-- cmek: a key service's cache of wrapped data keys, a bounded lease on their plaintext, and a queue
-- of sealed messages. This library models the parts that decide when a key may be used and what
-- becomes of a message.
--
-- Base: options, lists, byte strings, association maps and integers over the native numbers.
-- Kms: internal/kms. Errors and Frame are kms.go (error text and its reader), Fault is fault.go,
-- Fake is fake.go with truth.go. Truth, RoundTrip and First prove about them.
-- Core: internal/cmek. Lease, Types, Texts and Tenant are lease.go, types.go and the small methods
-- of manager.go; Classify is classify.go; Apply is the apply table of fetcher.go; Fetcher, with
-- Call and Generate, is the rest of that file; Manager, Delivery and Sweep are manager.go
-- (EncryptKey; DecryptKey, Hot and Warm; Tick, Info and States); Envelope is envelope.go. The other
-- modules of Core are proofs.
-- Queue: internal/queue. Rows is the table and its statements, Ledger the counters, Store the
-- operations (store.go); Scheduler is scheduler.go. Balance, Tallies, Agreement, Sweeps, Histories,
-- Accounts and Fairness prove about them.
-- Admit: internal/admit/gate.go. Sink: the delivery ring of internal/traffic/sink.go. Checker: the
-- verdicts of internal/check/checker.go, with S3 in Checker.Revocation and
-- the passes in Checker.Pass. Window, Episodes and Lasting below them
-- are proofs.
-- Queue.Workers: the batch loop of internal/queue/workers.go, over the core, the sink and the calls
-- of the store; Turn puts the scheduler and Claim in front of it. Disposal, Ownership, Shifts and
-- Lateness prove about it.
-- Metrics: internal/metrics/registry.go. Recent is its newest-first rings, Trail the audits, timeline
-- and transitions (with Flush; Newest proves about it), Counters the ingest counters, Card the
-- scenario's card and the affected set; Hub is hub.go (Viewers proves about it).
-- Generator: internal/traffic/generator.go.
-- World: internal/world. Ingest is ingest.go, the composition of gate, core, envelope and store;
-- Settles, Books, Lateness and Shares prove about it. Scenarios is the runner's slot of scenarios.go with the
-- card, as a step relation (Showing and Hidden prove about it), and Tail
-- its last loop; Params is params.go;
-- Switches is the part of world.go that sets rates, faults, keys and the cache; Scripts is what the
-- eight scenarios do with it, and Covers, Restores, Leaving and Fresh prove about it.
-- Holder is holder.go with the part of world.go it drives: watcher, IdleFor, hold and Stop, as a step
-- relation (Watching, Lives, Stops and Histories prove about it).
-- Of world.go also: Sweep is the loop that drives Tick, Reclaim and Expire (Lingers proves about it, on
-- Queue.Lapses), Wiring the names, ranks and rates of New (Names and Ranks prove about them), Details
-- the read models, Bridges what the metrics are given of the core.
-- Queue.Meter is the timing instrument of store.go. Logx: internal/logx, for the lines of one message.
-- Metrics.Hist is hist.go, Metrics.Ticks the tick of registry.go with its snapshot and peaks.
-- Server: the handlers of cmd/killswitch/server.go, as plans that ask the holder for a World;
-- Controls changes its switches and scenarios, Events is POST /v1/events, Refusals and Honest prove.
-- Server.Reads is health, the tenant and the reset, Server.Stream the loop of sse.go.
-- Examples, QueueExamples, WorkerExamples, WorldExamples and ServiceExamples apply the theorems at
-- concrete inputs.
--
-- How state is modelled. A tenant is one record. A method is a chain of critical sections (Core.Run):
-- between two of them the environment's `others` says what the other goroutines make of the tenant,
-- and the clock, the random source, the key service, the store and singleflight are asked at
-- numbered points. Core.Schedule takes the sections themselves, from any goroutines, in any order.
--
-- Instants and durations are natural numbers of nanoseconds, the zero instant is Go's zero time, and
-- nothing overflows: an int64 of nanoseconds holds 292 years. Where Go computes a difference that can
-- be negative, the model has an integer or guards the subtraction as the code does. Floats of the
-- backoff, of the settings and of the load generator are parts of a million, the ratios of L1
-- thousandths. A Tink primitive is a number that only the AEAD parameter reads;
-- a Go map is an association list, so the order of a range over a map is that of insertion.
--
-- The loops run over lists and are structural, but for two on fuel. Each round of the frame reader of
-- kms.go moves at least four bytes on, so one more than the length of the text is enough. Each poll of
-- Scenarios.Tail comes an interval after the one before, so one more than fit into ScenarioTailMax are
-- enough.
--
-- The core's own goroutines, its probes and warms, run beside the World's: Core interleaves them with
-- everything else on a tenant, and the holder, like Stop's WaitGroup, does not count them.
--
-- Not modelled: the HTTP and JSON libraries, opening the database, the logger and main.
pub mod Base
pub mod Kms
pub mod Core
pub mod Queue
pub mod Admit
pub mod Sink
pub mod Checker
pub mod Metrics
pub mod World
pub mod Generator
pub mod Server
pub mod Logx
pub mod Examples
pub mod QueueExamples
pub mod WorkerExamples
pub mod WorldExamples
pub mod ServiceExamples
