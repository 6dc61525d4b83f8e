-- ===== src/Lib.antt =====
-- A model of radar-node, the probing agent of Mehrnet Radar, and theorems about it.
--
-- The agent (internal/agent) receives probes and triggers from its server, runs the checks that are
-- due and reports the results. Its cache (cache.go) holds the assigned probes, when each ran, and a
-- queue of triggered runs. What must survive a restart goes through the store (internal/store), an
-- SQLite database: a journal of results, triggers, completions and assignments, and the tables that
-- are views of it. A check can be a module (internal/module), a separate program; modules that pool
-- their jobs keep engines running between checks (pool.go). Which address and interface a subprocess
-- uses, it reads from its environment (internal/netbind).
--
-- Base: lists, Go maps, integers and tests that the files share. Wire: the messages and rows of
--   internal/wire/wire.go and internal/store/schema.go that more than one part uses.
-- Agent.Clock: instants and durations as nanoseconds.
-- Agent.Cache: probeCache and its methods (internal/agent/cache.go), one function each, from a state
--   to a state; Agent.Cache.Schedule: probeDueLocked, dueProbes, takeDueProbes and staggerUnstarted.
--   The mutex is not modelled: each method holds it throughout, so a run is a sequence of methods.
--   The children Budget, Oldest, Queue, Redelivery, Sync and Stagger are proofs.
-- Agent.Health: healthSampler (internal/agent/health.go): the hysteresis on memory, load and steal,
--   the pressure and the snapshot; the children Pressure and Snapshot are proofs.
-- Agent.Spool: resultSpool.prune and the loop of drainSpool (internal/agent/spool.go), with the
--   proofs in its children; the removal of a file that a drain is done with is taken to succeed.
-- Agent.Delivery: drainStore and outcomesFor (internal/agent/store_delivery.go) over the store; a drain
--   has as many turns as its time allows. The child Queue is a proof.
-- Agent.Triggers: applyTriggeredEvents, restorePendingTriggers and finishTriggers
--   (internal/agent/store_delivery.go), between the cache and the store; the child Requeue is a proof.
-- Agent.Checks: runChecks, runCheck, runCheckBatch and the options of a check (internal/agent/agent.go);
--   Agent.Report: reportResults and reportFallback, over the store and the spool; Agent.Install: the
--   quoting of the installer's arguments. Totals, Account, Kept, Durable and Quoting are proofs,
--   Shell says how a POSIX shell reads a line. Agent.PathHealth: pathHealth (pathhealth.go), with its
--   proofs below.
-- Agent.Tick: the limits of a tick, the triggers and probes that it takes and the checks that it makes
--   of them (internal/agent/agent.go); the child Bound is a proof. Agent.Round: runDueProbes as a whole,
--   of these parts, with noteBindingPause (bindmonitor.go) and drainDelivery, and the events that heartbeats bring
--   meanwhile; its children are proofs.
-- Store: the tables as lists of rows in the order of their row ids, and inserts into the journal with
--   its unique keys (internal/store/store.go, schema.go). Store.Sequences: nextOriginSeq
--   (sequences.go). Store.Triggers: RecordTrigger, CompleteTriggers, PendingTriggers (triggers.go).
--   Store.Results: RecordResults, PendingResults, MarkOutcomes, MarkAttempts (results.go).
--   Store.Probes: SaveAssignment, MarkProbesRun, Rebuild (probes.go). Store.Rollups:
--   rollupResults and writeRollups (rollups.go). Store.Maintenance: Maintain (maintenance.go), its
--   phases in order, where an argument says which statements fail. A transaction is a function to
--   an optional store: where it gives none, the tables stay as they were. Calls, Growth, Once,
--   Rebuild, Replay and Settlement are proofs.
-- Module.Pool: the slots of PoolChecker (internal/module/pool.go): Slot has runSlot's locked part,
--   releaseSlot and Close; Ports the choice of a port; Bisect the isolation of a bad job; Run a slot's
--   turn in a batch, runSlot and runBisected as a whole; Batch the grouping, the chunks and the
--   fan-out of CheckBatch.
--   Testers, Overlap, Pins and the children of Batch are proofs.
-- Module.Schema: validateRequest, matchesType and validateFieldSchema (internal/module/schema.go).
-- Module.Placeholder: validatePlaceholders and resolve (internal/module/placeholder.go), its regular
--   expressions as functions on code points; Pieces and Hyphens are proofs.
-- Module.Manifest: validate and LoadFS (internal/module/module.go); Spec says which
--   manifests are valid; Parts, Kinds, Valid and Loading are proofs.
-- PoolConfig: buildConfig (internal/poolconfig/poolconfig.go), none where it panics; Decimal is the
--   formats of its tags with a proof that they differ; Tags and Routes are proofs.
-- Netbind: Parse, IsZero, Network, Env and FromEnv (internal/netbind/binding.go), over net/netip as a
--   record of functions with the laws that its documentation gives; Inheritance is a proof.
-- Destgate: the spacing of checks of one destination (internal/destgate/destgate.go).
--
-- Numbers are natural numbers, and integers where the code counts below zero (streaks, references).
-- The products of a tick's limits wrap around as Go's int does (Agent.Tick); nothing else that is
-- modelled comes near the bounds of its Go type, so no other operation wraps. A subtraction of
-- instants stops at 0, where the code compares the difference with a positive bound. Percentages
-- and load averages, floating-point in the code, are numbers of hundredths.
-- Some loops run on fuel, and theorems say that the fuel is enough. rollup_results and enforce_age take
-- one more than the rows, of which a round drops some; run_slots takes the number of the jobs and
-- pieces the number of the characters, of which a round takes at least one; run_ephemeral takes the
-- number of its jobs, which every call halves. attempt_chunks takes the number of its rows, of which
-- every round drops some. The loops over the size and over the free pages have the code's own bounds of
-- 100 and 64 rounds. Everything else recurses on a list or a number.
--
-- What other code decides is an argument: time, JSON encoding, hashing, SQL parsing and disk errors,
-- gopsutil's readings, whether an engine starts and answers, which ports can be bound, what the tests
-- of an engine report, which addresses a text denotes.
--
-- Not modelled: the heartbeat, with the assignments that it brings; the loops that schedule the
-- goroutines and the HTTP client, which are input and output around the parts above; the checks
-- themselves (internal/checks), which speak network protocols; dialers, resolvers and socket
-- options (internal/netbind); the retry of a timed-out pooled test; the command line and module
-- installation; the fixed lines of the script that self-update runs; the parsing of YAML
-- (module.go); the rollups' query and the retry of a rollup that lost its cursor to another process
-- (rollups.go).
pub mod Agent
pub mod Base
pub mod Destgate
pub mod Module
pub mod Netbind
pub mod PoolConfig
pub mod Store
pub mod Wire
