-- ===== src/Lib.antt =====
-- Hydra: a server of several heads. A gateway turns HTTP requests into envelopes and calls the
-- handler of their action; the handlers ask the policy engine, spawn agents, submit jobs to the
-- execution plane, and write to and search the memory; the heads share a registry, which starts and
-- stops them, and an event bus. A benchmark loads conversations into a memory and scores what is
-- found in it.
--
-- Which file models what:
--   Base         strings, lists, signed integers, Go's maps, the clock, results
--   Execution    internal/execution: Job (job.go), Queue (queue.go), Scheduler (scheduler.go),
--                Plane (plane.go), Dag and Dag.Sort (dag.go), Graphs (SubmitDAG of plane.go); Contract
--                is the interface by which the scheduler uses a queue
--   Policy       internal/policy/engine.go
--   Memory       internal/memory: Types (types.go, provider.go), InMemory
--                (inmemory/provider.go), Plane (plane.go), Tdb and Tdb.Calls (tdb/provider.go)
--   Body         internal/body: Health, Registry, EventBus, Envelope, Trace and Config, each after
--                the file of its name, and Config.Load (LoadConfig of config.go)
--   Llm          internal/llm/client.go
--   Adapter      internal/adapter: cli, http and slack
--   Gateway      internal/gateway/gateway.go
--   Agent        internal/agent: Tools (tool.go), the tools Tools.Records (memory.go),
--                Tools.Completion (llm_complete.go), Tools.TdbSearch (tdb.go) and Tools.HttpRequest
--                (http.go), Executor (executor.go, agent.go, context.go), Runtime (runtime.go)
--   Server       cmd/hydra/main.go: the handlers of "task" and "memory.store"; Queries: those of
--                "memory.search" and "health"; Chat: that of "chat"
--   Bench        bench/locomo: Types (types.go), Dataset (dataset.go, and UnmarshalJSON of types.go),
--                Ingest, Query and Score, each after the file of its name; Smart with its
--                Prompts, Classes and Ingest (strategy_llm.go);
--                Run (strategy_basic.go, and cmd/bench-locomo/main.go)
-- A function has the name of its Go function in small letters; Delete of the provider is `remove`.
--
-- How the code is modelled. A method that holds its lock is a function from state to state. Where
-- goroutines interleave, as in the execution plane, each critical section and each call of a
-- handler is a step of a relation: the processing loop, the scheduler's ticks, the callers of
-- Submit and Stop step in any order. A job is shared by pointer, so the plane keeps a heap of jobs.
-- Times are nanoseconds as natural numbers, generated identifiers and readings of the clock are
-- arguments, and Go's `int` is an integer with the wrap-around of 64 bits written out, but for
-- counts of what is in memory, which are natural numbers. A range over a map takes the order of the
-- visit as an argument, and `Ranges` says what Go promises of it. A panic is a value.
--
-- Bounds. The queue holds 1024 jobs and a subscriber's channel 64 events, as in the code. The
-- executor's loop has fuel, of which `MaxRetries + 2` rounds are enough if `MaxRetries` is below
-- the greatest `int`; with that value the loop need not end, and no fuel is enough. The search for
-- cycles and the last loop of the sort have as much fuel as there are nodes: the search goes from
-- one white node to another, which it paints, and each round of the sort takes out another node.
-- The batches of a session have a round for each turn, and each round takes a turn at least.
--
-- Parameters. The comparison and the arithmetic of float64, files, the parsing of times, the layers
-- of koanf, `sort.Slice` (a stable order is not assumed), `encoding/json`, HTTP clients and the
-- services that they call, HMAC, the trimming of texts, the functions of agents and the contexts
-- that they run in, and the handlers of jobs. The results about the plane assume of a handler that
-- it leaves a job's attempts and their maximum alone.
--
-- Not modelled: the start-up in cmd/hydra, the tickers and the start of goroutines; the flags and
-- the printed report of the benchmark; the sidecar, which is TypeScript around a third-party
-- client; the validation of envelopes by struct tags; and logging.
pub mod Base
pub mod Body
pub mod Execution
pub mod Policy
pub mod Memory
pub mod Llm
pub mod Gateway
pub mod Agent
pub mod Server
pub mod Adapter
pub mod Bench
