-- ===== src/Agent/Runtime.antt =====
-- internal/agent/runtime.go: the agents that were spawned. The map holds pointers; an agent in it is
-- what its pointer shows.
use hydra_db.Base.{
  ℕ, String, ◌≡◌, Option, none, some, List, [], map, Outcome, ok, err, arith, if◌then◌else◌, GoMap,
  empty, put, delete, Time, str_eq, eq_iff,
}
use hydra_db.Body.Health.{HealthReport, healthy}
use hydra_db.Agent.Tools.{Tool, ToolRegistry, ToolError, new_tool_registry, register}
use hydra_db.Agent.Executor.{
  Agent, AgentOption, Round, Executor, ExecuteError, new_executor, new_agent, execute,
}

pub data RuntimeError (E : Type 0) : Type 0 where
  execution_failed : String → ExecuteError E → RuntimeError E
  agent_not_found : String → RuntimeError E

abbrev pub wrap : {E : Type 0} → String → Option (ExecuteError E) → Option (RuntimeError E)
wrap name none = none
wrap name (some e) = some (execution_failed name e)

module _ (C T R E : Type 0) where
  -- Of `cancelFns`, the identifiers that have an entry.
  pub record Runtime : Type 0 where
    pub registry : ToolRegistry T
    pub executor : Executor
    pub agents : GoMap (Agent C (Tool T) R E)
    pub cancel_fns : GoMap {0} Unit

module _ {C T R E : Type 0} where
  unfoldable pub new_runtime : Runtime C T R E
  unfolding new_tool_registry new_executor
  new_runtime = record {
    registry = new_tool_registry;
    executor = new_executor [];
    agents = empty;
    cancel_fns = empty;
  }

  -- The cancelled contexts are those of the identifiers in `cancel_fns`.
  unfoldable pub stop : Runtime C T R E → Runtime C T R E
  stop r = record r { cancel_fns = empty }

  health : Runtime C T R E → HealthReport
  health r = record { head = "agent"; status = healthy; detail = "" }

  -- The first critical section of `Spawn`; the second, behind the execution.
  unfoldable pub begin_spawn : Agent C (Tool T) R E → Runtime C T R E → Runtime C T R E
  begin_spawn a r = record r { agents = put a.id a r.agents; cancel_fns = put a.id tt r.cancel_fns }

  unfoldable pub end_spawn :
      (id : String) → Agent C (Tool T) R E → Runtime C T R E → Runtime C T R E
  end_spawn id a r = record r { agents = put id a r.agents; cancel_fns = delete id r.cancel_fns }

  -- `Spawn`. Other calls between the two sections are `others`. It gives no agent back if the
  -- execution has not ended after `fuel` rounds: then the second section is still to come.
  unfoldable pub spawn :
      (fuel : ℕ) (uuid : String) (created now : Time) (rounds : ℕ → Round C (Tool T) R E)
      → (others : Runtime C T R E → Runtime C T R E) → (name : String)
      → List (AgentOption C (Tool T) R E)
      → Runtime C T R E
      → Runtime C T R E × Option (Agent C (Tool T) R E × Option (RuntimeError E))
  unfolding begin_spawn end_spawn
  spawn fuel uuid created now rounds others name opts r =
      let a = new_agent uuid created name opts in
      let r' = others (begin_spawn a r) in
      elim (execute fuel now rounds r.executor a) [
        | none ↦ (r', none)
        | some (a', e) ↦ (end_spawn a.id a' r', some (a', wrap name e))
      ]

  unfoldable pub get_agent :
      String → Runtime C T R E → Outcome (RuntimeError E) (Agent C (Tool T) R E)
  get_agent id r = elim (r.agents id) [ none ↦ err (agent_not_found id) | some a ↦ ok a ]

  -- `ListAgents`, for the order of the visit.
  abbrev pub list_agents : List (String × Agent C (Tool T) R E) → List (Agent C (Tool T) R E)
  list_agents order = map (λ (x : String × Agent C (Tool T) R E). x.1) order

  unfoldable pub register_tool : Tool T → Runtime C T R E → Runtime C T R E × Option ToolError
  register_tool tool r =
      let (registry, e) = register tool r.registry in (record r { registry = registry }, e)

  -- Whatever other calls come in between, the agent of a `Spawn` whose execution ends can be looked up
  -- afterwards with the state in which that left it, succeeded or not; its context is no longer held
  -- for a cancellation; and every other agent is as those calls left it.
  pub get_agent-spawn :
      (fuel : ℕ) (uuid : String) (created now : Time) (rounds : ℕ → Round C (Tool T) R E)
      (others : Runtime C T R E → Runtime C T R E) (name other : String)
      (opts : List (AgentOption C (Tool T) R E)) (r : Runtime C T R E) {a' : Agent C (Tool T) R E}
      {e : Option (ExecuteError E)}
      → execute fuel now rounds r.executor (new_agent uuid created name opts) ≡ some (a', e)
      → let a = new_agent uuid created name opts in
        let (r', result) = spawn fuel uuid created now rounds others name opts r in
        (result ≡ some (a', wrap name e))
        × (get_agent a.id r' ≡ ok a')
        × (r'.cancel_fns a.id ≡ none)
        × (r'.agents other
            ≡ (if str_eq a.id other then some a' else (others (begin_spawn a r)).agents other))
  unfolding spawn get_agent
  get_agent-spawn fuel uuid created now rounds others name other opts r run =
      rw (run, spawn)
        (ground (
          arith,
          eq_iff (new_agent uuid created name opts).id (new_agent uuid created name opts).id,
        ))
