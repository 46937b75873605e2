-- ===== src/Agent/Executor.antt =====
-- internal/agent/agent.go and internal/agent/executor.go: an agent, and its execution with retries.
-- The agent's `Func` and its context act on the world outside; what they do in the attempt `i` is
-- `Round`'s `i`-th value.
mod Rounds
pub mod Laws
use hydra_db.Base.{
  ltb_ℤ, add_int, ℕ, zero, suc, ◌+◌, ◌^◌, ◌==◌, String, Bool, true, false, Option, none, some, List,
  [], ◌∷◌, ◌++◌, Outcome, ok, err, if◌then◌else◌, ℤ, pos, pos_part, leb_ℤ, mul_int, int64, Time,
  zero_time, GoMap, empty, put,
}
use hydra_db.Body.Envelope.{Identity, Tenant}

pub data State : Type 0 where
  created running done failed timed_out : State

pub data ContextError : Type 0 where
  canceled deadline_exceeded : ContextError

-- What an execution returns: an error of the function, or of a context.
pub data ExecuteError (E : Type 0) : Type 0 where
  func_error : E → ExecuteError E
  context_error : ContextError → ExecuteError E

-- context.go: `V` is the type of the values in the memory.
pub record Context (V : Type 0) : Type 0 where
  pub session_id : String
  pub actor : Identity
  pub tenant : Tenant
  pub memory : GoMap V
  pub variables : GoMap String

abbrev pub new_context : {V : Type 0} (uuid : String) → Identity → Tenant → Context V
new_context uuid actor tenant = record {
  session_id = uuid;
  actor = actor;
  tenant = tenant;
  memory = empty;
  variables = empty;
}

abbrev pub set : {V : Type 0} → String → V → Context V → Context V
set key value c = record c { memory = put key value c.memory }

abbrev pub get : {V : Type 0} → String → Context V → Option V
get key c = c.memory key

abbrev pub set_var : {V : Type 0} → (key value : String) → Context V → Context V
set_var key value c = record c { variables = put key value c.variables }

abbrev pub get_var : {V : Type 0} → String → Context V → Option String
get_var key c = c.variables key

-- `C` is the type of the context, `T` of a tool, `R` of a result and `E` of an error. The `Func` of
-- the agent is not a field: it is in the rounds of its execution.
module _ (C T R E : Type 0) where
  pub record Agent : Type 0 where
    pub id : String
    pub name : String
    pub state : State
    pub context : Option C
    pub tools : List T
    pub result : Option R
    pub error : Option (ExecuteError E)
    pub created_at : Time
    pub finished_at : Time

  -- What the world does in one attempt: whether the context ends during the pause before it; what
  -- the function makes of the agent and answers; and the error of the attempt's own context, which
  -- is read after its `cancel`.
  pub record Round : Type 0 where
    pub interrupted : Option ContextError
    pub run : Agent → Agent × Outcome E R
    pub ended : ContextError
    pub clock : Time

  abbrev pub AgentOption : Type 0
  AgentOption = Agent → Agent

pub record Executor : Type 0 where
  pub max_retries : ℤ
  pub timeout : ℤ

abbrev pub ExecutorOption : Type 0
ExecutorOption = Executor → Executor

abbrev pub with_max_retries : ℤ → ExecutorOption
with_max_retries n e = record e { max_retries = n }

abbrev pub with_timeout : ℤ → ExecutorOption
with_timeout d e = record e { timeout = d }

apply_all : List ExecutorOption → Executor → Executor
apply_all [] e = e
apply_all (opt ∷ opts) e = apply_all opts (opt e)

unfoldable pub new_executor : List ExecutorOption → Executor
unfolding apply_all
new_executor opts = apply_all opts (record { max_retries = pos 0; timeout = pos 60000000000 })

-- The pause before the attempt `n + 1`: 100 * time.Millisecond * time.Duration(1<<n)
unfoldable pub backoff : ℕ → ℤ
backoff n = mul_int (pos 100000000) (int64 (pos (2 ^ n)))

module _ {C T R E : Type 0} where
  abbrev pub with_tools : List T → AgentOption C T R E
  with_tools tools a = record a { tools = a.tools ++ tools }

  abbrev pub with_context : C → AgentOption C T R E
  with_context c a = record a { context = some c }

  apply_agent_options : List (AgentOption C T R E) → AgentOption C T R E
  apply_agent_options [] a = a
  apply_agent_options (opt ∷ opts) a = apply_agent_options opts (opt a)

  unfoldable pub new_agent :
      (uuid : String) (now : Time) → (name : String) → List (AgentOption C T R E) → Agent C T R E
  unfolding apply_agent_options
  new_agent uuid now name opts = apply_agent_options opts (record {
    id = uuid;
    name = name;
    state = created;
    context = none;
    tools = [];
    result = none;
    error = none;
    created_at = now;
    finished_at = zero_time;
  })

  -- The pause before an attempt is made if `attempt > 0`.
  abbrev pub interrupts : (attempt : ℤ) → Round C T R E → Option ContextError
  interrupts attempt round = if ltb_ℤ (pos 0) attempt then round.interrupted else none

  abbrev pub timed : Time → ContextError → Agent C T R E → Agent C T R E × Option (ExecuteError E)
  timed now e a = (record a { state = timed_out; finished_at = now }, some (context_error e))

  -- The loop `for attempt := 0; attempt <= e.MaxRetries; attempt++`, from the `i`-th attempt on;
  -- `attempt` is an `int` and wraps around. `last` is `lastErr`, and `now` the clock behind the loop.
  -- The loop need not end: `none` says that it has not after `fuel` rounds.
  unfoldable pub attempts_from :
      (now : Time) (rounds : ℕ → Round C T R E) (max_retries : ℤ) (fuel : ℕ) (attempt : ℤ) (i : ℕ)
      → (last : Option (ExecuteError E)) → Agent C T R E
      → Option (Agent C T R E × Option (ExecuteError E))
  attempts_from now rounds max_retries zero attempt i last a = none
  attempts_from now rounds max_retries (suc fuel) attempt i last a =
      elim (leb_ℤ attempt max_retries) [
        | false ↦ some (record a { state = failed; error = last; finished_at = now }, last)
        | true ↦ elim (interrupts attempt (rounds i)) [
          | some e ↦ some (timed (rounds i).clock e a)
          | none ↦
              let (a', r) = (rounds i).run (record a { state = running }) in
              elim r [
                | ok result ↦ some (
                  record a' { state = done; result = some result; finished_at = (rounds i).clock },
                  none,
                )
                | err e ↦ elim (rounds i).ended [
                  | deadline_exceeded ↦ some (timed (rounds i).clock deadline_exceeded a')
                  | canceled ↦
                      attempts_from now rounds max_retries fuel (add_int attempt (pos 1)) (suc i)
                        (some (func_error e)) a'
                ]
              ]
        ]
      ]

  unfoldable pub execute :
      (fuel : ℕ) (now : Time) (rounds : ℕ → Round C T R E)
      → Executor
      → Agent C T R E
      → Option (Agent C T R E × Option (ExecuteError E))
  unfolding attempts_from
  execute fuel now rounds e a = attempts_from now rounds e.max_retries fuel (pos 0) 0 none a
