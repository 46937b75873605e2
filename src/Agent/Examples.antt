-- ===== src/Agent/Examples.antt =====
-- internal/agent: the theorems at concrete inputs.
use hydra_db.Base.{
  int64, Option, some, arith, ◌^◌, ◌-◌, ℕ, ◌≡◌, ◌≢◌, ◌⊎◌, refl, String, false, none, [], empty, ok,
  err, ltb, pos, leb_ℤ, if◌then◌else◌,
}
use hydra_db.Agent.Tools.{Tool, tool_not_found, get}
use hydra_db.Agent.Executor.{
  created, done, failed, timed_out, ContextError, canceled, Agent, Round, Executor, ExecuteError,
  attempts_from, execute,
}
use hydra_db.Agent.Executor.Laws.{execute-state, execute_endless}
use hydra_db.Agent.Runtime.{Runtime}

abbrev echo : Tool ℕ
echo = record { name = "echo"; execute = 1 }

free : get "echo" (empty {V = Tool ℕ}) ≡ err (tool_not_found "echo")
unfolding get
free = refl

abbrev Worker : Type 0
Worker = Agent ℕ (Tool ℕ) ℕ String

abbrev worker : Worker
worker = record {
  id = "w1";
  name = "worker";
  state = created;
  context = none;
  tools = [];
  result = none;
  error = none;
  created_at = 1;
  finished_at = 0;
}

-- The function fails until the attempt `n`, and the context of that attempt ends as `ended`.
abbrev rounds : (n : ℕ) (ended : ContextError) → ℕ → Round ℕ (Tool ℕ) ℕ String
rounds n ended i = record {
  interrupted = none;
  run = λ a. (a, if ltb i n then err "busy" else ok 42);
  ended = ended;
  clock = 100;
}

abbrev twice : Executor
twice = record { max_retries = pos 2; timeout = pos 60 }

-- The first attempt and the first retry fail, and the second retry succeeds.
execute_run :
    execute 4 200 (rounds 2 canceled) twice worker
    ≡ some (record worker { state = done; result = some 42; finished_at = 100 }, none)
unfolding execute attempts_from int64
execute_run = refl

execute-state_example :
    (a' : Worker) × (e : Option (ExecuteError String)) × (execute 4 200
        (rounds 5 canceled)
        twice
        worker
      ≡ some (a', e))
    × (((a'.state ≡ done) × (e ≡ none))
        ⊎ ((a'.state ≡ timed_out) × (e ≢ none))
        ⊎ ((a'.state ≡ failed) × (a'.error ≡ e) × ((e ≢ none) ⊎ (leb_ℤ (pos 0) (pos 2) ≡ false))))
execute-state_example = execute-state 200 (rounds 5 canceled) 4 twice worker refl (omega arith)

abbrev greedy : Executor
greedy = record { max_retries = pos (2 ^ 63 - 1); timeout = pos 60 }

abbrev hopeless : ℕ → Round ℕ (Tool ℕ) ℕ String
hopeless i = record {
  interrupted = none;
  run = λ a. (a, err "busy");
  ended = canceled;
  clock = 100;
}

endless_run : execute 9 200 hopeless greedy worker ≡ none
endless_run =
    execute_endless 200 hopeless 9 (pos 60) worker (λ j. refl) (λ j. refl) (λ j b. ("busy", refl))

abbrev runtime : Runtime ℕ ℕ ℕ String
runtime = record {
  registry = empty;
  executor = record { max_retries = pos 0; timeout = pos 60 };
  agents = empty;
  cancel_fns = empty;
}
