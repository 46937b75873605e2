-- ===== src/Execution/Job.antt =====
-- internal/execution/job.go, and the errors of the package.
use hydra_db.Base.{ℕ, String, List, [], ◌∷◌, ℤ, pos, Time, zero_time}

pub data JobState : Type 0 where
  pending running completed failed retrying : JobState

-- The errors that the package makes with `fmt.Errorf`.
pub data ExecError : Type 0 where
  queue_closed queue_full : ExecError
  job_not_found : String → ExecError
  job_exists : String → ExecError
  parent_not_found : String → ExecError
  child_not_found : String → ExecError
  creates_cycle : String → String → ExecError
  has_a_cycle : ExecError
  topological_sort : ExecError → ExecError
  schedule_job : String → ExecError → ExecError

-- A payload and a result are raw JSON, kept as text.
pub record Job : Type 0 where
  pub id : String
  pub type : String
  pub payload : String
  pub state : JobState
  pub result : String
  pub error : String
  pub attempts : ℤ
  pub max_attempts : ℤ
  pub created_at : Time
  pub started_at : Time
  pub finished_at : Time
  pub run_after : Time

-- A `*Job`: jobs are shared by pointer, and a `Heap` says what each pointer points to.
abbrev pub Ref : Type 0
Ref = ℕ

abbrev pub Heap : Type 0
Heap = Ref → Job

abbrev pub JobOption : Type 0
JobOption = Job → Job

pub with_max_attempts : ℤ → JobOption
with_max_attempts n j = record j { max_attempts = n }

pub with_run_after : Time → JobOption
with_run_after t j = record j { run_after = t }

pub with_result : String → JobOption
with_result r j = record j { result = r }

apply_options : List JobOption → Job → Job
apply_options [] j = j
apply_options (opt ∷ opts) j = apply_options opts (opt j)

-- `uuid` is the generated identifier and `now` the clock.
unfoldable pub new_job : (uuid : String) (now : Time) → String → String → List JobOption → Job
unfolding apply_options with_max_attempts with_run_after with_result
new_job uuid now job_type payload opts = apply_options opts (record {
  id = uuid;
  type = job_type;
  payload = payload;
  state = JobState.pending;
  result = "";
  error = "";
  attempts = pos 0;
  max_attempts = pos 3;
  created_at = now;
  started_at = zero_time;
  finished_at = zero_time;
  run_after = zero_time;
})
