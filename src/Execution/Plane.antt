-- ===== src/Execution/Plane.antt =====
-- internal/execution/plane.go: jobs are submitted, scheduled, and run by one processing loop with
-- retries. The loop, the scheduler's ticks and the callers run concurrently. Each critical section
-- and each call of the handler is a step of its own here; `Phase` says where the loop stands.
pub mod Steps
mod Jobs
pub mod Calls
pub mod Invariant
pub mod Failures
pub mod Lifecycle
pub mod Retry
pub mod Progress
mod Examples
use hydra_db.Base.{
  ℕ, String, Bool, Option, none, some, List, [], ◌∷◌, ◌++◌, Outcome, ok, err, if◌then◌else◌, ◌==◌,
  ℤ, pos, ltb_ℤ, add_int, mul_int, Time, add_duration, GoMap, empty, put,
}
use hydra_db.Execution.Job.{
  Job, JobState, Ref, Heap, ExecError, job_not_found, running, completed, failed, retrying,
}
use hydra_db.Execution.Queue.{InMemoryQueue, new_queue, dequeue, close}
use hydra_db.Execution.Queue.Laws.{in_memory}
use hydra_db.Execution.Scheduler.{Scheduler, new_scheduler, schedule}

-- A handler may write to the job that it is given, and returns an error or nil.
abbrev pub Handler : Type 0
Handler = Job → Job × Option String

pub data Phase : Type 0 where
  -- at the top of the loop
  polling : Phase
  -- the handler that was read runs on the job
  handling : Handler → Ref → Phase
  -- a failed job has been marked for a retry and is about to be scheduled
  rescheduling : Ref → Phase

pub record Plane : Type 0 where
  pub heap : Heap
  pub jobs : GoMap Ref
  pub scheduler : Scheduler InMemoryQueue
  pub handler : Handler
  pub phase : Phase
  -- what the `flush` under way has taken from `pending` and has not yet handed to the queue
  pub ready : List Ref
  -- what the calls of `Submit` under way have registered and not yet scheduled
  pub submitting : List Ref

unfoldable pub new_plane : Heap → Plane
unfolding new_scheduler new_queue
new_plane heap = record {
  heap = heap;
  jobs = empty;
  scheduler = new_scheduler new_queue;
  handler = λ job. (job, none);
  phase = polling;
  ready = [];
  submitting = [];
}

-- p.jobs[job.ID] = job
unfoldable pub register : Ref → Plane → Plane
register job p = record p { jobs = put (p.heap job).id job p.jobs }

-- p.scheduler.Schedule(job)
unfoldable pub schedule_job : Time → Ref → Plane → Plane × Option ExecError
schedule_job now job p =
    let (s, e) = schedule in_memory p.heap now job p.scheduler in (record p { scheduler = s }, e)

-- `Submit`, with nothing in between.
unfoldable pub submit : Time → Ref → Plane → Plane × Option ExecError
unfolding register schedule_job
submit now job p = schedule_job now job (register job p)

found_job : String → Option Ref → Heap → Outcome ExecError Job
found_job id none heap = err (job_not_found id)
found_job id (some job) heap = ok (heap job)

-- The result is a copy of the job.
get_job : String → Plane → Outcome ExecError Job
unfolding found_job
get_job id p = found_job id (p.jobs id) p.heap

unfoldable pub set_handler : Handler → Plane → Plane
set_handler h p = record p { handler = h }

-- *job = v
abbrev pub write : Ref → Job → Heap → Heap
write r v heap r' = if r == r' then v else heap r'

unfoldable pub mark_running : Time → Job → Job
mark_running now j = record j {
  state = running;
  attempts = add_int j.attempts (pos 1);
  started_at = now;
}

start : Time → Outcome ExecError (Option Ref) → Plane → Plane
unfolding mark_running
start now (ok (some job)) p = record p {
  heap = write job (mark_running now (p.heap job)) p.heap;
  phase = handling p.handler job;
}
start now _ p = p

-- From the top of the loop to the call of the handler. With no job at hand the loop polls again.
unfoldable pub poll : Time → Plane → Plane
unfolding start
poll now p =
    let (q, r) = dequeue p.scheduler.queue in
    start now r (record p { scheduler = record p.scheduler { queue = q } })

-- time.Duration(job.Attempts*job.Attempts) * 100 * time.Millisecond
unfoldable pub backoff : ℤ → ℤ
backoff attempts = mul_int (mul_int (mul_int attempts attempts) (pos 100)) (pos 1000000)

-- The critical section behind the handler; `now` and `later` are its readings of the clock.
unfoldable pub settled : (now later : Time) → Job → Option String → Job
unfolding backoff
settled now later j none = record j { state = completed; finished_at = now }
settled now later j (some e) =
    if ltb_ℤ j.attempts j.max_attempts
    then record j {
      error = e;
      state = retrying;
      finished_at = now;
      run_after = add_duration later (backoff j.attempts);
    }
    else record j { error = e; state = failed; finished_at = now }

abbrev pub phase_after : Ref → JobState → Phase
phase_after job retrying = rescheduling job
phase_after job _ = polling

-- The handler's return, and the critical section behind it.
unfoldable pub settle : (now later : Time) → Handler → Ref → Plane → Plane
unfolding settled
settle now later h job p =
    let (j, e) = h (p.heap job) in
    let j' = settled now later j e in
    record p { heap = write job j' p.heap; phase = phase_after job j'.state }

-- `_ = p.scheduler.Schedule(job)` of a retry
unfoldable pub reschedule : Time → Ref → Plane → Plane
unfolding schedule_job
reschedule now job p = (schedule_job now job (record p { phase = polling })).0

-- What `Stop` does once both loops have ended.
unfoldable pub close_queue : Plane → Plane
close_queue p = record p { scheduler = record p.scheduler { queue = close p.scheduler.queue } }
