-- ===== src/Execution/Scheduler.antt =====
-- internal/execution/scheduler.go: jobs that are not due yet are held back, and a tick flushes those
-- that have become due into the queue. Written against any queue that meets the contract of Execution/Contract.antt.
pub mod Laws
mod Examples
use hydra_db.Base.{
  ℕ, ◌+◌, String, ◌≡◌, Bool, true, false, not, ◌||◌, Option, none, some, List, [], ◌∷◌, ◌++◌,
  if◌then◌else◌, Time, is_zero, before,
}
use hydra_db.Execution.Job.{Job, Ref, Heap, ExecError}
use hydra_db.Execution.Contract.{QueueOps}

pub record Scheduler (Q : Type 0) : Type 0 where
  pub queue : Q
  pub pending : List Ref

unfoldable pub new_scheduler : {Q : Type 0} → Q → Scheduler Q
new_scheduler q = record { queue = q; pending = [] }

-- The test of `Schedule`, on the job's time and the clock.
abbrev pub is_due : Heap → Time → Ref → Bool
is_due heap now job = is_zero (heap job).run_after || not (before now (heap job).run_after)

-- The loop of `flush`, which splits `pending` into `ready` and `remaining`.
unfoldable pub split_due : Heap → Time → List Ref → List Ref × List Ref
split_due heap now [] = ([], [])
split_due heap now (job ∷ jobs) =
    let (ready, remaining) = split_due heap now jobs in
    if not (before now (heap job).run_after)
    then (job ∷ ready, remaining)
    else (ready, job ∷ remaining)

module _ {Q : Type 0} (ops : QueueOps Q) where
  unfoldable pub schedule : Heap → Time → Ref → Scheduler Q → Scheduler Q × Option ExecError
  schedule heap now job s =
      if is_due heap now job
      then (let (q, e) = ops.enqueue job s.queue in (record s { queue = q }, e))
      else (record s { pending = s.pending ++ job ∷ [] }, none)

  -- The second loop of `flush`: each error is dropped, `_ = s.queue.Enqueue(job)`.
  enqueue_all : List Ref → Scheduler Q → Scheduler Q
  enqueue_all [] s = s
  enqueue_all (job ∷ jobs) s = enqueue_all jobs (record s { queue = (ops.enqueue job s.queue).0 })

  unfoldable pub flush : Heap → Time → Scheduler Q → Scheduler Q
  unfolding split_due enqueue_all
  flush heap now s =
      let (ready, remaining) = split_due heap now s.pending in
      enqueue_all ready (record s { pending = remaining })
