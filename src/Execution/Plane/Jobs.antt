-- ===== src/Execution/Plane/Jobs.antt =====
-- internal/execution/plane.go: the invariant of one job under each step of the plane.
use hydra_db.Base.{
  ℕ, ◌+◌, ◌-◌, ◌≤◌, ◌<◌, ◌^◌, ◌≡◌, List, [], ◌∷◌, ◌++◌, arith, count, count-append, pos, pos_part,
  Time, int64, ap,
}
use hydra_db.Execution.Job.{Ref, pending}
use hydra_db.Execution.Queue.{InMemoryQueue, enqueue, dequeue}
use hydra_db.Execution.Queue.Laws.{in_memory}
use hydra_db.Execution.Scheduler.{schedule}
use hydra_db.Execution.Scheduler.Laws.{count-split_due}
use hydra_db.Execution.Plane.{
  Handler, polling, handling, rescheduling, Plane, register, schedule_job, poll, settle, reschedule,
}
use hydra_db.Execution.Plane.Steps.{
  begin_submit, end_submit, take_due, hand_over, KeepsControl, JobOk, owned,
}

-- Fewer than 2 ^ 63 attempts have been made, so the count does not wrap.
pub attempt_int64 : (n : ℕ) → n < 2 ^ 63 - 1 → int64 (pos (n + 1)) ≡ pos (n + 1)
unfolding int64
attempt_int64 n h = ground arith

module _ (r : Ref) where
  pub begin_submit-JobOk :
      (job : Ref) (p : Plane)
      → owned job p ≡ 0
      → (p.heap job).state ≡ pending
      → JobOk r p
      → JobOk r (begin_submit job p)
  unfolding register
  begin_submit-JobOk job p h st inv = ground arith

  pub settle-JobOk :
      (now later : Time) (h : Handler) (job : Ref) (p : Plane)
      → KeepsControl h
      → p.phase ≡ handling h job
      → JobOk r p
      → JobOk r (settle now later h job p)
  unfolding settle
  settle-JobOk now later h job p keeps e inv =
      ground (arith, keeps.attempts (p.heap job), keeps.max_attempts (p.heap job))

  pub take_due-JobOk :
      (now : Time) (p : Plane) → p.ready ≡ [] → JobOk r p → JobOk r (take_due now p)
  take_due-JobOk now p e inv = ground (arith, count-split_due p.heap now r p.scheduler.pending)

  enqueue-count-le :
      (job : Ref) (q : InMemoryQueue)
      → count r (enqueue job q).0.ch ≤ count r q.ch + count r (job ∷ [])
  unfolding enqueue
  enqueue-count-le job q = ground (arith, count-append r q.ch (job ∷ []))

  pub hand_over-JobOk :
      (job : Ref) (rest : List Ref) (p : Plane)
      → p.ready ≡ job ∷ rest
      → JobOk r p
      → JobOk r (hand_over job rest p)
  hand_over-JobOk job rest p e inv =
      ground (arith, enqueue-count-le job p.scheduler.queue, ap (count r) e)

  schedule-count-le :
      (now : Time) (job : Ref) (p : Plane)
      → let s = (schedule in_memory p.heap now job p.scheduler).0 in
        count r s.queue.ch + count r s.pending
        ≤ count r p.scheduler.queue.ch + count r p.scheduler.pending + count r (job ∷ [])
  unfolding schedule
  schedule-count-le now job p =
      ground (
        arith,
        enqueue-count-le job p.scheduler.queue,
        count-append r p.scheduler.pending (job ∷ []),
      )

  pub end_submit-JobOk :
      (now : Time) (job : Ref) (before after : List Ref) (p : Plane)
      → p.submitting ≡ before ++ job ∷ after
      → JobOk r p
      → JobOk r (end_submit now job (before ++ after) p)
  unfolding schedule_job
  end_submit-JobOk now job before after p e inv = ground (
    arith,
    schedule-count-le now job p,
    ap (count r) e,
    count-append r before (job ∷ after),
    count-append r before after,
  )

  pub reschedule-JobOk :
      (now : Time) (job : Ref) (p : Plane)
      → p.phase ≡ rescheduling job
      → JobOk r p
      → JobOk r (reschedule now job p)
  unfolding reschedule
  reschedule-JobOk now job p e inv = ground (arith, schedule-count-le now job p)

  pub poll-JobOk : (now : Time) (p : Plane) → p.phase ≡ polling → JobOk r p → JobOk r (poll now p)
  unfolding poll dequeue
  poll-JobOk now p e inv = ground (arith, attempt_int64 (pos_part (p.heap r).attempts))
