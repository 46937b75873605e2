-- ===== src/Execution/Plane/Lifecycle.antt =====
-- internal/execution/plane.go: how a job's state changes, and what becomes of a job that is waiting.
use hydra_db.Base.{
  ◌+◌, ◌≤◌, ◌≡◌, refl, ◌⊎◌, inl, true, [], ◌∷◌, arith, count, count-append, length, Time, ap,
}
use hydra_db.Execution.Job.{JobState, Ref, pending, running, completed, failed, retrying}
use hydra_db.Execution.Queue.{InMemoryQueue, capacity, enqueue, dequeue}
use hydra_db.Execution.Queue.Laws.{in_memory}
use hydra_db.Execution.Scheduler.{schedule}
use hydra_db.Execution.Scheduler.Laws.{count-split_due}
use hydra_db.Execution.Plane.{
  Handler, polling, handling, Plane, register, schedule_job, set_handler, poll, settle, reschedule,
  close_queue,
}
use hydra_db.Execution.Plane.Invariant.{ch-close}
use hydra_db.Execution.Plane.Steps.{
  JobOk, Inv, owned, Step, registers, schedules, takes_due, hands_over, polls, settles, reschedules,
  sets_handler, closes,
}

-- The lifecycle of a job.
infix 40 ◌⟶◌
pub data ◌⟶◌ : JobState → JobState → Type 0 where
  start_new : pending ⟶ running
  start_again : retrying ⟶ running
  succeed : running ⟶ completed
  retry : running ⟶ retrying
  give_up : running ⟶ failed

abbrev Moves : JobState → JobState → Type 0
Moves s s' = (s' ≡ s) ⊎ (s ⟶ s')

poll-Moves :
    (now : Time) (p : Plane) (r : Ref)
    → p.phase ≡ polling
    → JobOk r p
    → Moves (p.heap r).state ((poll now p).heap r).state
unfolding poll dequeue
poll-Moves now p r e inv = grind (arith, start_new, start_again)

settle-Moves :
    (now later : Time) (h : Handler) (job : Ref) (p : Plane) (r : Ref)
    → p.phase ≡ handling h job
    → JobOk r p
    → Moves (p.heap r).state ((settle now later h job p).heap r).state
unfolding settle
settle-Moves now later h job p r e inv = grind (arith, succeed, retry, give_up)

-- From a plane that satisfies the invariant, a step either leaves the state of a job or moves it
-- along an edge of the lifecycle.
pub Step-Moves :
    {p p' : Plane} → Step p p' → Inv p → (r : Ref) → Moves (p.heap r).state (p'.heap r).state
unfolding register schedule_job reschedule set_handler close_queue
Step-Moves (polls now p e) inv r = poll-Moves now p r e (inv.each r)
Step-Moves (settles now later h job p e) inv r = settle-Moves now later h job p r e (inv.each r)
Step-Moves (registers job p o st) inv r = inl refl
Step-Moves (schedules now job before after p e) inv r = inl refl
Step-Moves (takes_due now p e) inv r = inl refl
Step-Moves (hands_over job rest p e) inv r = inl refl
Step-Moves (reschedules now job p e) inv r = inl refl
Step-Moves (sets_handler h p k) inv r = inl refl
Step-Moves (closes p) inv r = inl refl

-- The queue takes no job: it is closed or full.
abbrev pub Refuses : InMemoryQueue → Type 0
Refuses q = (q.closed ≡ true) ⊎ (capacity ≤ length q.ch)

abbrev pub IsFinal : JobState → Type 0
IsFinal s = (s ≡ completed) ⊎ (s ≡ failed)

enqueue_keeps :
    (r job : Ref) (q : InMemoryQueue)
    → (count r (enqueue job q).0.ch ≡ count r q.ch + count r (job ∷ [])) ⊎ Refuses q
unfolding enqueue
enqueue_keeps r job q = ground (arith, count-append r q.ch (job ∷ []))

schedule_keeps :
    (now : Time) (r job : Ref) (p : Plane)
    → let s = (schedule in_memory p.heap now job p.scheduler).0 in
      (count r s.queue.ch + count r s.pending
        ≡ count r p.scheduler.queue.ch + count r p.scheduler.pending + count r (job ∷ []))
      ⊎ Refuses p.scheduler.queue
unfolding schedule
schedule_keeps now r job p =
    ground
      (arith, enqueue_keeps r job p.scheduler.queue, count-append r p.scheduler.pending (job ∷ []))

abbrev Kept : Ref → Plane → Plane → Type 0
Kept r p p' = (owned r p' ≡ 1) ⊎ IsFinal (p'.heap r).state ⊎ Refuses p.scheduler.queue

poll-Kept :
    (now : Time) (p : Plane) (r : Ref) → p.phase ≡ polling → owned r p ≡ 1 → Kept r p (poll now p)
unfolding poll dequeue
poll-Kept now p r e o = ground arith

settle-Kept :
    (now later : Time) (h : Handler) (job : Ref) (p : Plane) (r : Ref)
    → p.phase ≡ handling h job
    → owned r p ≡ 1
    → Kept r p (settle now later h job p)
unfolding settle
settle-Kept now later h job p r e o = ground arith

-- From a plane that satisfies the invariant, no step loses a job that stands in one of its places:
-- it still stands in one afterwards, unless it is now completed or failed, or the queue was closed
-- or full before the step.
pub Step-owned :
    {p p' : Plane}
    → Step p p'
    → Inv p
    → (r : Ref) → owned r p ≡ 1
    → (owned r p' ≡ 1) ⊎ IsFinal (p'.heap r).state ⊎ Refuses p.scheduler.queue
unfolding register schedule_job reschedule set_handler close_queue
Step-owned (polls now p e) inv r o = poll-Kept now p r e o
Step-owned (settles now later h job p e) inv r o = settle-Kept now later h job p r e o
Step-owned (registers job p z st) inv r o = ground arith
Step-owned (schedules now job before after p e) inv r o = ground (
  arith,
  schedule_keeps now r job p,
  ap (count r) e,
  count-append r before (job ∷ after),
  count-append r before after,
)
Step-owned (takes_due now p e) inv r o =
    ground (arith, count-split_due p.heap now r p.scheduler.pending)
Step-owned (hands_over job rest p e) inv r o =
    ground (arith, enqueue_keeps r job p.scheduler.queue, ap (count r) e)
Step-owned (reschedules now job p e) inv r o = ground (arith, schedule_keeps now r job p)
Step-owned (sets_handler h p k) inv r o = inl o
Step-owned (closes p) inv r o = ground (arith, ch-close p.scheduler.queue)

poll_final :
    (now : Time) (p : Plane) (r : Ref)
    → p.phase ≡ polling
    → JobOk r p
    → IsFinal (p.heap r).state
    → (poll now p).heap r ≡ p.heap r
unfolding poll dequeue
poll_final now p r e inv f = ground arith

settle_final :
    (now later : Time) (h : Handler) (job : Ref) (p : Plane) (r : Ref)
    → p.phase ≡ handling h job
    → JobOk r p
    → IsFinal (p.heap r).state
    → (settle now later h job p).heap r ≡ p.heap r
unfolding settle
settle_final now later h job p r e inv f = ground arith

-- From a plane that satisfies the invariant, no step changes any field of a completed or failed
-- job.
pub Step-final :
    {p p' : Plane} → Step p p' → Inv p → (r : Ref) → IsFinal (p.heap r).state → p'.heap r ≡ p.heap r
unfolding register schedule_job reschedule set_handler close_queue
Step-final (polls now p e) inv r f = poll_final now p r e (inv.each r) f
Step-final (settles now later h job p e) inv r f = settle_final now later h job p r e (inv.each r) f
Step-final (registers job p o st) inv r f = refl
Step-final (schedules now job before after p e) inv r f = refl
Step-final (takes_due now p e) inv r f = refl
Step-final (hands_over job rest p e) inv r f = refl
Step-final (reschedules now job p e) inv r f = refl
Step-final (sets_handler h p k) inv r f = refl
Step-final (closes p) inv r f = refl
