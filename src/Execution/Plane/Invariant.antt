-- ===== src/Execution/Plane/Invariant.antt =====
-- internal/execution/plane.go: the invariant of the plane under every interleaving.
use hydra_db.Base.{
  ◌+◌, ◌∙◌, ◌≤◌, ◌<◌, ◌^◌, ◌≡◌, ◌≢◌, refl, ◌⊎◌, arith, length, pos, pos_part, Time, ap, subst,
}
use hydra_db.Execution.Job.{JobState, Ref, Heap, pending, completed, failed, retrying}
use hydra_db.Execution.Queue.{InMemoryQueue, capacity, dequeue, close}
use hydra_db.Execution.Queue.Laws.{in_memory, enqueue-le-capacity}
use hydra_db.Execution.Scheduler.{schedule}
use hydra_db.Execution.Plane.{
  polling, Plane, phase_after, new_plane, register, schedule_job, set_handler, poll, settle,
  reschedule, close_queue,
}
use hydra_db.Execution.Plane.Steps.{
  KeepsControl, Steady, JobOk, Inv, owned, handled, Step, registers, schedules, takes_due,
  hands_over, polls, settles, reschedules, sets_handler, closes, Reach, here, next,
}
use hydra_db.Execution.Plane.Calls.{calls, Step-Counts}
use hydra_db.Execution.Plane.Jobs.{
  begin_submit-JobOk, end_submit-JobOk, take_due-JobOk, hand_over-JobOk, poll-JobOk, settle-JobOk,
  reschedule-JobOk,
}

schedule-le-capacity :
    (now : Time) (job : Ref) (p : Plane)
    → length p.scheduler.queue.ch ≤ capacity
    → length (schedule in_memory p.heap now job p.scheduler).0.queue.ch ≤ capacity
unfolding schedule
schedule-le-capacity now job p h = ground (arith, enqueue-le-capacity job p.scheduler.queue)

poll_shared :
    (now : Time) (p : Plane)
    → p.phase ≡ polling
    → Inv p
    → (length (poll now p).scheduler.queue.ch ≤ capacity)
      × KeepsControl (poll now p).handler
      × Steady (poll now p).phase
unfolding poll dequeue
poll_shared now p e inv = ground (arith, inv.bounded, inv.handler)

pub ch-close : (q : InMemoryQueue) → (close q).ch ≡ q.ch
unfolding close
ch-close q = ground arith

Steady-after : (job : Ref) (s : JobState) → Steady (phase_after job s)
Steady-after job retrying = tt
Steady-after job _ = tt

-- Every step keeps the invariant.
pub Step-Inv : {p p' : Plane} → Step p p' → Inv p → Inv p'
unfolding register schedule_job settle reschedule set_handler close_queue
Step-Inv (registers job p o st) inv = record {
  bounded = inv.bounded;
  handler = inv.handler;
  phase = inv.phase;
  each = λ r. begin_submit-JobOk r job p o st (inv.each r);
}
Step-Inv (schedules now job before after p e) inv = record {
  bounded = schedule-le-capacity now job p inv.bounded;
  handler = inv.handler;
  phase = inv.phase;
  each = λ r. end_submit-JobOk r now job before after p e (inv.each r);
}
Step-Inv (takes_due now p e) inv = record {
  bounded = inv.bounded;
  handler = inv.handler;
  phase = inv.phase;
  each = λ r. take_due-JobOk r now p e (inv.each r);
}
Step-Inv (hands_over job rest p e) inv = record {
  bounded = enqueue-le-capacity job p.scheduler.queue inv.bounded;
  handler = inv.handler;
  phase = inv.phase;
  each = λ r. hand_over-JobOk r job rest p e (inv.each r);
}
Step-Inv (polls now p e) inv =
    let (b, h, s) = poll_shared now p e inv in
    record { bounded = b; handler = h; phase = s; each = λ r. poll-JobOk r now p e (inv.each r) }
Step-Inv (settles now later h job p e) inv = record {
  bounded = inv.bounded;
  handler = inv.handler;
  phase = Steady-after job _;
  each = λ r. settle-JobOk r now later h job p (subst Steady e inv.phase) e (inv.each r);
}
Step-Inv (reschedules now job p e) inv = record {
  bounded = schedule-le-capacity now job (record p { phase = polling }) inv.bounded;
  handler = inv.handler;
  phase = tt;
  each = λ r. reschedule-JobOk r now job p e (inv.each r);
}
Step-Inv (sets_handler h p k) inv = record {
  bounded = inv.bounded;
  handler = k;
  phase = inv.phase;
  each = λ r. inv.each r;
}
Step-Inv (closes p) inv = record {
  bounded = omega (arith, inv.bounded, ap length (ch-close p.scheduler.queue));
  handler = inv.handler;
  phase = inv.phase;
  each = λ r. ground (arith, inv.each r, ch-close p.scheduler.queue);
}

-- A heap of jobs as `NewJob` makes them: none has been submitted yet.
abbrev pub AllNew : Heap → Type 0
AllNew heap =
    (r : Ref)
    → ((heap r).state ≡ pending)
      × ((heap r).attempts ≡ pos 0)
      × (pos_part (heap r).max_attempts < 2 ^ 63)

pub new_plane-Inv : (heap : Heap) → AllNew heap → Inv (new_plane heap)
unfolding new_plane
new_plane-Inv heap all = record {
  bounded = omega arith;
  handler = record { attempts = λ j. refl; max_attempts = λ j. refl };
  phase = tt;
  each = λ r. ground (arith, all r);
}

pub Reach-Inv : {p p' : Plane} → Reach p p' → Inv p → Inv p'
Reach-Inv here inv = inv
Reach-Inv (next before step) inv = Step-Inv step (Reach-Inv before inv)

pub Reach-calls :
    (heap : Heap) {p : Plane} (r : Ref)
    → AllNew heap
    → (reach : Reach (new_plane heap) p)
    → (calls r reach + handled r p.phase ≡ pos_part (p.heap r).attempts)
      × ((p.heap r).max_attempts ≡ (heap r).max_attempts)
unfolding calls new_plane
Reach-calls heap r all here = ground (arith, all r)
Reach-calls heap r all (next before step) =
    let (counted, most) = Reach-calls heap r all before in
    let (counts, kept) = Step-Counts r step (Reach-Inv before (new_plane-Inv heap all)) in
    (omega (arith, counted, counts), kept ∙ most)

-- In every interleaving that starts with new jobs, submits a job only while it is pending and in
-- none of the plane's places, and sets handlers that leave a job's attempts and their maximum
-- alone: the calls of handlers on a job, with the one under way, are as many as its attempts, and no
-- more than the `MaxAttempts` it began with, or one if that allows none; a job stands in one place at
-- most, that is the queue, the held back jobs, a flush, a call of `Submit`, or the processing loop;
-- and one that is completed or failed stands in none.
pub Reach-jobs :
    (heap : Heap) {p : Plane}
    → AllNew heap
    → (reach : Reach (new_plane heap) p) → (r : Ref)
    → let j = p.heap r in
      let made = calls r reach + handled r p.phase in
      (made ≡ pos_part j.attempts)
      × ((made ≤ 1) ⊎ (made ≤ pos_part (heap r).max_attempts))
      × (owned r p ≤ 1)
      × ((owned r p ≡ 0) ⊎ (j.state ≢ completed) × (j.state ≢ failed))
Reach-jobs heap {p} all reach r =
    let inv : Inv p = Reach-Inv reach (new_plane-Inv heap all) in
    let ok : JobOk r p = inv.each r in
    let (counted, most) = Reach-calls heap r all reach in
    (counted, ground (arith, ok.within, counted, ap pos_part most), ground arith, ground arith)

-- The queue of a reachable plane never holds more than its 1024 places.
pub Reach-queue :
    (heap : Heap) {p : Plane}
    → AllNew heap
    → Reach (new_plane heap) p
    → length p.scheduler.queue.ch ≤ capacity
Reach-queue heap all reach = (Reach-Inv reach (new_plane-Inv heap all)).bounded
