-- ===== src/Execution/Plane/Failures.antt =====
-- internal/execution/plane.go: how often a job has been attempted that is marked as failed.
use hydra_db.Base.{ℕ, ◌≤◌, ◌<◌, ◌≡◌, ◌⊎◌, arith, pos_part, Time, ap, subst}
use hydra_db.Execution.Job.{JobState, Ref, Heap, running, failed}
use hydra_db.Execution.Queue.{dequeue}
use hydra_db.Execution.Plane.{
  Handler, polling, handling, Plane, new_plane, register, schedule_job, set_handler, poll, settle,
  reschedule, close_queue,
}
use hydra_db.Execution.Plane.Jobs.{attempt_int64}
use hydra_db.Execution.Plane.Steps.{
  JobOk, Inv, handled, Step, registers, schedules, takes_due, hands_over, polls, settles,
  reschedules, sets_handler, closes, Reach, here, next, KeepsControl, Steady,
}
use hydra_db.Execution.Plane.Calls.{calls}
use hydra_db.Execution.Plane.Invariant.{AllNew, new_plane-Inv, Reach-Inv, Reach-calls, Reach-jobs}

abbrev Tried : JobState → (attempts max_attempts : ℕ) → Type 0
Tried running a m = 0 < a
Tried failed a m = (0 < a) × (m ≤ a)
Tried _ a m = Unit

module _ (r : Ref) where
  abbrev TriedIn : Plane → Type 0
  TriedIn p = let j = p.heap r in Tried j.state (pos_part j.attempts) (pos_part j.max_attempts)

  poll-Tried :
      (now : Time) (p : Plane) → p.phase ≡ polling → JobOk r p → TriedIn p → TriedIn (poll now p)
  unfolding poll dequeue
  poll-Tried now p e inv h = ground (arith, attempt_int64 (pos_part (p.heap r).attempts))

  settle-Tried :
      (now later : Time) (h : Handler) (job : Ref) (p : Plane)
      → KeepsControl h
      → p.phase ≡ handling h job
      → JobOk r p
      → TriedIn p
      → TriedIn (settle now later h job p)
  unfolding settle
  settle-Tried now later h job p keeps e inv tried =
      ground (arith, keeps.attempts (p.heap job), keeps.max_attempts (p.heap job))

  Step-Tried : {p p' : Plane} → Step p p' → Inv p → TriedIn p → TriedIn p'
  unfolding register schedule_job reschedule set_handler close_queue
  Step-Tried (registers job p o st) inv h = h
  Step-Tried (schedules now job before after p e) inv h = h
  Step-Tried (takes_due now p e) inv h = h
  Step-Tried (hands_over job rest p e) inv h = h
  Step-Tried (polls now p e) inv h = poll-Tried now p e (inv.each r) h
  Step-Tried (settles now later handler job p e) inv h =
      settle-Tried now later handler job p (subst Steady e inv.phase) e (inv.each r) h
  Step-Tried (reschedules now job p e) inv h = h
  Step-Tried (sets_handler handler p k) inv h = h
  Step-Tried (closes p) inv h = h

  Reach-Tried : (heap : Heap) {p : Plane} → AllNew heap → Reach (new_plane heap) p → TriedIn p
  unfolding new_plane
  Reach-Tried heap all here = ground (arith, all r)
  Reach-Tried heap all (next before step) =
      Step-Tried step (Reach-Inv before (new_plane-Inv heap all)) (Reach-Tried heap all before)

-- In every interleaving that starts with new jobs, submits a job only while it is pending and in
-- none of the plane's places, and sets handlers that leave a job's attempts and their maximum alone:
-- a job that is marked as failed has been handled exactly as often as the `MaxAttempts` it began
-- with, or once if that allows no attempt; and no handler runs on it.
pub failed_tried :
    (heap : Heap) {p : Plane}
    → AllNew heap
    → (reach : Reach (new_plane heap) p) → (r : Ref) → (p.heap r).state ≡ failed
    → let most = pos_part (heap r).max_attempts in
      (((0 < most) × (calls r reach ≡ most)) ⊎ ((most ≡ 0) × (calls r reach ≡ 1)))
      × (handled r p.phase ≡ 0)
failed_tried heap {p} all reach r e =
    let inv : Inv p = Reach-Inv reach (new_plane-Inv heap all) in
    let ok : JobOk r p = inv.each r in
    let (made, few, _, _) = Reach-jobs heap all reach r in
    let (_, most) = Reach-calls heap r all reach in
    let tried = Reach-Tried r heap all reach in
    ground (arith, made, few, tried, ok.state_facts, ap pos_part most)
