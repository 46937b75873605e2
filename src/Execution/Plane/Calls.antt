-- ===== src/Execution/Plane/Calls.antt =====
-- internal/execution/plane.go: how often the processing loop calls a handler on a job.
use hydra_db.Base.{ℕ, ◌+◌, ◌≡◌, refl, [], ◌∷◌, arith, count, pos_part, Time, subst}
use hydra_db.Execution.Job.{Ref}
use hydra_db.Execution.Queue.{dequeue}
use hydra_db.Execution.Plane.{
  Handler, polling, handling, Plane, register, schedule_job, set_handler, poll, settle, reschedule,
  close_queue,
}
use hydra_db.Execution.Plane.Jobs.{attempt_int64}
use hydra_db.Execution.Plane.Steps.{
  KeepsControl, Steady, JobOk, Inv, Step, registers, schedules, takes_due, hands_over, polls,
  settles, reschedules, sets_handler, closes, Reach, here, next, handled,
}

module _ (r : Ref) where
  -- The returns of handlers that were called on the job, in one step and in an interleaving.
  abbrev pub call_in : {p p' : Plane} → Step p p' → ℕ
  call_in (settles now later h job p e) = count r (job ∷ [])
  call_in _ = 0

  unfoldable pub calls : {p p' : Plane} → Reach p p' → ℕ
  calls here = 0
  calls (next before step) = calls before + call_in step

  -- What a step does to the count of the attempts, and that it keeps their maximum.
  abbrev pub Counts : (p p' : Plane) → (call : ℕ) → Type 0
  Counts p p' call =
      (pos_part (p'.heap r).attempts + handled r p.phase
        ≡ pos_part (p.heap r).attempts + handled r p'.phase + call)
      × ((p'.heap r).max_attempts ≡ (p.heap r).max_attempts)

  poll-Counts : (now : Time) (p : Plane) → p.phase ≡ polling → JobOk r p → Counts p (poll now p) 0
  unfolding poll dequeue
  poll-Counts now p e inv = ground (arith, attempt_int64 (pos_part (p.heap r).attempts))

  settle-Counts :
      (now later : Time) (h : Handler) (job : Ref) (p : Plane)
      → KeepsControl h
      → p.phase ≡ handling h job
      → Counts p (settle now later h job p) (count r (job ∷ []))
  unfolding settle
  settle-Counts now later h job p keeps e =
      ground (arith, keeps.attempts (p.heap job), keeps.max_attempts (p.heap job))

  pub Step-Counts : {p p' : Plane} (step : Step p p') → Inv p → Counts p p' (call_in step)
  unfolding register schedule_job reschedule set_handler close_queue
  Step-Counts (registers job p o st) inv = (omega arith, refl)
  Step-Counts (schedules now job before after p e) inv = (omega arith, refl)
  Step-Counts (takes_due now p e) inv = (omega arith, refl)
  Step-Counts (hands_over job rest p e) inv = (omega arith, refl)
  Step-Counts (polls now p e) inv = poll-Counts now p e (inv.each r)
  Step-Counts (settles now later h job p e) inv =
      settle-Counts now later h job p (subst Steady e inv.phase) e
  Step-Counts (reschedules now job p e) inv = (ground arith, refl)
  Step-Counts (sets_handler h p k) inv = (omega arith, refl)
  Step-Counts (closes p) inv = (omega arith, refl)
