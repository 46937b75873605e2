-- ===== src/Execution/Plane/Retry.antt =====
-- internal/execution/plane.go: what the processing loop does with the handler's answer.
use hydra_db.Base.{
  ℕ, ◌+◌, ◌*◌, ◌≤◌, ◌<◌, ◌≡◌, ap, [], ◌∷◌, ◌++◌, some, String, arith, pos, int64, Time,
}
use hydra_db.Execution.Job.{Ref, retrying}
use hydra_db.Execution.Scheduler.{schedule}
use hydra_db.Execution.Plane.{Handler, Plane, backoff, settle, reschedule}
use hydra_db.Execution.Plane.Steps.{KeepsControl}

square_le : (a : ℕ) → a ≤ 303700 → a * a ≤ 303700 * 303700
square_le a h = grind arith

-- Up to 303700 attempts the pause before a retry is exactly the square of the attempts, in tenths of
-- a second: nothing in its computation overflows.
pub backoff_exact : (a : ℕ) → a ≤ 303700 → backoff (pos a) ≡ pos (a * a * 100000000)
unfolding backoff int64
backoff_exact a h = ground (arith, square_le a h)

-- A job whose handler returns an error, with attempts left and at most 303700 of them made, is
-- marked for a retry with that error, due after the square of its attempts in tenths of a second, a
-- pause that grows quadratically; until then the scheduler holds it back, and the queue is as it was. The handler leaves the
-- attempts and their maximum alone.
pub retry_delayed :
    (now later t : Time) (h : Handler) (job : Ref) (p : Plane) (a m : ℕ) {e : String}
    → KeepsControl h
    → (h (p.heap job)).1 ≡ some e
    → (p.heap job).attempts ≡ pos a
    → (p.heap job).max_attempts ≡ pos m
    → a < m
    → a ≤ 303700
    → t < later + a * a * 100000000
    → let p' = reschedule t job (settle now later h job p) in
      ((p'.heap job).state ≡ retrying)
      × ((p'.heap job).error ≡ e)
      × ((p'.heap job).run_after ≡ later + a * a * 100000000)
      × (p'.scheduler.pending ≡ p.scheduler.pending ++ job ∷ [])
      × (p'.scheduler.queue ≡ p.scheduler.queue)
unfolding reschedule settle schedule
retry_delayed now later t h job p a m keeps failed_with tried most more few early = ground (
  arith,
  backoff_exact a few,
  keeps.attempts (p.heap job),
  keeps.max_attempts (p.heap job),
  ap backoff (keeps.attempts (p.heap job)),
  ap backoff tried,
)
