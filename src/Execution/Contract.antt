-- ===== src/Execution/Contract.antt =====
-- internal/execution/queue.go, the `Queue` interface: what the scheduler uses of a queue.
use hydra_db.Base.{◌≡◌, Option, none, some, List, [], ◌∷◌, ◌++◌}
use hydra_db.Execution.Job.{Ref, ExecError}

-- `contents` is what a queue holds, first in first out. An enqueue either appends or fails.
pub record QueueOps (Q : Type 0) : Type 0 where
  pub enqueue : Ref → Q → Q × Option ExecError
  pub contents : Q → List Ref
  pub accepts :
      (r : Ref) (q : Q) → (enqueue r q).1 ≡ none → contents (enqueue r q).0 ≡ contents q ++ r ∷ []
  pub refuses : (r : Ref) (q : Q) {e : ExecError} → (enqueue r q).1 ≡ some e → (enqueue r q).0 ≡ q
