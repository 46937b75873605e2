-- ===== src/Execution/Queue.antt =====
-- internal/execution/queue.go: the in-memory queue, and the contract by which the scheduler uses a
-- queue.
pub mod Laws
use hydra_db.Base.{
  ℕ, ◌+◌, String, ◌≡◌, Bool, true, false, Option, none, some, List, [], ◌∷◌, ◌++◌, Outcome, ok, err,
  ltb, if◌then◌else◌, length,
}
use hydra_db.Execution.Job.{Ref, ExecError, queue_closed, queue_full}

-- The buffered channel is the list of what it holds.
pub record InMemoryQueue : Type 0 where
  pub ch : List Ref
  pub closed : Bool

-- The channel's buffer.
abbrev pub capacity : ℕ
capacity = 1024

unfoldable pub new_queue : InMemoryQueue
new_queue = record { ch = []; closed = false }

unfoldable pub enqueue : Ref → InMemoryQueue → InMemoryQueue × Option ExecError
enqueue job q =
    if q.closed
    then (q, some queue_closed)
    else if ltb (length q.ch) capacity
    then (record q { ch = q.ch ++ job ∷ [] }, none)
    else (q, some queue_full)

-- A receive that does not wait: what is buffered comes first, also from a closed channel.
receive : List Ref → InMemoryQueue → InMemoryQueue × Outcome ExecError (Option Ref)
receive (job ∷ rest) q = (record q { ch = rest }, ok (some job))
receive [] q = if q.closed then (q, err queue_closed) else (q, ok none)

unfoldable pub dequeue : InMemoryQueue → InMemoryQueue × Outcome ExecError (Option Ref)
unfolding receive
dequeue q = receive q.ch q

ack : String → InMemoryQueue → InMemoryQueue × Option ExecError
ack job_id q = (q, none)

nack : String → InMemoryQueue → InMemoryQueue × Option ExecError
nack job_id q = (q, none)

size : InMemoryQueue → ℕ
size q = length q.ch

unfoldable pub close : InMemoryQueue → InMemoryQueue
close q = if q.closed then q else record q { closed = true }
