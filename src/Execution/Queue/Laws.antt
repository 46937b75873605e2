-- ===== src/Execution/Queue/Laws.antt =====
-- internal/execution/queue.go: the calls on a queue and their history.
use hydra_db.Base.{
  ◌≤◌, ◌<◌, ◌≡◌, sym, ◌∙◌, ◌⊎◌, Bool, true, false, Option, none, some, List, [], ◌∷◌, ◌++◌, Outcome,
  ok, err, arith, length, length-append,
}
use mathlib.Core.List.{append_assoc}
use hydra_db.Execution.Job.{Ref, ExecError, queue_closed, queue_full}
use hydra_db.Execution.Contract.{QueueOps}
use hydra_db.Execution.Queue.{InMemoryQueue, capacity, enqueue, dequeue, close}

-- The outcome of an enqueue, on each of its branches.
pub enqueue_cases :
    (job : Ref) (q : InMemoryQueue)
    → (q.closed ≡ true) × (enqueue job q ≡ (q, some queue_closed))
      ⊎ (q.closed ≡ false)
        × (length q.ch < capacity)
        × (enqueue job q ≡ (record q { ch = q.ch ++ job ∷ [] }, none))
      ⊎ (q.closed ≡ false) × (capacity ≤ length q.ch) × (enqueue job q ≡ (q, some queue_full))
unfolding enqueue
enqueue_cases job q = ground arith

pub enqueue-le-capacity :
    (job : Ref) (q : InMemoryQueue)
    → length q.ch ≤ capacity
    → length (enqueue job q).0.ch ≤ capacity
unfolding enqueue
enqueue-le-capacity job q h = ground (arith, length-append q.ch (job ∷ []))

-- One call on a queue, by any of its users.
pub data Call : Type 0 where
  enqueue_call : Ref → Call
  dequeue_call : Call
  close_call : Call

-- What the queue took in, and what it handed out.
pub record History : Type 0 where
  pub accepted : List Ref
  pub delivered : List Ref

accept : Ref → Option ExecError → History → History
accept job none h = record h { accepted = h.accepted ++ job ∷ [] }
accept job (some e) h = h

deliver : Outcome ExecError (Option Ref) → History → History
deliver (ok (some job)) h = record h { delivered = h.delivered ++ job ∷ [] }
deliver (ok none) h = h
deliver (err e) h = h

pub run_calls : List Call → InMemoryQueue → History → InMemoryQueue × History
unfolding accept deliver
run_calls [] q h = (q, h)
run_calls (enqueue_call job ∷ calls) q h =
    let (q', e) = enqueue job q in run_calls calls q' (accept job e h)
run_calls (dequeue_call ∷ calls) q h = let (q', r) = dequeue q in run_calls calls q' (deliver r h)
run_calls (close_call ∷ calls) q h = run_calls calls (close q) h

-- The history and the buffer agree, and the buffer has not outgrown the channel.
pub record Agrees (q : InMemoryQueue) (h : History) : Type 0 where
  pub in_order : h.accepted ≡ h.delivered ++ q.ch
  pub bounded : length q.ch ≤ capacity

enqueue-Agrees :
    (job : Ref) (q : InMemoryQueue) (h : History)
    → Agrees q h
    → Agrees (enqueue job q).0 (accept job (enqueue job q).1 h)
unfolding enqueue accept
enqueue-Agrees job q h a =
    ground (arith, length-append q.ch (job ∷ []), append_assoc h.delivered q.ch (job ∷ []))

receive-Agrees :
    (jobs : List Ref) (closed : Bool) (h : History)
    → let q : InMemoryQueue = record { ch = jobs; closed = closed } in
      Agrees q h → Agrees (dequeue q).0 (deliver (dequeue q).1 h)
unfolding dequeue deliver
receive-Agrees [] closed h a = ground arith
receive-Agrees (job ∷ jobs) closed h a = record {
  in_order = a.in_order ∙ sym (append_assoc h.delivered (job ∷ []) jobs);
  bounded = omega (arith, a.bounded);
}

dequeue-Agrees :
    (q : InMemoryQueue) (h : History) → Agrees q h → Agrees (dequeue q).0 (deliver (dequeue q).1 h)
dequeue-Agrees q h a = receive-Agrees q.ch q.closed h a

close-Agrees : (q : InMemoryQueue) (h : History) → Agrees q h → Agrees (close q) h
unfolding close
close-Agrees q h a = ground arith

-- From a queue that agrees with its history, whatever calls are made in whatever order, the jobs
-- that it accepted are those that it handed out, in that order, followed by those that it still
-- holds; and it holds at most 1024.
pub run_calls-Agrees :
    (calls : List Call) (q : InMemoryQueue) (h : History)
    → Agrees q h
    → let (q', h') = run_calls calls q h in Agrees q' h'
unfolding run_calls
run_calls-Agrees [] q h a = a
run_calls-Agrees (enqueue_call job ∷ calls) q h a =
    run_calls-Agrees calls (enqueue job q).0 (accept job (enqueue job q).1 h)
      (enqueue-Agrees job q h a)
run_calls-Agrees (dequeue_call ∷ calls) q h a =
    run_calls-Agrees calls (dequeue q).0 (deliver (dequeue q).1 h) (dequeue-Agrees q h a)
run_calls-Agrees (close_call ∷ calls) q h a =
    run_calls-Agrees calls (close q) h (close-Agrees q h a)

pub enqueue_accepts :
    (job : Ref) (q : InMemoryQueue)
    → (enqueue job q).1 ≡ none
    → (enqueue job q).0.ch ≡ q.ch ++ job ∷ []
unfolding enqueue
enqueue_accepts job q h = ground arith

pub enqueue_refuses :
    (job : Ref) (q : InMemoryQueue) {e : ExecError}
    → (enqueue job q).1 ≡ some e
    → (enqueue job q).0 ≡ q
unfolding enqueue
enqueue_refuses job q h = ground arith

-- The in-memory queue meets the contract of the scheduler.
abbrev pub in_memory : QueueOps InMemoryQueue
in_memory = record {
  enqueue = enqueue;
  contents = λ q. q.ch;
  accepts = enqueue_accepts;
  refuses = enqueue_refuses;
}
