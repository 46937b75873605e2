-- ===== src/Execution/Scheduler/Examples.antt =====
-- internal/execution/queue.go and internal/execution/scheduler.go at concrete inputs.
use hydra_db.Base.{◌*◌, ◌≡◌, refl, true, false, List, [], ◌∷◌, arith, pos}
use hydra_db.Execution.Job.{Heap, pending}
use hydra_db.Execution.Queue.{InMemoryQueue, enqueue}
use hydra_db.Execution.Queue.Laws.{
  Call, enqueue_call, dequeue_call, close_call, History, Agrees, run_calls, run_calls-Agrees,
  in_memory,
}
use hydra_db.Execution.Scheduler.{Scheduler, flush}
use hydra_db.Execution.Scheduler.Laws.{Room, flush-Room}

-- The job `r` is due at the time `10 * r`.
abbrev heap : Heap
heap r = record {
  id = "job";
  type = "mail";
  payload = "{}";
  state = pending;
  result = "";
  error = "";
  attempts = pos 0;
  max_attempts = pos 3;
  created_at = 5;
  started_at = 0;
  finished_at = 0;
  run_after = 10 * r;
}

abbrev queue1 : InMemoryQueue
queue1 = record { ch = 9 ∷ []; closed = false }

abbrev history : History
history = record { accepted = 9 ∷ []; delivered = [] }

abbrev calls : List Call
calls = dequeue_call ∷ enqueue_call 3 ∷ close_call ∷ enqueue_call 4 ∷ dequeue_call ∷ []

agrees : Agrees queue1 history
agrees = record { in_order = refl; bounded = omega arith }

run_calls-Agrees_example : let (q', h') = run_calls calls queue1 history in Agrees q' h'
run_calls-Agrees_example = run_calls-Agrees calls queue1 history agrees

abbrev scheduler1 : Scheduler InMemoryQueue
scheduler1 = record { queue = queue1; pending = 3 ∷ 8 ∷ 2 ∷ [] }

room : Room in_memory (3 ∷ 2 ∷ []) scheduler1.queue
unfolding enqueue
room = (refl, (refl, tt))

flush-Room_example :
    let s' = flush in_memory heap 40 scheduler1 in
    (s'.queue.ch ≡ 9 ∷ 3 ∷ 2 ∷ []) × (s'.pending ≡ 8 ∷ [])
flush-Room_example = flush-Room in_memory heap 40 scheduler1 room

-- On a closed queue the job that is due is lost.
abbrev closed1 : Scheduler InMemoryQueue
closed1 = record { queue = record queue1 { closed = true }; pending = 3 ∷ 8 ∷ [] }

lost :
    ((flush in_memory heap 40 closed1).pending ≡ 8 ∷ [])
    × ((flush in_memory heap 40 closed1).queue.ch ≡ 9 ∷ [])
unfolding flush enqueue
lost = (refl, refl)
