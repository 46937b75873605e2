-- ===== src/Execution/Scheduler/Laws.antt =====
-- internal/execution/scheduler.go: which jobs a flush moves, and what `Schedule` does with a job.
use mathlib.Core.List.{append-nil, append_assoc}
use hydra_db.Base.{
  filter, leb, ltb, ◌+◌, ◌≤◌, ◌<◌, ◌≡◌, refl, sym, ap, ◌∙◌, ◌⊎◌, Option, none, some, List, [], ◌∷◌,
  ◌++◌, arith, Time, count, count-append,
}
use hydra_db.Execution.Job.{Ref, Heap, ExecError}
use hydra_db.Execution.Contract.{QueueOps}
use hydra_db.Execution.Scheduler.{Scheduler, split_due, schedule, enqueue_all, flush}

-- The split loses no job and duplicates none.
pub count-split_due :
    (heap : Heap) (now : Time) (r : Ref) (jobs : List Ref)
    → let (ready, remaining) = split_due heap now jobs in
      count r ready + count r remaining ≡ count r jobs
unfolding split_due
count-split_due heap now r [] = omega arith
count-split_due heap now r (job ∷ jobs) = ground (arith, count-split_due heap now r jobs)

-- The jobs whose time has come, in their order, and those whose time is still to come.
abbrev pub due : Heap → Time → List Ref → List Ref
due heap now = filter (λ job. leb (heap job).run_after now)

abbrev pub early : Heap → Time → List Ref → List Ref
early heap now = filter (λ job. ltb now (heap job).run_after)

pub split_due_lem :
    (heap : Heap) (now : Time) (jobs : List Ref)
    → split_due heap now jobs ≡ (due heap now jobs, early heap now jobs)
unfolding split_due
split_due_lem heap now [] = refl
split_due_lem heap now (job ∷ jobs) = ground (arith, split_due_lem heap now jobs)

module _ {Q : Type 0} (ops : QueueOps Q) where
  open ops use {enqueue, contents, accepts, refuses}

  -- The jobs that the second loop of `flush` drops.
  abbrev pub dropped : List Ref → Q → List Ref
  dropped [] q = []
  dropped (job ∷ jobs) q =
      let rest = dropped jobs (enqueue job q).0 in
      elim (enqueue job q).1 [ none ↦ rest | some e ↦ job ∷ rest ]

  enqueue-count :
      (r job : Ref) (q : Q)
      → (e : Option ExecError) → (enqueue job q).1 ≡ e
      → count r (contents (enqueue job q).0) + (elim e [ none ↦ 0 | some _ ↦ count r (job ∷ []) ])
        ≡ count r (contents q) + count r (job ∷ [])
  enqueue-count r job q none h =
      rw (accepts job q h) (omega (arith, count-append r (contents q) (job ∷ [])))
  enqueue-count r job q (some e) h = rw (refuses job q h)

  enqueue_all-count :
      (r : Ref) (jobs : List Ref) (s : Scheduler Q)
      → count r (contents (enqueue_all ops jobs s).queue) + count r (dropped jobs s.queue)
        ≡ count r (contents s.queue) + count r jobs
  unfolding enqueue_all
  enqueue_all-count r [] s = refl
  enqueue_all-count r (job ∷ jobs) s = ground (
    arith,
    enqueue-count r job s.queue (enqueue job s.queue).1 refl,
    enqueue_all-count r jobs (record s { queue = (enqueue job s.queue).0 }),
  )

  -- The queue takes each of the jobs, one after the other.
  abbrev pub Room : List Ref → Q → Type 0
  Room [] q = Unit
  Room (job ∷ jobs) q = ((enqueue job q).1 ≡ none) × Room jobs (enqueue job q).0

  enqueue_all-Room :
      (jobs : List Ref) (s : Scheduler Q)
      → Room jobs s.queue
      → contents (enqueue_all ops jobs s).queue ≡ contents s.queue ++ jobs
  unfolding enqueue_all
  enqueue_all-Room [] s room = sym (append-nil (contents s.queue))
  enqueue_all-Room (job ∷ jobs) s room =
      enqueue_all-Room jobs (record s { queue = (enqueue job s.queue).0 }) room.1
      ∙ ap (λ l. l ++ jobs) (accepts job s.queue room.0)
      ∙ append_assoc (contents s.queue) (job ∷ []) jobs

  enqueue_all-pending :
      (jobs : List Ref) (s : Scheduler Q) → (enqueue_all ops jobs s).pending ≡ s.pending
  unfolding enqueue_all
  enqueue_all-pending [] s = refl
  enqueue_all-pending (job ∷ jobs) s =
      enqueue_all-pending jobs (record s { queue = (enqueue job s.queue).0 })

  -- A flush moves exactly the held back jobs whose time has come, in their order, behind the jobs in
  -- the queue, when the queue has room for them, and holds back exactly the others, in their order.
  pub flush-Room :
      (heap : Heap) (now : Time) (s : Scheduler Q)
      → Room (due heap now s.pending) s.queue
      → let s' = flush ops heap now s in
        (contents s'.queue ≡ contents s.queue ++ due heap now s.pending)
        × (s'.pending ≡ early heap now s.pending)
  unfolding flush
  flush-Room heap now s room =
      let s1 : Scheduler Q = record s { pending = early heap now s.pending } in
      rw (split_due_lem heap now s.pending) (
        enqueue_all-Room (due heap now s.pending) s1 room,
        enqueue_all-pending (due heap now s.pending) s1,
      )

  -- Each job stands after a flush as often as before, among those held back, in the queue, or among
  -- those that the queue refused, which are lost.
  pub flush-count :
      (heap : Heap) (now : Time) (r : Ref) (s : Scheduler Q)
      → let s' = flush ops heap now s in
        count r s'.pending
          + count r (contents s'.queue)
          + count r (dropped (split_due heap now s.pending).0 s.queue)
        ≡ count r s.pending + count r (contents s.queue)
  unfolding flush
  flush-count heap now r s =
      let (ready, remaining) = split_due heap now s.pending in
      let s1 : Scheduler Q = record s { pending = remaining } in
      rw (enqueue_all-pending ready s1)
        (omega (arith, enqueue_all-count r ready s1, count-split_due heap now r s.pending))

  -- A job that is not due is held back, and the queue is left as it was.
  pub schedule_cases :
      (heap : Heap) (now : Time) (job : Ref) (s : Scheduler Q)
      → let (s', e) = schedule ops heap now job s in
        ((now < (heap job).run_after)
          × (e ≡ none)
          × (s'.pending ≡ s.pending ++ job ∷ [])
          × (s'.queue ≡ s.queue))
        ⊎ (((heap job).run_after ≤ now)
            × (e ≡ (enqueue job s.queue).1)
            × (s'.pending ≡ s.pending)
            × (s'.queue ≡ (enqueue job s.queue).0))
  unfolding schedule
  schedule_cases heap now job s = ground arith
