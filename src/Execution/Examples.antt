-- ===== src/Execution/Examples.antt =====
-- internal/execution: the theorems at concrete inputs, and runs of the model.
use hydra_db.Base.{
  ◌+◌, ℕ, ◌≤◌, ◌≡◌, ◌≢◌, refl, ◌⊎◌, inl, false, none, some, List, [], ◌∷◌, ◌++◌, arith, pos,
  pos_part, int64,
}
use hydra_db.Execution.Job.{Heap, pending, completed, failed, retrying}
use hydra_db.Execution.Queue.{enqueue, dequeue}
use hydra_db.Execution.Scheduler.{schedule}
use hydra_db.Execution.Plane.{
  Handler, handling, Plane, new_plane, register, set_handler, schedule_job, poll, settle,
  reschedule,
}
use hydra_db.Execution.Plane.Steps.{
  begin_submit, end_submit, KeepsControl, Inv, owned, Step, registers, schedules, polls, settles,
  sets_handler, Reach, here, next,
}
use hydra_db.Execution.Plane.Calls.{calls}
use hydra_db.Execution.Plane.Steps.{handled}
use hydra_db.Execution.Plane.Invariant.{AllNew, Reach-Inv, new_plane-Inv, Reach-jobs}
use hydra_db.Execution.Plane.Lifecycle.{◌⟶◌, IsFinal, Refuses, Step-Moves, Step-owned}
use hydra_db.Execution.Plane.Progress.{queued, not_yet, onward, taken_up}
use hydra_db.Execution.Plane.Retry.{retry_delayed}

abbrev heap : Heap
heap r = record {
  id = "job";
  type = "mail";
  payload = "{}";
  state = pending;
  result = "";
  error = "";
  attempts = pos 0;
  max_attempts = pos 3;
  created_at = 5;
  started_at = 0;
  finished_at = 0;
  run_after = 0;
}

heap-AllNew : AllNew heap
heap-AllNew r = (refl, refl, omega arith)

abbrev breaks : Handler
breaks job = (job, some "no route")

breaks-KeepsControl : KeepsControl breaks
breaks-KeepsControl = record { attempts = λ j. refl; max_attempts = λ j. refl }

-- A job is submitted to a plane whose handler fails, taken up, and marked for a retry.
abbrev plane0 : Plane
plane0 = new_plane heap

abbrev plane1 : Plane
plane1 = set_handler breaks plane0

abbrev plane2 : Plane
plane2 = begin_submit 7 plane1

abbrev plane3 : Plane
plane3 = end_submit 10 7 [] plane2

abbrev plane4 : Plane
plane4 = poll 11 plane3

abbrev plane5 : Plane
plane5 = settle 12 12 breaks 7 plane4

step1 : Step plane0 plane1
step1 = sets_handler breaks plane0 breaks-KeepsControl

step2 : Step plane1 plane2
unfolding new_plane set_handler
step2 = registers 7 plane1 refl refl

step3 : Step plane2 plane3
unfolding new_plane set_handler register
step3 = schedules 10 7 [] [] plane2 refl

step4 : Step plane3 plane4
unfolding new_plane set_handler register schedule_job
step4 = polls 11 plane3 refl

phase4 : plane4.phase ≡ handling breaks 7
unfolding new_plane set_handler register schedule_job schedule enqueue poll dequeue
phase4 = refl

step5 : Step plane4 plane5
step5 = settles 12 12 breaks 7 plane4 phase4

reach4 : Reach plane0 plane4
reach4 = next (next (next (next here step1) step2) step3) step4

reach5 : Reach plane0 plane5
reach5 = next reach4 step5

inv4 : Inv plane4
inv4 = Reach-Inv reach4 (new_plane-Inv heap heap-AllNew)

-- The state of the job at the end of that trace.
retried : (plane5.heap 7).state ≡ retrying
unfolding new_plane set_handler register schedule_job schedule enqueue poll dequeue settle int64
retried = refl

owned4 : owned 7 plane4 ≡ 1
unfolding new_plane set_handler register schedule_job schedule enqueue poll dequeue
owned4 = refl

Reach-jobs_example :
    let j = plane5.heap 7 in
    let made = calls 7 reach5 + handled 7 plane5.phase in
    (made ≡ pos_part j.attempts)
    × ((made ≤ 1) ⊎ (made ≤ 3))
    × (owned 7 plane5 ≤ 1)
    × ((owned 7 plane5 ≡ 0) ⊎ (j.state ≢ completed) × (j.state ≢ failed))
Reach-jobs_example = Reach-jobs heap heap-AllNew reach5 7

Step-Moves_example :
    ((plane5.heap 7).state ≡ (plane4.heap 7).state)
    ⊎ ((plane4.heap 7).state ⟶ (plane5.heap 7).state)
Step-Moves_example = Step-Moves step5 inv4 7

Step-owned_example :
    (owned 7 plane5 ≡ 1) ⊎ IsFinal (plane5.heap 7).state ⊎ Refuses plane4.scheduler.queue
Step-owned_example = Step-owned step5 inv4 7 owned4

-- The same job with a handler that succeeds, at the end of its run.
abbrev fine : Handler
fine job = (job, none)

abbrev plane3' : Plane
plane3' = end_submit 10 7 [] (begin_submit 7 plane0)

abbrev plane4' : Plane
plane4' = poll 11 plane3'

abbrev plane5' : Plane
plane5' = settle 12 12 fine 7 plane4'

phase4' : plane4'.phase ≡ handling fine 7
unfolding new_plane register schedule_job schedule enqueue poll dequeue
phase4' = refl

reach5' : Reach plane0 plane5'
unfolding new_plane register schedule_job
reach5' =
    next
      (next
        (next (next here (registers 7 plane0 refl refl))
          (schedules 10 7 [] [] (begin_submit 7 plane0) refl))
        (polls 11 plane3' refl))
      (settles 12 12 fine 7 plane4' phase4')

inv5' : Inv plane5'
inv5' = Reach-Inv reach5' (new_plane-Inv heap heap-AllNew)

final5' : IsFinal (plane5'.heap 7).state
unfolding new_plane register schedule_job schedule enqueue poll dequeue settle
final5' = inl refl

failed_with : (breaks (plane4.heap 7)).1 ≡ some "no route"
failed_with = refl

tried4 : (plane4.heap 7).attempts ≡ pos 1
unfolding new_plane set_handler register schedule_job schedule enqueue poll dequeue int64
tried4 = refl

most4 : (plane4.heap 7).max_attempts ≡ pos 3
unfolding new_plane set_handler register schedule_job schedule enqueue poll dequeue
most4 = refl

retry_delayed_example :
    let p' = reschedule 13 7 (settle 12 12 breaks 7 plane4) in
    ((p'.heap 7).state ≡ retrying)
    × ((p'.heap 7).error ≡ "no route")
    × ((p'.heap 7).run_after ≡ 100000012)
    × (p'.scheduler.pending ≡ plane4.scheduler.pending ++ 7 ∷ [])
    × (p'.scheduler.queue ≡ plane4.scheduler.queue)
retry_delayed_example =
    retry_delayed 12 12 13 breaks 7 plane4 1 3 breaks-KeepsControl failed_with tried4 most4
      (omega arith) (omega arith) (omega arith)

-- A job that stands behind another one.
abbrev two_queued : Plane
two_queued = record plane0 {
  scheduler = record { queue = record { ch = 7 ∷ 8 ∷ []; closed = false }; pending = [] };
}

taken_up_example :
    ((later : List ℕ) × (queued (poll 11 two_queued) ≡ 8 ∷ later))
    × ((poll 12 (poll 11 two_queued)).phase ≡ handling (poll 11 two_queued).handler 8)
unfolding new_plane
taken_up_example =
    taken_up two_queued (poll 11 two_queued) 8 (7 ∷ []) [] 12 refl
      (onward not_yet (polls 11 two_queued refl))
