-- ===== src/Execution/Plane/Examples.antt =====
-- internal/execution/plane.go at concrete inputs: a job that may be attempted once, and fails.
use hydra_db.Base.{ℕ, ◌<◌, ◌≡◌, ◌⊎◌, refl, some, [], arith, pos, int64}
use hydra_db.Execution.Job.{Heap, pending, failed}
use hydra_db.Execution.Queue.{enqueue, dequeue}
use hydra_db.Execution.Scheduler.{schedule}
use hydra_db.Execution.Plane.{
  Handler, handling, Plane, new_plane, register, schedule_job, set_handler, poll, settle,
}
use hydra_db.Execution.Plane.Steps.{
  begin_submit, end_submit, handled, KeepsControl, registers, schedules, polls, settles,
  sets_handler, Reach, here, next,
}
use hydra_db.Execution.Plane.Calls.{calls}
use hydra_db.Execution.Plane.Invariant.{AllNew}
use hydra_db.Execution.Plane.Failures.{failed_tried}

abbrev heap : Heap
heap r = record {
  id = "job";
  type = "mail";
  payload = "{}";
  state = pending;
  result = "";
  error = "";
  attempts = pos 0;
  max_attempts = pos 1;
  created_at = 5;
  started_at = 0;
  finished_at = 0;
  run_after = 0;
}

heap-AllNew : AllNew heap
heap-AllNew r = (refl, refl, omega arith)

abbrev breaks : Handler
breaks job = (job, some "no route")

breaks-KeepsControl : KeepsControl breaks
breaks-KeepsControl = record { attempts = λ j. refl; max_attempts = λ j. refl }

abbrev submitted : Plane
submitted = begin_submit 7 (set_handler breaks (new_plane heap))

abbrev taken : Plane
taken = poll 11 (end_submit 10 7 [] submitted)

abbrev settled : Plane
settled = settle 12 12 breaks 7 taken

taken_phase : taken.phase ≡ handling breaks 7
unfolding new_plane set_handler register schedule_job schedule enqueue poll dequeue
taken_phase = refl

reach : Reach (new_plane heap) settled
unfolding new_plane set_handler register schedule_job
reach =
    next
      (next
        (next
          (next (next here (sets_handler breaks (new_plane heap) breaks-KeepsControl))
            (registers 7 (set_handler breaks (new_plane heap)) refl refl))
          (schedules 10 7 [] [] submitted refl))
        (polls 11 (end_submit 10 7 [] submitted) refl))
      (settles 12 12 breaks 7 taken taken_phase)

has_failed : (settled.heap 7).state ≡ failed
unfolding new_plane set_handler register schedule_job schedule enqueue poll dequeue settle int64
has_failed = refl

failed_tried_example :
    let most : ℕ = 1 in
    (((0 < most) × (calls 7 reach ≡ most)) ⊎ ((most ≡ 0) × (calls 7 reach ≡ 1)))
    × (handled 7 settled.phase ≡ 0)
failed_tried_example = failed_tried heap heap-AllNew reach 7 has_failed
