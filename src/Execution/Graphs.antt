-- ===== src/Execution/Graphs.antt =====
-- internal/execution/plane.go: `SubmitDAG`, which submits the jobs of a graph. No other call comes in
-- between.
pub mod Loops
pub mod Submission
use mathlib.Core.List.{append-nil, append_assoc}
use hydra_db.Base.{
  has_key-true, occurs-key, length-keys, ℕ, zero, suc, ◌+◌, ◌≤◌, ◌<◌, String, ◌≡◌, ◌≢◌, refl, sym,
  ap, ◌∙◌, subst, inl, inr, ◌⊎◌, Bool, true, false, Option, none, some, List, [], ◌∷◌, ◌++◌,
  if◌then◌else◌, str_eq, eq_iff, arith, Outcome, ok, err, Memᴰ, Bool-cases, Option-cases, length,
  length-append, occurs, occurs-mem, mem_of_occurs, length-le_of_occurs, Ranges, put, has_key, keys,
  ℤ, Time,
}
use hydra_db.Execution.Job.{
  Ref, Heap, ExecError, topological_sort as sort_failed, schedule_job as schedule_failed,
}
use hydra_db.Execution.Queue.{capacity, enqueue}
use hydra_db.Execution.Dag.Paths.{WellFormed, Cycle}
use hydra_db.Execution.Dag.Dependencies.{IsAcyclic}
use hydra_db.Execution.Dag.Sort.Complete.{Order, topological_sort_cases}
use hydra_db.Execution.Scheduler.{is_due, schedule}
use hydra_db.Execution.Plane.{Plane, schedule_job}
use hydra_db.Execution.Dag.{Dag}
use hydra_db.Execution.Dag.Sort.{topological_sort, in_degrees}

-- The loop under the mutex, p.jobs[id] = job
unfoldable pub register_all : Dag → List String → Plane → Plane
register_all d [] p = p
register_all d (id ∷ rest) p = elim (d.nodes id) [
  | none ↦ register_all d rest p
  | some job ↦ register_all d rest (record p { jobs = put id job p.jobs })
]

-- The second loop. `clock` tells the time at which it comes to a job, and `none` stands for the panic
-- of `Schedule` on a nil job.
unfoldable pub schedule_all :
    Dag → (clock : String → Time) → List String → Plane → Option (Plane × Option ExecError)
schedule_all d clock [] p = some (p, none)
schedule_all d clock (id ∷ rest) p = elim (d.nodes id) [
  | none ↦ none
  | some job ↦
      let (p', e) = schedule_job (clock id) job p in
      let result = schedule_all d clock rest p' in
      elim e [ none ↦ result | some cause ↦ some (p', some (schedule_failed id cause)) ]
]

-- The orders are those in which `TopologicalSort` visits its maps.
unfoldable pub submit_dag :
    List (String × Ref)
    → List (String × List String)
    → List (String × ℤ)
    → (clock : String → Time) → Dag
    → Plane
    → Option (Plane × Option ExecError)
unfolding register_all schedule_all
submit_dag order edges degrees clock d p = elim (topological_sort order edges degrees d) [
  | none ↦ none
  | some (err e) ↦ some (p, some (sort_failed e))
  | some (ok out) ↦ schedule_all d clock out (register_all d out p)
]
