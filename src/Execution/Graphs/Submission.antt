-- ===== src/Execution/Graphs/Submission.antt =====
-- internal/execution/plane.go: what `SubmitDAG` does as a whole.
use hydra_db.Base.{
  has_key-true, occurs-key, length-keys, ◌+◌, ◌≤◌, String, ◌≡◌, ◌≢◌, sym, ap, subst, inl, inr, true,
  false, Option, none, some, List, ◌++◌, arith, ok, Memᴰ, Option-cases, length, occurs-mem,
  length-le_of_occurs, Ranges, keys, ℤ, Time,
}
use hydra_db.Execution.Job.{Ref}
use hydra_db.Execution.Queue.{capacity}
use hydra_db.Execution.Dag.Dependencies.{IsAcyclic}
use hydra_db.Execution.Dag.Sort.Complete.{Order, topological_sort_cases}
use hydra_db.Execution.Scheduler.{is_due}
use hydra_db.Execution.Plane.{Plane}
use hydra_db.Execution.Dag.{Dag}
use hydra_db.Execution.Dag.Sort.{topological_sort, in_degrees}
use hydra_db.Execution.Graphs.{register_all, submit_dag}
use hydra_db.Execution.Graphs.Loops.{
  jobs_of, queued, Ready, schedule_all_lem, register_all_kept, register_all_unknown,
  register_all_known,
}

-- What a successful call does.
pub record Submitted (d : Dag) (out : List String) (before after : Plane) : Type 0 where
  pub queue : after.scheduler.queue.ch ≡ before.scheduler.queue.ch ++ jobs_of d out
  pub waiting : after.scheduler.pending ≡ before.scheduler.pending
  pub heap : after.heap ≡ before.heap
  pub known : (k : String) → d.nodes k ≢ none → after.jobs k ≡ d.nodes k
  pub others : (k : String) → d.nodes k ≡ none → after.jobs k ≡ before.jobs k

module _ (d : Dag) (acyclic : IsAcyclic d) (order : List (String × Ref))
    (edges : List (String × List String)) (degrees : List (String × ℤ))
    (nodes : Ranges d.nodes order) (ranges : Ranges d.edges edges)
    (in_order : Ranges (in_degrees order edges) degrees) (clock : String → Time) (p : Plane)
    (due : (k : String) (job : Ref) → d.nodes k ≡ some job → is_due p.heap (clock k) job ≡ true)
    (opened : p.scheduler.queue.closed ≡ false)
    (room : length p.scheduler.queue.ch + length order ≤ capacity) where
  ready : (out : List String) → Order d out → (id : String) → Memᴰ id out → Ready d clock p.heap id
  ready out o id m = elim (Option-cases (d.nodes id)) [
    | inl missing ↦ absurd (
        ground (
          arith,
          o.nodes id,
          occurs-mem m,
          ap (λ (x : Option Ref). elim x [ none ↦ false | some _ ↦ true ]) missing,
        ))
    | inr (job, e) ↦ record { job = job; known = e; due = due id job e }
  ]

  fits : (out : List String) → Order d out → length out ≤ length order
  fits out o = omega (
    arith,
    length-keys order,
    length-le_of_occurs out (keys order) (λ k. ground (arith, o.nodes k, occurs-key k nodes)),
  )

  submit_out :
      (out : List String)
      → Order d out
      → topological_sort order edges degrees d ≡ some (ok out)
      → submit_dag order edges degrees clock d p
        ≡ some (queued (jobs_of d out) (register_all d out p), none)
  unfolding submit_dag
  submit_out out o e =
      let (scheduler, heap) = register_all_kept d out p in
      rw (e, submit_dag)
        (schedule_all_lem d clock out (register_all d out p)
          (λ id m.
            let r : Ready d clock p.heap id = ready out o id m in
            record {
              job = r.job;
              known = r.known;
              due = subst (λ h. is_due h (clock id) r.job ≡ true) (sym heap) r.due;
            })
          (subst (λ s. s.queue.closed ≡ false) (sym scheduler) opened)
          (subst (λ s. length s.queue.ch + length out ≤ capacity) (sym scheduler)
            (omega (arith, fits out o))))

  submitted :
      (out : List String)
      → Order d out
      → Submitted d out p (queued (jobs_of d out) (register_all d out p))
  submitted out o =
      let (scheduler, heap) = register_all_kept d out p in
      record {
        queue = ap (λ s. s.queue.ch ++ jobs_of d out) scheduler;
        waiting = ap (λ s. s.pending) scheduler;
        heap = heap;
        known = λ k known.
            register_all_known d out k p known
              (inr (ground (arith, o.nodes k, has_key-true d.nodes k known)));
        others = λ k e. register_all_unknown d out k p e;
      }

  -- `SubmitDAG` of a graph without a cycle, none of whose jobs must wait, on a plane whose queue is
  -- open and has room for them, returns nil, whatever the orders of the visits. The jobs are
  -- registered under their identifiers and stand in the queue behind what it held, in an order in
  -- which each one comes once, behind all its parents.
  pub submit_dag_lem :
      (out : List String) × (after : Plane) × (submit_dag order edges degrees clock d p
        ≡ some (after, none))
      × Order d out
      × Submitted d out p after
  submit_dag_lem =
      elim (topological_sort_cases d order edges degrees acyclic.well_formed nodes ranges
        in_order) [
          | inl (cycle, _) ↦ absurd (acyclic.acyclic cycle)
          | inr (out, e, o) ↦ (
            out,
            queued (jobs_of d out) (register_all d out p),
            submit_out out o e,
            o,
            submitted out o,
          )
        ]
