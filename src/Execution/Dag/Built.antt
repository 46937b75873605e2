-- ===== src/Execution/Dag/Built.antt =====
-- internal/execution/dag.go: the graphs that calls of `NewDAG`, `AddJob` and `AddDependency` make.
use hydra_db.Base.{
  String, ◌≡◌, ◌≢◌, refl, sym, ap, ◌∙◌, subst, inl, inr, ◌⊎◌, Option, none, some, List, str_eq,
  Bool-cases, Option-cases, Ranges, put, some_inj,
}
use hydra_db.Execution.Job.{Ref, Heap, ExecError, parent_not_found, child_not_found}
use hydra_db.Execution.Dag.{Dag, new_dag, add_job, add_dependency}
use hydra_db.Execution.Dag.Paths.{Cycle-map}
use hydra_db.Execution.Dag.Dependencies.{IsAcyclic, add_dependency_lem}

-- A graph that any sequence of calls has come to.
pub data Built : Dag → Type 0 where
  fresh : Built new_dag
  job : {d : Dag} (heap : Heap) (r : Ref) → Built d → Built (add_job heap r d).0
  dependency :
      {d d' : Dag} {e : Option ExecError} (order : List (String × Ref)) (parent child : String)
      → Built d
      → Ranges d.nodes order
      → add_dependency order parent child d ≡ some (d', e)
      → Built d'

new_dag-IsAcyclic : IsAcyclic new_dag
unfolding new_dag
new_dag-IsAcyclic = record {
  well_formed = record { parent = λ u v e. elim e [ ]; child = λ u v e. elim e [ ] };
  acyclic = λ c. elim c.back [ ];
}

-- More nodes, and the same edges.
module _ (d : Dag) (id : String) (r : Ref) (h : IsAcyclic d) where
  kept : (k : String) → d.nodes k ≢ none → put id r d.nodes k ≢ none
  kept k known missing = elim (Bool-cases (str_eq id k)) [
    | inl same ↦ absurd (known (cc (rw same at missing)))
    | inr other ↦ known (rw other at missing)
  ]

  longer-IsAcyclic : IsAcyclic (record d { nodes = put id r d.nodes })
  longer-IsAcyclic = record {
    well_formed = record {
      parent = λ u v e. kept u (h.well_formed.parent u v e);
      child = λ u v e. kept v (h.well_formed.child u v e);
    };
    acyclic = λ c. h.acyclic (Cycle-map (λ u v e. e) c);
  }

add_job-IsAcyclic : (heap : Heap) (r : Ref) (d : Dag) → IsAcyclic d → IsAcyclic (add_job heap r d).0
unfolding add_job
add_job-IsAcyclic heap r d h = elim (Option-cases (d.nodes (heap r).id)) [
  | inl missing ↦ subst IsAcyclic (rw (missing, add_job) refl) (longer-IsAcyclic d (heap r).id r h)
  | inr (_, known) ↦ subst IsAcyclic (rw (known, add_job) refl) h
]

-- A dependency on a job that is not there is refused and changes nothing.
unknown_jobs :
    (order : List (String × Ref)) (parent child : String) (d : Dag)
    → (d.nodes parent ≡ none) ⊎ (d.nodes child ≡ none)
    → (e : Option ExecError) × (add_dependency order parent child d ≡ some (d, e))
unfolding add_dependency
unknown_jobs order parent child d h = elim (Option-cases (d.nodes parent)) [
  | inl missing ↦ (some (parent_not_found parent), rw (missing, add_dependency) refl)
  | inr (_, known) ↦ elim h [
    | inl missing ↦ absurd (cc (missing, known))
    | inr missing ↦ (some (child_not_found child), rw (known, add_dependency, missing) refl)
  ]
]

same_result :
    {d' d'' : Dag} {e e'' : Option ExecError} {r : Option (Dag × Option ExecError)}
    → r ≡ some (d'', e'')
    → r ≡ some (d', e)
    → d'' ≡ d'
same_result p q = ap (λ (x : Dag × Option ExecError). x.0) (some_inj (sym p ∙ q))

add_dependency-IsAcyclic :
    {d d' : Dag} {e : Option ExecError} (order : List (String × Ref)) (parent child : String)
    → IsAcyclic d
    → Ranges d.nodes order
    → add_dependency order parent child d ≡ some (d', e)
    → IsAcyclic d'
add_dependency-IsAcyclic {d} {d'} order parent child h ranges e =
    elim (Option-cases (d.nodes parent)) [
      | inl missing ↦
          subst IsAcyclic (same_result (unknown_jobs order parent child d (inl missing)).1 e) h
      | inr (_, known) ↦ elim (Option-cases (d.nodes child)) [
        | inl missing ↦
            subst IsAcyclic (same_result (unknown_jobs order parent child d (inr missing)).1 e) h
        | inr (_, known') ↦
            let (new, new_error, returns, acyclic, _) =
              add_dependency_lem d order parent child h ranges (λ x. cc (x, known))
                (λ x. cc (x, known')) in
            subst IsAcyclic (same_result returns e) acyclic
      ]
    ]

-- Whatever jobs and dependencies are added, and whatever the orders of the visits, no job comes to
-- depend on itself, and only known jobs have dependencies.
pub Built-IsAcyclic : (d : Dag) → Built d → IsAcyclic d
Built-IsAcyclic d fresh = new_dag-IsAcyclic
Built-IsAcyclic d (job {d = before} heap r b) =
    add_job-IsAcyclic heap r before (Built-IsAcyclic before b)
Built-IsAcyclic d (dependency {d = before} order parent child b ranges e) =
    add_dependency-IsAcyclic order parent child (Built-IsAcyclic before b) ranges e
