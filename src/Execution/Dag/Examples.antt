-- ===== src/Execution/Dag/Examples.antt =====
-- internal/execution/dag.go: the theorems at concrete inputs, and runs of the model.
use hydra_db.Base.{
  zero, suc, String, ◌≡◌, ◌≢◌, refl, ◌⊎◌, Bool, true, false, Option, none, some, List, [], ◌∷◌, ok,
  err, empty, put, Ranges, empty-Ranges, put-Ranges, same-Ranges, pos, ℤ, arith, str_eq,
  if◌then◌else◌,
}
use hydra_db.Execution.Job.{Heap, Ref, ExecError, pending, creates_cycle, has_a_cycle}
use hydra_db.Execution.Dag.{Dag, new_dag, add_job, add_edge, add_dependency, has_cycle}
use hydra_db.Execution.Dag.Paths.{Cycle}
use hydra_db.Execution.Dag.Cycles.{has_cycle_cases}
use hydra_db.Execution.Dag.Dependencies.{IsAcyclic, Added, add_dependency_lem}
use hydra_db.Execution.Dag.Built.{Built, fresh, job, dependency, Built-IsAcyclic}
use hydra_db.Execution.Dag.Sort.{in_degrees, topological_sort}
use hydra_db.Execution.Plane.{Plane, new_plane}
use hydra_db.Execution.Graphs.{submit_dag}
use hydra_db.Execution.Graphs.Submission.{Submitted, submit_dag_lem}
use hydra_db.Execution.Dag.Sort.Complete.{Order, topological_sort_cases}

abbrev name_of : Ref → String
name_of zero = "a"
name_of (suc r) = "b"

-- The job at the reference 0 is `a`, and each other one is `b`.
abbrev heap : Heap
heap r = record {
  id = name_of r;
  type = "mail";
  payload = "{}";
  state = pending;
  result = "";
  error = "";
  attempts = pos 0;
  max_attempts = pos 3;
  created_at = 5;
  started_at = 0;
  finished_at = 0;
  run_after = 0;
}

abbrev two_jobs : Dag
two_jobs = record { nodes = put "b" 1 (put "a" 0 empty); edges = empty }

-- `a` comes before `b`.
abbrev chain : Dag
chain = record { nodes = two_jobs.nodes; edges = put "a" ("b" ∷ []) empty }

abbrev order : List (String × Ref)
order = ("b", 1) ∷ ("a", 0) ∷ []

abbrev edge_order : List (String × List String)
edge_order = ("a", "b" ∷ []) ∷ []

abbrev degree_order : List (String × ℤ)
degree_order = ("b", pos 1) ∷ ("a", pos 0) ∷ []

nodes-Ranges : Ranges chain.nodes order
nodes-Ranges = put-Ranges "b" 1 (put-Ranges "a" 0 empty-Ranges tt) (refl, tt)

edges-Ranges : Ranges chain.edges edge_order
edges-Ranges = put-Ranges "a" ("b" ∷ []) empty-Ranges tt

shadowed :
    (b a : Bool) (x y z : ℤ)
    → (if b then some x else if a then some y else if b then some z else none)
      ≡ (if b then some x else if a then some y else none)
shadowed true a x y z = refl
shadowed false true x y z = refl
shadowed false false x y z = refl

degrees_are :
    (k : String) → in_degrees order edge_order k ≡ put "b" (pos 1) (put "a" (pos 0) empty) k
unfolding in_degrees
degrees_are k = shadowed (str_eq "b" k) (str_eq "a" k) (pos 1) (pos 0) (pos 0)

degrees-Ranges : Ranges (in_degrees order edge_order) degree_order
degrees-Ranges =
    same-Ranges degrees_are
      (put-Ranges "b" (pos 1) (put-Ranges "a" (pos 0) empty-Ranges tt) (refl, tt))

chain-Built : Built chain
unfolding new_dag add_job add_dependency add_edge
chain-Built =
    dependency {d = two_jobs} order "a" "b" (job heap 1 (job heap 0 fresh)) nodes-Ranges refl

a_known : chain.nodes "a" ≢ none
a_known e = cc e

b_known : chain.nodes "b" ≢ none
b_known e = cc e

chain-IsAcyclic : IsAcyclic chain
chain-IsAcyclic = Built-IsAcyclic chain chain-Built

Built-IsAcyclic_example : IsAcyclic chain
Built-IsAcyclic_example = Built-IsAcyclic chain chain-Built

has_cycle_cases_example :
    ((has_cycle order chain ≡ some true) × Cycle chain)
    ⊎ ((has_cycle order chain ≡ some false) × (¬ Cycle chain))
has_cycle_cases_example = has_cycle_cases chain order chain-IsAcyclic.well_formed nodes-Ranges

-- The way back from `b` to `a` is refused.
add_dependency_lem_example :
    (d' : Dag) × (e : Option ExecError) × (add_dependency order "b" "a" chain ≡ some (d', e))
    × IsAcyclic d'
    × Added "b" "a" chain d' e
add_dependency_lem_example =
    add_dependency_lem chain order "b" "a" chain-IsAcyclic nodes-Ranges b_known a_known

topological_sort_cases_example :
    (Cycle chain × (topological_sort order edge_order degree_order chain ≡ some (err has_a_cycle)))
    ⊎ ((out : List String) × (topological_sort order edge_order degree_order chain ≡ some (ok out))
        × Order chain out)
topological_sort_cases_example =
    topological_sort_cases chain order edge_order degree_order chain-IsAcyclic.well_formed
      nodes-Ranges edges-Ranges degrees-Ranges

submit_dag_lem_example :
    (out : List String) × (after : Plane) × (submit_dag order edge_order degree_order
        (λ k. 10)
        chain
        (new_plane heap)
      ≡ some (after, none))
    × Order chain out
    × Submitted chain out (new_plane heap) after
unfolding new_plane
submit_dag_lem_example =
    submit_dag_lem chain chain-IsAcyclic order edge_order degree_order nodes-Ranges edges-Ranges
      degrees-Ranges (λ k. 10) (new_plane heap) (λ k job e. refl) refl (omega arith)

-- The runs that the theorems speak of.
sorted_run : topological_sort order edge_order degree_order chain ≡ some (ok ("a" ∷ "b" ∷ []))
unfolding topological_sort has_cycle
sorted_run = refl

refused_run :
    (d : Dag) × (add_dependency order "b" "a" chain ≡ some (d, some (creates_cycle "b" "a")))
unfolding add_dependency add_edge
refused_run = (_, refl)
