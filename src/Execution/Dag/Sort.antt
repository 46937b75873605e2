-- ===== src/Execution/Dag/Sort.antt =====
-- internal/execution/dag.go: `TopologicalSort`. The in-degrees are integers that do not wrap: they
-- count the entries of lists in memory.
pub mod Degrees
pub mod Incoming
pub mod Start
pub mod Loop
pub mod Complete
use hydra_db.Base.{
  ℕ, zero, suc, String, Bool, true, false, Option, none, some, List, [], ◌∷◌, ◌++◌, Outcome, ok,
  err, if◌then◌else◌, str_eq, GoMap, empty, put, length, ℤ, pos, ◌+ℤ◌, ◌-ℤ◌, eq_ℤ,
}
use hydra_db.Execution.Job.{Ref, ExecError, has_a_cycle}
use hydra_db.Execution.Dag.{Dag, children, has_cycle}

-- inDegree[id], which is zero for a key that is missing
abbrev pub degree : GoMap ℤ → String → ℤ
degree m id = elim (m id) [ none ↦ pos 0 | some n ↦ n ]

unfoldable pub zero_degrees : List (String × Ref) → GoMap ℤ → GoMap ℤ
zero_degrees [] m = m
zero_degrees ((id, job) ∷ rest) m = zero_degrees rest (put id (pos 0) m)

unfoldable pub count_children : List String → GoMap ℤ → GoMap ℤ
count_children [] m = m
count_children (c ∷ cs) m = count_children cs (put c (degree m c +ℤ pos 1) m)

unfoldable pub count_edges : List (String × List String) → GoMap ℤ → GoMap ℤ
unfolding count_children
count_edges [] m = m
count_edges ((id, cs) ∷ rest) m = count_edges rest (count_children cs m)

-- The first two loops, which visit the nodes and the edges in some order.
unfoldable pub in_degrees : List (String × Ref) → List (String × List String) → GoMap ℤ
unfolding zero_degrees count_edges
in_degrees order edge_order = count_edges edge_order (zero_degrees order empty)

-- The third loop, over the in-degrees in some order.
unfoldable pub roots : List (String × ℤ) → List String
roots [] = []
roots ((id, n) ∷ rest) = let found = roots rest in if eq_ℤ n (pos 0) then id ∷ found else found

-- if inDegree[child] == 0 { queue = append(queue, child) }
unfoldable pub enqueued : (child : String) → ℤ → List String → List String
enqueued c n queue = if eq_ℤ n (pos 0) then queue ++ c ∷ [] else queue

-- The loop over the children of the node that leaves the queue.
unfoldable pub release : List String → GoMap ℤ → List String → GoMap ℤ × List String
unfolding enqueued
release [] m queue = (m, queue)
release (c ∷ cs) m queue =
    let n = degree m c -ℤ pos 1 in release cs (put c n m) (enqueued c n queue)

-- The last loop. Each round takes a node out of the queue.
unfoldable pub drain : Dag → (fuel : ℕ) → GoMap ℤ → (queue out : List String) → Option (List String)
unfolding release
drain d fuel m [] out = some out
drain d zero m (v ∷ queue) out = none
drain d (suc fuel) m (v ∷ queue) out =
    let (m', queue') = release (children d v) m queue in drain d fuel m' queue' (out ++ v ∷ [])

-- The nodes, the edges and the in-degrees are visited in these orders. `none` stands for a loop that
-- has not ended.
unfoldable pub topological_sort :
    List (String × Ref)
    → List (String × List String)
    → List (String × ℤ)
    → Dag
    → Option (Outcome ExecError (List String))
unfolding in_degrees roots drain
topological_sort order edge_order degree_order d = elim (has_cycle order d) [
  | none ↦ none
  | some true ↦ some (err has_a_cycle)
  | some false ↦
      elim (drain d (length order) (in_degrees order edge_order) (roots degree_order) []) [
        | none ↦ none
        | some out ↦ some (ok out)
      ]
]
