-- ===== src/Execution/Dag.antt =====
-- internal/execution/dag.go: jobs and the dependencies between them. A range over a map takes the
-- order of the visit. The depth-first search and the loop of the sort run on fuel.
pub mod Paths
pub mod Colours
pub mod Depth
pub mod Cycles
pub mod Dependencies
pub mod Sort
pub mod Built
mod Examples
use hydra_db.Base.{
  ℕ, zero, suc, String, Bool, true, false, Option, none, some, List, [], ◌∷◌, ◌++◌, Outcome, ok,
  err, if◌then◌else◌, str_eq, GoMap, empty, put, length, ℤ, pos, ◌+ℤ◌, ◌-ℤ◌, eq_ℤ,
}
use hydra_db.Execution.Job.{
  Ref, Heap, ExecError, job_exists, parent_not_found, child_not_found, creates_cycle, has_a_cycle,
}

pub record Dag : Type 0 where
  pub nodes : GoMap Ref
  pub edges : GoMap (List String)

unfoldable pub new_dag : Dag
new_dag = record { nodes = empty; edges = empty }

-- d.edges[id], which is nil for a key that is missing
abbrev pub children : Dag → String → List String
children d id = elim (d.edges id) [ none ↦ [] | some cs ↦ cs ]

unfoldable pub add_job : Heap → Ref → Dag → Dag × Option ExecError
add_job heap job d = elim (d.nodes (heap job).id) [
  | some old ↦ (d, some (job_exists (heap job).id))
  | none ↦ (record d { nodes = put (heap job).id job d.nodes }, none)
]

pub data Colour : Type 0 where
  white gray black : Colour

-- `color`: the zero value of a missing key is white.
abbrev pub Colours : Type 0
Colours = String → Colour

abbrev pub paint : String → Colour → Colours → Colours
paint id c colours k = if str_eq id k then c else colours k

-- What a search has come to: it met a cycle (`true`), or it ended without one (`false`).
pub data Search : Type 0 where
  out_of_fuel found : Search
  finished : Colours → Search

-- The loop of `dfs` over the children; `visit` is the recursive call.
unfoldable pub scan : (visit : String → Colours → Search) → List String → Colours → Search
scan visit [] colours = finished colours
scan visit (c ∷ cs) colours = elim (colours c) [
  | gray ↦ found
  | black ↦ scan visit cs colours
  | white ↦ elim (visit c colours) [
    | out_of_fuel ↦ out_of_fuel
    | found ↦ found
    | finished colours' ↦ scan visit cs colours'
  ]
]

blacken : String → Search → Search
blacken id (finished colours) = finished (paint id black colours)
blacken id s = s

unfoldable pub dfs : Dag → ℕ → String → Colours → Search
unfolding scan blacken
dfs d zero id colours = out_of_fuel
dfs d (suc fuel) id colours = blacken id (scan (dfs d fuel) (children d id) (paint id gray colours))

-- The loop of `HasCycle` over the nodes.
unfoldable pub search_all : Dag → (fuel : ℕ) → List (String × Ref) → Colours → Search
unfolding dfs
search_all d fuel [] colours = finished colours
search_all d fuel ((id, job) ∷ rest) colours = elim (colours id) [
  | white ↦ elim (dfs d fuel id colours) [
    | out_of_fuel ↦ out_of_fuel
    | found ↦ found
    | finished colours' ↦ search_all d fuel rest colours'
  ]
  | _ ↦ search_all d fuel rest colours
]

is_found : Search → Option Bool
is_found out_of_fuel = none
is_found found = some true
is_found (finished colours) = some false

-- `none` if the fuel runs out; a search goes no deeper than there are nodes.
unfoldable pub has_cycle : (order : List (String × Ref)) → Dag → Option Bool
unfolding search_all is_found
has_cycle order d = is_found (search_all d (length order) order (λ k. white))

-- d.edges[parent] = append(d.edges[parent], child)
unfoldable pub add_edge : (parent child : String) → Dag → Dag
add_edge parent child d = record d { edges = put parent (children d parent ++ child ∷ []) d.edges }

-- s[:len(s)-1]
abbrev pub drop_last : List String → List String
drop_last [] = []
drop_last (x ∷ []) = []
drop_last (x ∷ y ∷ xs) = x ∷ drop_last (y ∷ xs)

unfoldable pub roll_back : (parent : String) → Dag → Dag
roll_back parent d = record d { edges = put parent (drop_last (children d parent)) d.edges }

-- `none` as for `has_cycle`, which visits the nodes in the order `order`.
unfoldable pub add_dependency :
    (order : List (String × Ref)) → (parent child : String) → Dag → Option (Dag × Option ExecError)
unfolding has_cycle
add_dependency order parent child d = elim (d.nodes parent) [
  | none ↦ some (d, some (parent_not_found parent))
  | some _ ↦ elim (d.nodes child) [
    | none ↦ some (d, some (child_not_found child))
    | some _ ↦ elim (has_cycle order (add_edge parent child d)) [
      | none ↦ none
      | some true ↦
          some (roll_back parent (add_edge parent child d), some (creates_cycle parent child))
      | some false ↦ some (add_edge parent child d, none)
    ]
  ]
]
