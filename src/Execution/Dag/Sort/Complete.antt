-- ===== src/Execution/Dag/Sort/Complete.antt =====
-- internal/execution/dag.go: `TopologicalSort` as a whole. A node that the last loop leaves out has a
-- parent that it leaves out, and so without a cycle there is no such node.
use hydra_db.Base.{
  has_key-true, occurs-key, length-keys, ℕ, zero, suc, ◌+◌, ◌≤◌, ◌<◌, String, ◌≡◌, refl, subst, inl,
  inr, ◌⊎◌, true, false, some, List, [], ◌∷◌, if◌then◌else◌, str_eq, eq_iff, arith, ok, err, Memᴰ,
  Bool-cases, length, occurs, length-le_of_occurs, GoMap, Ranges, ℤ, has_key, keys,
}
use hydra_db.Execution.Job.{Ref, has_a_cycle}
use hydra_db.Execution.Dag.{Dag, children, has_cycle}
use hydra_db.Execution.Dag.Paths.{Edge, Walk, here, step, Walk-trans, Cycle, WellFormed}
use hydra_db.Execution.Dag.Cycles.{has_cycle_cases}
use hydra_db.Execution.Dag.Sort.{drain, in_degrees, roots, topological_sort}
use hydra_db.Execution.Dag.Sort.Incoming.{incoming, waiting_parent, zero_cases}
use hydra_db.Execution.Dag.Sort.Start.{in_degrees-degree, roots_lem}
use hydra_db.Execution.Dag.Sort.Loop.{Sorted, nothing, State, drain_ends}

module _ (d : Dag) (order : List (String × Ref)) (edges : List (String × List String))
    (wf : WellFormed d) (nodes : Ranges d.nodes order) (ranges : Ranges d.edges edges) where
  -- A node that is not in `out`, although nothing stands in the queue any more.
  record Stuck (out : List String) (v : String) : Type 0 where
    known : has_key d.nodes v ≡ true
    waits : 0 < incoming out edges v

  is_child : (u v : String) (cs : List String) → Memᴰ (u, cs) edges → Memᴰ v cs → Edge d u v
  is_child u v cs m m' = subst (Memᴰ v) (rw (ranges.sound u cs m, children) refl) m'

  climb_walks :
      (u v : String) (below : List String)
      → Edge d u v
      → ((k : String) → 0 < occurs k (v ∷ below) → Walk d v k)
      → (k : String) → 0 < occurs k (u ∷ v ∷ below)
      → Walk d u k
  climb_walks u v below edge walks k p = elim (Bool-cases (str_eq u k)) [
    | inl same ↦ subst (Walk d u) ((eq_iff u k).0 same) here
    | inr other ↦ Walk-trans (step here edge) (walks k (ground arith))
  ]

  climb_once :
      (u v : String) (below : List String)
      → ¬ Cycle d
      → Edge d u v
      → has_key d.nodes u ≡ true
      → ((k : String) → occurs k (v ∷ below) ≤ (if has_key d.nodes k then 1 else 0))
      → ((k : String) → 0 < occurs k (v ∷ below) → Walk d v k)
      → (k : String) → occurs k (u ∷ v ∷ below) ≤ (if has_key d.nodes k then 1 else 0)
  climb_once u v below acyclic edge known once walks k = elim (Bool-cases (str_eq u k)) [
    | inr other ↦ ground (arith, once k)
    | inl same ↦ elim (zero_cases (occurs u (v ∷ below))) [
      | inl fresh ↦
          subst (λ x. occurs x (u ∷ v ∷ below) ≤ (if has_key d.nodes x then 1 else 0))
            ((eq_iff u k).0 same) (ground (arith, fresh, known, eq_iff u u))
      | inr seen ↦
          absurd (acyclic (record { first = v; last = u; walk = walks u seen; back = edge }))
    ]
  ]

  module _ {m : GoMap ℤ} {out : List String} (state : State d edges wf ranges m [] out) where
    parent_waits : {v : String} → Stuck out v → (u : String) × Edge d u v × Stuck out u
    parent_waits {v} stuck =
        let (u, cs, m, m', unseen) = waiting_parent v out edges stuck.waits in
        let edge : Edge d u v = is_child u v cs m m' in
        let known : has_key d.nodes u ≡ true = has_key-true d.nodes u (wf.parent u v edge) in
        (u, edge, record { known = known; waits = ground (arith, state.once u, known, unseen) })

    -- Going up from a stuck node never ends, and meets no node again.
    climb :
        ¬ Cycle d
        → (n : ℕ) {v : String} (below : List String) → Stuck out v
        → ((k : String) → occurs k (v ∷ below) ≤ (if has_key d.nodes k then 1 else 0))
        → ((k : String) → 0 < occurs k (v ∷ below) → Walk d v k)
        → length order ≤ n + length below
        → ⊥
    climb acyclic zero {v} below stuck once walks le = absurd (
        omega (
          arith,
          le,
          length-keys order,
          length-le_of_occurs (v ∷ below) (keys order)
              (λ k. omega (arith, once k, occurs-key k nodes)),
        ))
    climb acyclic (suc n) {v} below stuck once walks le =
        let (u, edge, stuck') = parent_waits stuck in
        climb acyclic n (v ∷ below) stuck'
          (λ k. climb_once u v below acyclic edge stuck'.known once walks k)
          (λ k p. climb_walks u v below edge walks k p) (omega arith)

    nobody_waits : ¬ Cycle d → {v : String} → Stuck out v → ⊥
    nobody_waits acyclic {v} stuck =
        climb acyclic (length order) [] stuck
          (λ k. elim (Bool-cases (str_eq v k)) [
            | inl same ↦
                subst (λ x. occurs x (v ∷ []) ≤ (if has_key d.nodes x then 1 else 0))
                  ((eq_iff v k).0 same) (ground (arith, stuck.known, eq_iff v v))
            | inr other ↦ ground arith
          ])
          (λ k p. subst (Walk d v) ((eq_iff v k).0 (ground arith)) here) (omega arith)

    -- In the end the list holds each node once, and nothing else.
    all_out : ¬ Cycle d → (k : String) → occurs k out ≡ (if has_key d.nodes k then 1 else 0)
    all_out acyclic k = elim (zero_cases (incoming out edges k)) [
      | inl nothing_left ↦ ground (arith, state.once k)
      | inr waits ↦ elim (Bool-cases (has_key d.nodes k)) [
        | inl known ↦ absurd (nobody_waits acyclic (record { known = known; waits = waits }))
        | inr unknown ↦ ground (arith, state.once k)
      ]
    ]

-- What the call returns for a graph without a cycle.
pub record Order (d : Dag) (out : List String) : Type 0 where
  pub nodes : (k : String) → occurs k out ≡ (if has_key d.nodes k then 1 else 0)
  pub sorted : Sorted d out

module _ (d : Dag) (order : List (String × Ref)) (edges : List (String × List String))
    (degree_order : List (String × ℤ)) (wf : WellFormed d) (nodes : Ranges d.nodes order)
    (ranges : Ranges d.edges edges) (degrees : Ranges (in_degrees order edges) degree_order) where
  start : State d edges wf ranges (in_degrees order edges) (roots degree_order) []
  start = record {
    degrees = in_degrees-degree d order edges;
    once = λ v. omega (arith, roots_lem d order edges degree_order v nodes degrees);
    sorted = nothing;
  }

  sorted_as :
      {out : List String}
      → has_cycle order d ≡ some false
      → drain d (length order) (in_degrees order edges) (roots degree_order) [] ≡ some out
      → topological_sort order edges degree_order d ≡ some (ok out)
  unfolding topological_sort
  sorted_as verdict ends = rw (verdict, topological_sort, ends) refl

  sorted_cases :
      ¬ Cycle d
      → has_cycle order d ≡ some false
      → (out : List String) × (topological_sort order edges degree_order d ≡ some (ok out))
        × Order d out
  sorted_cases acyclic verdict =
      let (m, out, ends, state) =
        drain_ends d edges wf ranges order nodes (length order) (in_degrees order edges)
          (roots degree_order) [] start (omega arith) in
      (
        out,
        sorted_as verdict ends,
        record {
          nodes = all_out d order edges wf nodes ranges state acyclic;
          sorted = state.sorted;
        },
      )

  -- `TopologicalSort` of a graph in which only nodes have edges returns, whatever the orders of the
  -- visits: each node once, behind all its parents, or an error when there is a cycle.
  pub topological_sort_cases :
      (Cycle d × (topological_sort order edges degree_order d ≡ some (err has_a_cycle)))
      ⊎ ((out : List String) × (topological_sort order edges degree_order d ≡ some (ok out))
          × Order d out)
  unfolding topological_sort
  topological_sort_cases = elim (has_cycle_cases d order wf nodes) [
    | inl (verdict, cycle) ↦ inl (cycle, rw (verdict, topological_sort) refl)
    | inr (verdict, acyclic) ↦ inr (sorted_cases acyclic verdict)
  ]
