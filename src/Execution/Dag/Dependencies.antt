-- ===== src/Execution/Dag/Dependencies.antt =====
-- internal/execution/dag.go: `AddDependency`.
use mathlib.Core.List.Memᴰ
use hydra_db.Base.{
  String, ◌≡◌, ◌≢◌, refl, sym, ap, ◌∙◌, subst, inl, inr, ◌⊎◌, true, false, Option, none, some, List,
  [], ◌∷◌, ◌++◌, if◌then◌else◌, str_eq, eq_iff, arith, Memᴰ, Bool-cases, Option-cases, Ranges,
}
use hydra_db.Execution.Job.{Ref, ExecError, creates_cycle}
use hydra_db.Execution.Dag.{Dag, children, add_edge, drop_last, roll_back, add_dependency}
use hydra_db.Execution.Dag.Paths.{
  Edge, Walk, here, step, Walk-trans, Walk-map, Cycle, Cycle-map, WellFormed,
}
use hydra_db.Execution.Dag.Cycles.{has_cycle_cases}

drop_last-append : (xs : List String) (x : String) → drop_last (xs ++ x ∷ []) ≡ xs
drop_last-append [] x = refl
drop_last-append (y ∷ []) x = refl
drop_last-append (y ∷ z ∷ xs) x = ap (λ l. y ∷ l) (drop_last-append (z ∷ xs) x)

module _ (d : Dag) (parent child : String) where
  children-add_edge :
      (k : String)
      → children (add_edge parent child d) k
        ≡ (if str_eq parent k then children d parent ++ child ∷ [] else children d k)
  unfolding add_edge
  children-add_edge k = ground arith

  -- The roll-back restores what every key yields.
  children-roll_back :
      (k : String) → children (roll_back parent (add_edge parent child d)) k ≡ children d k
  unfolding roll_back add_edge
  children-roll_back k = elim (Bool-cases (str_eq parent k)) [
    | inl same ↦ ground (
      arith,
      drop_last-append (children d parent) child,
      eq_iff parent parent,
      ap (children d) ((eq_iff parent k).0 same),
    )
    | inr other ↦ ground arith
  ]

  children-add_edge_other :
      (k : String) → str_eq parent k ≡ false → children (add_edge parent child d) k ≡ children d k
  children-add_edge_other k other = children-add_edge k ∙ rw other refl

  children-add_edge_parent :
      (k : String)
      → str_eq parent k ≡ true
      → children (add_edge parent child d) k ≡ children d parent ++ child ∷ []
  children-add_edge_parent k same = children-add_edge k ∙ rw same refl

  kept_before : (u v : String) → Edge d u v → Edge (add_edge parent child d) u v
  kept_before u v e = elim (Bool-cases (str_eq parent u)) [
    | inl same ↦
        subst (Memᴰ v) (sym (children-add_edge_parent u same)) (
          Memᴰ.append_left (child ∷ [])
            (subst (λ x. Edge d x v) (sym ((eq_iff parent u).0 same)) e))
    | inr other ↦ subst (Memᴰ v) (sym (children-add_edge_other u other)) e
  ]

  last_added : Edge (add_edge parent child d) parent child
  last_added =
      subst (Memᴰ child) (sym (children-add_edge_parent parent ((eq_iff parent parent).1 refl)))
        (Memᴰ.append_right (children d parent) (Memᴰ.head refl))

  -- An edge of the longer graph is an old one, or the new one.
  Edge-cases :
      (u v : String)
      → Edge (add_edge parent child d) u v
      → Edge d u v ⊎ ((u ≡ parent) × (v ≡ child))
  Edge-cases u v e = elim (Bool-cases (str_eq parent u)) [
    | inr other ↦ inl (subst (Memᴰ v) (children-add_edge_other u other) e)
    | inl same ↦
        let same' : parent ≡ u = (eq_iff parent u).0 same in
        elim (Memᴰ.append_cases (children d parent)
          (subst (Memᴰ v) (children-add_edge_parent u same) e)) [
            | inl old ↦ inl (subst (λ x. Edge d x v) same' old)
            | inr last ↦ inr (sym same', Memᴰ.eq_of_singleton last)
          ]
  ]

  -- A walk in the longer graph takes old edges only, or comes to the new edge and leaves it again.
  Walk-cases :
      {u v : String}
      → Walk (add_edge parent child d) u v
      → Walk d u v ⊎ (Walk d u parent × Walk d child v)
  Walk-cases here = inl here
  Walk-cases (step {v} {w} p e) = elim (Edge-cases v w e) [
    | inl old ↦ elim (Walk-cases p) [ inl q ↦ inl (step q old) | inr (q, r) ↦ inr (q, step r old) ]
    | inr (is_parent, is_child) ↦ elim (Walk-cases p) [
      | inl q ↦ inr (subst (Walk d _) is_parent q, subst (Walk d child) (sym is_child) here)
      | inr (q, r) ↦ inr (q, subst (Walk d child) (sym is_child) here)
    ]
  ]

  -- A cycle that the new edge makes leads back from the child to the parent.
  leads_back : ¬ Cycle d → Cycle (add_edge parent child d) → Walk d child parent
  leads_back acyclic c = elim (Walk-cases c.walk) [
    | inl p ↦ elim (Edge-cases c.last c.first c.back) [
      | inl old ↦ absurd (acyclic (record { first = c.first; last = c.last; walk = p; back = old }))
      | inr (is_parent, is_child) ↦
          subst (Walk d child) is_parent (subst (λ x. Walk d x c.last) is_child p)
    ]
    | inr (p, r) ↦ elim (Edge-cases c.last c.first c.back) [
      | inl old ↦ Walk-trans (step r old) p
      | inr (is_parent, is_child) ↦ subst (Walk d child) is_parent r
    ]
  ]

  closes : Walk d child parent → Cycle (add_edge parent child d)
  closes w = record {
    first = child;
    last = parent;
    walk = Walk-map kept_before w;
    back = last_added;
  }

  add_edge-WellFormed :
      WellFormed d
      → d.nodes parent ≢ none
      → d.nodes child ≢ none
      → WellFormed (add_edge parent child d)
  unfolding add_edge
  add_edge-WellFormed wf p c = record {
    parent = λ u v e. elim (Edge-cases u v e) [
      | inl old ↦ wf.parent u v old
      | inr (is_parent, _) ↦ subst (λ x. d.nodes x ≢ none) (sym is_parent) p
    ];
    child = λ u v e. elim (Edge-cases u v e) [
      | inl old ↦ wf.child u v old
      | inr (_, is_child) ↦ subst (λ x. d.nodes x ≢ none) (sym is_child) c
    ];
  }

pub record IsAcyclic (d : Dag) : Type 0 where
  pub well_formed : WellFormed d
  pub acyclic : ¬ Cycle d

-- Graphs with the same nodes and children are alike.
same_children-IsAcyclic :
    (d d' : Dag)
    → ((k : String) → d'.nodes k ≡ d.nodes k)
    → ((k : String) → children d' k ≡ children d k)
    → IsAcyclic d
    → IsAcyclic d'
same_children-IsAcyclic d d' nodes same h =
    let down : (u v : String) → Edge d' u v → Edge d u v = λ u v e. subst (Memᴰ v) (same u) e in
    record {
      well_formed = record {
        parent = λ u v e missing. h.well_formed.parent u v (down u v e) (sym (nodes u) ∙ missing);
        child = λ u v e missing. h.well_formed.child u v (down u v e) (sym (nodes v) ∙ missing);
      };
      acyclic = λ c. h.acyclic (Cycle-map down c);
    }

-- What a call for two known nodes does to the graph.
pub data Added (parent child : String) (d d' : Dag) : Option ExecError → Type 0 where
  added :
      (¬ Walk d child parent)
      → ((k : String)
          → children d' k
            ≡ (if str_eq parent k then children d parent ++ child ∷ [] else children d k))
      → Added parent child d d' none
  refused :
      Walk d child parent
      → ((k : String) → children d' k ≡ children d k)
      → Added parent child d d' (some (creates_cycle parent child))

module _ (d : Dag) (order : List (String × Ref)) (parent child : String) (h : IsAcyclic d)
    (ranges : Ranges d.nodes order) (p : d.nodes parent ≢ none) (c : d.nodes child ≢ none) where
  nodes_kept : (k : String) → (roll_back parent (add_edge parent child d)).nodes k ≡ d.nodes k
  unfolding roll_back add_edge
  nodes_kept k = refl

  same_nodes : Ranges (add_edge parent child d).nodes order
  unfolding add_edge
  same_nodes = ranges

  -- `AddDependency` between two nodes of a graph without a cycle returns, whatever the order of the
  -- visit, and leaves no cycle. It adds the edge, unless the parent can be reached from the child:
  -- then it fails, and every job keeps its children.
  pub add_dependency_lem :
      (d' : Dag) × (e : Option ExecError) × (add_dependency order parent child d ≡ some (d', e))
      × IsAcyclic d'
      × Added parent child d d' e
  unfolding add_dependency
  add_dependency_lem =
      let wf' = add_edge-WellFormed d parent child h.well_formed p c in
      elim (Option-cases (d.nodes parent)) [
        | inl missing ↦ absurd (p missing)
        | inr (_, known) ↦ elim (Option-cases (d.nodes child)) [
          | inl missing ↦ absurd (c missing)
          | inr (_, known') ↦
              elim (has_cycle_cases (add_edge parent child d) order wf' same_nodes) [
                | inl (yields, cycle) ↦ (
                  roll_back parent (add_edge parent child d),
                  some (creates_cycle parent child),
                  rw (known, known', yields, add_dependency) refl,
                  same_children-IsAcyclic d _ (λ k. nodes_kept k)
                      (children-roll_back d parent child) h,
                  refused (leads_back d parent child h.acyclic cycle)
                      (children-roll_back d parent child),
                )
                | inr (yields, acyclic) ↦ (
                  add_edge parent child d,
                  none,
                  rw (known, known', yields, add_dependency) refl,
                  record { well_formed = wf'; acyclic = acyclic },
                  added (λ w. acyclic (closes d parent child w)) (children-add_edge d parent child),
                )
              ]
        ]
      ]
