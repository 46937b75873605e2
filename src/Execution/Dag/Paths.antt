-- ===== src/Execution/Dag/Paths.antt =====
-- internal/execution/dag.go: edges, walks and cycles of a graph of jobs.
use hydra_db.Base.{String, ◌≢◌, none, Memᴰ}
use hydra_db.Execution.Dag.{Dag, children}

-- `u` is a parent of `v`.
abbrev pub Edge : Dag → String → String → Type 0
Edge d u v = Memᴰ v (children d u)

pub data Walk (d : Dag) (u : String) : String → Type 0 where
  here : Walk d u u
  step : {v w : String} → Walk d u v → Edge d v w → Walk d u w

-- A job that depends on itself, over any number of jobs in between.
pub record Cycle (d : Dag) : Type 0 where
  pub first : String
  pub last : String
  pub walk : Walk d first last
  pub back : Edge d last first

-- Only nodes have edges.
pub record WellFormed (d : Dag) : Type 0 where
  pub parent : (u v : String) → Edge d u v → d.nodes u ≢ none
  pub child : (u v : String) → Edge d u v → d.nodes v ≢ none

-- Every way down from `v` ends.
pub data Safe (d : Dag) : String → Type 0 where
  safe : {v : String} → ((c : String) → Edge d v c → Safe d c) → Safe d v

pub Safe-child : {d : Dag} {v c : String} → Safe d v → Edge d v c → Safe d c
Safe-child (safe below) e = below _ e

pub Safe-Walk : {d : Dag} {u v : String} → Safe d u → Walk d u v → Safe d v
Safe-Walk s here = s
Safe-Walk s (step w e) = Safe-child (Safe-Walk s w) e

pub Walk-trans : {d : Dag} {u v w : String} → Walk d u v → Walk d v w → Walk d u w
Walk-trans p here = p
Walk-trans p (step q e) = step (Walk-trans p q) e

-- The first edge of a walk that is one edge longer.
pub first_step :
    {d : Dag} {v u x : String} → Walk d v u → Edge d u x → (c : String) × Edge d v c × Walk d c x
first_step {x = x} here e = (x, e, here)
first_step (step w e) e' = let (c, first, rest) = first_step w e in (c, first, step rest e')

-- A node below which everything ends is on no cycle.
pub Safe-acyclic : {d : Dag} {v u : String} → Safe d v → Walk d v u → Edge d u v → ⊥
Safe-acyclic {d} {v} (safe below) w e =
    let (c, first, rest) = first_step w e in Safe-acyclic (below c first) rest first

pub Walk-map :
    {d d' : Dag} {u w : String}
    → ((u v : String) → Edge d u v → Edge d' u v)
    → Walk d u w
    → Walk d' u w
Walk-map f here = here
Walk-map f (step w e) = step (Walk-map f w) (f _ _ e)

pub Cycle-map : {d d' : Dag} → ((u v : String) → Edge d u v → Edge d' u v) → Cycle d → Cycle d'
Cycle-map f c = record {
  first = c.first;
  last = c.last;
  walk = Walk-map f c.walk;
  back = f _ _ c.back;
}
