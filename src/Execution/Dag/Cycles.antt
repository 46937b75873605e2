-- ===== src/Execution/Dag/Cycles.antt =====
-- internal/execution/dag.go: what `HasCycle` answers.
use hydra_db.Base.{
  ℕ, ◌≤◌, String, ◌≡◌, ◌≢◌, refl, subst, inl, inr, ◌⊎◌, Bool, true, false, Option, none, some, List,
  [], ◌∷◌, arith, Memᴰ, Option-cases, length, All, All-mem, Ranges,
}
use hydra_db.Execution.Job.{Ref}
use hydra_db.Execution.Dag.{
  Dag, Colour, white, gray, black, Colours, Search, out_of_fuel, found, finished, dfs, search_all,
  is_found, has_cycle,
}
use hydra_db.Execution.Dag.Paths.{Edge, Cycle, Safe, Safe-acyclic, WellFormed}
use hydra_db.Execution.Dag.Colours.{Ready, Kept, Good, dfs-Good}
use hydra_db.Execution.Dag.Depth.{Listed, whites, whites-le, whites-le-length, Ended, dfs_ends}

module _ (d : Dag) where
  -- Between the searches of two roots no node is gray.
  record Clear (colours : Colours) : Type 0 where
    no_gray : (g : String) → colours g ≢ gray
    blacks : (b : String) → colours b ≡ black → Safe d b

  Clear-Ready : {colours : Colours} (v : String) → Clear colours → Ready d v colours
  Clear-Ready v clear = record { grays = λ g e. absurd (clear.no_gray g e); blacks = clear.blacks }

  Clear-Kept : {a b : Colours} → Clear a → Kept d a b → Clear b
  Clear-Kept clear kept = record {
    no_gray = λ g e. clear.no_gray g ((kept.grays g).0 e);
    blacks = kept.safe_blacks;
  }

  module _ (all : List (String × Ref)) (listed : (u v : String) → Edge d u v → Listed all v) where
    -- The outcome of the loop over `order`: a cycle, or each of its nodes is black.
    abbrev Decided : Colours → List (String × Ref) → Search → Type 0
    Decided before order out_of_fuel = ⊥
    Decided before order found = Cycle d
    Decided before order (finished after) =
        Clear after
        × ((b : String) → before b ≡ black → after b ≡ black)
        × All (λ e. after e.0 ≡ black) order

    -- One root: the outcome of its search, and of the loop over the others behind it.
    root : (fuel : ℕ) → List (String × Ref) → Search → Search
    root fuel rest out_of_fuel = out_of_fuel
    root fuel rest found = found
    root fuel rest (finished after) = search_all d fuel rest after

    at_root : (fuel : ℕ) → Colour → String → List (String × Ref) → Colours → Search
    unfolding root
    at_root fuel white id rest colours = root fuel rest (dfs d fuel id colours)
    at_root fuel _ id rest colours = search_all d fuel rest colours

    search_all-cons :
        (fuel : ℕ) (id : String) (job : Ref) (rest : List (String × Ref)) (colours : Colours)
        → at_root fuel (colours id) id rest colours ≡ search_all d fuel ((id, job) ∷ rest) colours
    unfolding at_root root search_all
    search_all-cons fuel id job rest colours = ground arith

    Decided-cons :
        {a b : Colours} (id : String) (job : Ref) (rest : List (String × Ref)) (s : Search)
        → ((x : String) → a x ≡ black → b x ≡ black)
        → b id ≡ black
        → Decided b rest s
        → Decided a ((id, job) ∷ rest) s
    Decided-cons id job rest out_of_fuel mono done h = h
    Decided-cons id job rest found mono done h = h
    Decided-cons id job rest (finished after) mono done (clear, kept, blacks) =
        (clear, λ x e. kept x (mono x e), (kept id done, blacks))

    root-Decided :
        (fuel : ℕ) (id : String) (job : Ref) (rest : List (String × Ref)) (colours : Colours)
        (s : Search)
        → ((b : Colours)
            → Clear b
            → whites all b ≤ fuel
            → Decided b rest (search_all d fuel rest b))
        → Clear colours
        → whites all colours ≤ fuel
        → Good d (id ∷ []) colours s
        → Ended colours s
        → Decided colours ((id, job) ∷ rest) (root fuel rest s)
    unfolding root
    root-Decided fuel id job rest colours out_of_fuel ih clear le good ended = ended
    root-Decided fuel id job rest colours found ih clear le good ended = good
    root-Decided fuel id job rest colours (finished after) ih clear le (kept, (done, _)) ended =
        Decided-cons id job rest (search_all d fuel rest after) kept.blacks done
          (ih after (Clear-Kept clear kept) (omega (arith, whites-le all after colours ended)))

    at_root-Decided :
        (fuel : ℕ) (id : String) (job : Ref) (rest : List (String × Ref)) (colours : Colours)
        (k : Colour)
        → colours id ≡ k
        → Listed all id
        → ((b : Colours)
            → Clear b
            → whites all b ≤ fuel
            → Decided b rest (search_all d fuel rest b))
        → Clear colours
        → whites all colours ≤ fuel
        → Decided colours ((id, job) ∷ rest) (at_root fuel k id rest colours)
    unfolding at_root
    at_root-Decided fuel id job rest colours gray e l ih clear le = absurd (clear.no_gray id e)
    at_root-Decided fuel id job rest colours black e l ih clear le =
        Decided-cons id job rest (search_all d fuel rest colours) (λ x h. h) e (ih colours clear le)
    at_root-Decided fuel id job rest colours white e l ih clear le =
        root-Decided fuel id job rest colours (dfs d fuel id colours) ih clear le
          (dfs-Good d fuel id colours e (Clear-Ready id clear))
          (dfs_ends d all listed fuel id colours l e le)

    search_all-Decided :
        (fuel : ℕ) (order : List (String × Ref)) (colours : Colours)
        → ((id : String) (job : Ref) → Memᴰ (id, job) order → Listed all id)
        → Clear colours
        → whites all colours ≤ fuel
        → Decided colours order (search_all d fuel order colours)
    unfolding search_all
    search_all-Decided fuel [] colours l clear le = (clear, λ b e. e, tt)
    search_all-Decided fuel ((id, job) ∷ rest) colours l clear le =
        subst (Decided colours ((id, job) ∷ rest)) (search_all-cons fuel id job rest colours) (
          at_root-Decided fuel id job rest colours (colours id) refl (l id job (Memᴰ.head refl))
            (λ b. search_all-Decided fuel rest b (λ x j m. l x j (Memᴰ.tail m))) clear le)

all_white : (d : Dag) → Clear d (λ k. white)
all_white d = record { no_gray = λ g e. cc e; blacks = λ b e. cc e }

pub Listed-node :
    (d : Dag) (order : List (String × Ref))
    → Ranges d.nodes order
    → (v : String) → d.nodes v ≢ none
    → Listed order v
Listed-node d order ranges v h = elim (Option-cases (d.nodes v)) [
  | inl missing ↦ absurd (h missing)
  | inr (job, e) ↦ (job, ranges.complete v job e)
]

abbrev Answer : Dag → Option Bool → Type 0
Answer d none = ⊥
Answer d (some true) = Cycle d
Answer d (some false) = ¬ Cycle d

answered :
    (d : Dag) (order : List (String × Ref)) (s : Search)
    → WellFormed d
    → Ranges d.nodes order
    → (listed : (u v : String) → Edge d u v → Listed order v)
    → Decided d order listed (λ k. white) order s
    → Answer d (is_found s)
unfolding is_found
answered d order out_of_fuel wf ranges listed h = h
answered d order found wf ranges listed h = h
answered d order (finished after) wf ranges listed (clear, kept, blacks) = λ c.
    let (job, m) = Listed-node d order ranges c.last (wf.parent c.last c.first c.back) in
    let (job', m') = listed c.last c.first c.back in
    Safe-acyclic (clear.blacks c.first (All-mem (λ e. after e.0 ≡ black) order blacks m')) c.walk
      c.back

has_cycle-Answer :
    (d : Dag) (order : List (String × Ref))
    → WellFormed d
    → Ranges d.nodes order
    → Answer d (has_cycle order d)
unfolding has_cycle
has_cycle-Answer d order wf ranges =
    let listed : (u v : String) → Edge d u v → Listed order v =
      λ u v e. Listed-node d order ranges v (wf.child u v e) in
    answered d order (search_all d (length order) order (λ k. white)) wf ranges listed (
      search_all-Decided d order listed (length order) order (λ k. white) (λ id job m. (job, m))
        (all_white d) (whites-le-length order (λ k. white)))

answer_cases :
    (d : Dag) (r : Option Bool)
    → Answer d r
    → ((r ≡ some true) × Cycle d) ⊎ ((r ≡ some false) × (¬ Cycle d))
answer_cases d none h = absurd h
answer_cases d (some true) h = inl (refl, h)
answer_cases d (some false) h = inr (refl, h)

-- If only nodes have edges, then whatever the order of the visit, `HasCycle` returns: true when
-- there is a cycle, and false when there is none.
pub has_cycle_cases :
    (d : Dag) (order : List (String × Ref))
    → WellFormed d
    → Ranges d.nodes order
    → ((has_cycle order d ≡ some true) × Cycle d) ⊎ ((has_cycle order d ≡ some false) × (¬ Cycle d))
has_cycle_cases d order wf ranges =
    answer_cases d (has_cycle order d) (has_cycle-Answer d order wf ranges)
