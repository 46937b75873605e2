-- ===== src/Execution/Dag/Colours.antt =====
-- internal/execution/dag.go: what the depth-first search of `HasCycle` does to the colours.
use hydra_db.Base.{
  ℕ, zero, suc, String, ◌≡◌, refl, subst, ◌↔◌, inl, inr, List, [], ◌∷◌, str_eq, eq_iff, arith, Memᴰ,
  Bool-cases, All, All-mem,
}
use hydra_db.Execution.Dag.{
  Dag, children, Colour, white, gray, black, Colours, paint, Search, out_of_fuel, found, finished,
  scan, dfs, blacken,
}
use hydra_db.Execution.Dag.Paths.{Edge, Walk, here, step, Cycle, Safe, safe}

module _ (visit : String → Colours → Search) where
  -- The rest of the loop, behind the visit of a child.
  unfoldable pub after_visit : List String → Search → Search
  after_visit cs s = elim s [
    | out_of_fuel ↦ out_of_fuel
    | found ↦ found
    | finished colours ↦ scan visit cs colours
  ]

  unfoldable pub scan_step : Colour → (c : String) → List String → Colours → Search
  unfolding after_visit
  scan_step gray c cs colours = found
  scan_step black c cs colours = scan visit cs colours
  scan_step white c cs colours = after_visit cs (visit c colours)

  pub scan-cons :
      (c : String) (cs : List String) (colours : Colours)
      → scan_step (colours c) c cs colours ≡ scan visit (c ∷ cs) colours
  unfolding scan scan_step
  scan-cons c cs colours = ground arith

module _ (d : Dag) where
  -- Where a search of the node `v` may start: `v` can be reached from all that are gray, and
  -- everything below a black node ends.
  pub record Ready (v : String) (colours : Colours) : Type 0 where
    pub grays : (g : String) → colours g ≡ gray → Walk d g v
    pub blacks : (b : String) → colours b ≡ black → Safe d b

  -- What a search that ended without a cycle leaves of the colours.
  pub record Kept (before after : Colours) : Type 0 where
    pub grays : (g : String) → (after g ≡ gray) ↔ (before g ≡ gray)
    pub blacks : (b : String) → before b ≡ black → after b ≡ black
    pub safe_blacks : (b : String) → after b ≡ black → Safe d b

  -- The outcome of a search that has to blacken `cs`.
  abbrev pub Good : List String → Colours → Search → Type 0
  Good cs before out_of_fuel = Unit
  Good cs before found = Cycle d
  Good cs before (finished after) = Kept before after × All (λ c. after c ≡ black) cs

  Kept-trans : {a b c : Colours} → Kept a b → Kept b c → Kept a c
  Kept-trans p q = record {
    grays = λ g. (λ e. (p.grays g).0 ((q.grays g).0 e), λ e. (q.grays g).1 ((p.grays g).1 e));
    blacks = λ b e. q.blacks b (p.blacks b e);
    safe_blacks = q.safe_blacks;
  }

  Kept-refl : {v : String} {colours : Colours} → Ready v colours → Kept colours colours
  Kept-refl ready = record {
    grays = λ g. (λ e. e, λ e. e);
    blacks = λ b e. e;
    safe_blacks = ready.blacks;
  }

  Good-after :
      {a b : Colours} {c : String} (cs : List String) (s : Search)
      → Kept a b
      → b c ≡ black
      → Good cs b s
      → Good (c ∷ cs) a s
  Good-after cs out_of_fuel p black_c g = tt
  Good-after cs found p black_c g = g
  Good-after {c = c} cs (finished after) p black_c (q, all) =
      (Kept-trans p q, (q.blacks c black_c, all))

  Ready-after : {v : String} {a b : Colours} → Ready v a → Kept a b → Ready v b
  Ready-after r p = record { grays = λ g e. r.grays g ((p.grays g).0 e); blacks = p.safe_blacks }

  abbrev Visits : (String → Colours → Search) → Type 0
  Visits visit =
      (c : String) (colours : Colours)
      → colours c ≡ white
      → Ready c colours
      → Good (c ∷ []) colours (visit c colours)

  module _ (visit : String → Colours → Search) (visits : Visits visit) (v : String) where
    visited :
        (c : String) (cs : List String) (colours : Colours) (s : Search)
        → ((b : Colours) → Ready v b → Good cs b (scan visit cs b))
        → Ready v colours
        → Good (c ∷ []) colours s
        → Good (c ∷ cs) colours (after_visit visit cs s)
    unfolding after_visit
    visited c cs colours out_of_fuel rest ready good = tt
    visited c cs colours found rest ready good = good
    visited c cs colours (finished after) rest ready (kept, (done, _)) =
        Good-after cs (scan visit cs after) kept done (rest after (Ready-after ready kept))

    scan_child :
        (c : String) (cs : List String) (colours : Colours) (k : Colour)
        → colours c ≡ k
        → Edge d v c
        → ((b : Colours) → Ready v b → Good cs b (scan visit cs b))
        → Ready v colours
        → Good (c ∷ cs) colours (scan_step visit k c cs colours)
    unfolding scan_step
    scan_child c cs colours gray e edge rest ready = record {
      first = c;
      last = v;
      walk = ready.grays c e;
      back = edge;
    }
    scan_child c cs colours black e edge rest ready =
        Good-after cs (scan visit cs colours) (Kept-refl ready) e (rest colours ready)
    scan_child c cs colours white e edge rest ready =
        let ready_c : Ready c colours = record {
          grays = λ g h. step (ready.grays g h) edge;
          blacks = ready.blacks;
        } in
        visited c cs colours (visit c colours) rest ready (visits c colours e ready_c)

    scan-Good :
        (cs : List String) (colours : Colours)
        → ((c : String) → Memᴰ c cs → Edge d v c)
        → Ready v colours
        → Good cs colours (scan visit cs colours)
    unfolding scan
    scan-Good [] colours edges ready = (Kept-refl ready, tt)
    scan-Good (c ∷ cs) colours edges ready =
        subst (Good (c ∷ cs) colours) (scan-cons visit c cs colours) (
          scan_child c cs colours (colours c) refl (edges c (Memᴰ.head refl))
            (λ b. scan-Good cs b (λ x m. edges x (Memᴰ.tail m))) ready)

  Ready-gray : {v : String} {colours : Colours} → Ready v colours → Ready v (paint v gray colours)
  Ready-gray {v} {colours} ready = record {
    grays = λ g e. elim (Bool-cases (str_eq v g)) [
      | inl same ↦ subst (λ x. Walk d x v) ((eq_iff v g).0 same) here
      | inr other ↦ ready.grays g (rw other at e)
    ];
    blacks = λ b e. elim (Bool-cases (str_eq v b)) [
      | inl same ↦ cc (rw same at e)
      | inr other ↦ ready.blacks b (rw other at e)
    ];
  }

  blacken-Good :
      (v : String) (colours : Colours) (s : Search)
      → colours v ≡ white
      → Good (children d v) (paint v gray colours) s
      → Good (v ∷ []) colours (blacken v s)
  unfolding blacken
  blacken-Good v colours out_of_fuel fresh good = tt
  blacken-Good v colours found fresh good = good
  blacken-Good v colours (finished after) fresh (kept, all) = (
    record {
      grays = λ g. ground (arith, kept.grays g, eq_iff v g);
      blacks = λ b e. ground (arith, kept.blacks b, eq_iff v b);
      safe_blacks = λ b e. elim (Bool-cases (str_eq v b)) [
        | inl same ↦
            subst (Safe d) ((eq_iff v b).0 same)
              (safe (λ c edge. kept.safe_blacks c (All-mem _ (children d v) all edge)))
        | inr other ↦ kept.safe_blacks b (rw other at e)
      ];
    },
    (rw ((eq_iff v v).1 refl), tt),
  )

  -- A search from a white node finds a cycle, blackens the node, or runs out of fuel.
  pub dfs-Good : (fuel : ℕ) → Visits (dfs d fuel)
  unfolding dfs
  dfs-Good zero v colours fresh ready = tt
  dfs-Good (suc fuel) v colours fresh ready =
      blacken-Good v colours (scan (dfs d fuel) (children d v) (paint v gray colours)) fresh (
        scan-Good (dfs d fuel) (dfs-Good fuel) v (children d v) (paint v gray colours) (λ c m. m)
          (Ready-gray ready))
