-- ===== src/Execution/Dag/Sort/Loop.antt =====
-- internal/execution/dag.go: the last loop of `TopologicalSort`.
use hydra_db.Base.{
  has_key-true, occurs-key, length-keys, ℕ, zero, suc, ◌+◌, ◌<◌, String, ◌≡◌, refl, ap, ◌∙◌, Bool,
  true, ◌&&◌, some, List, [], ◌∷◌, ◌++◌, if◌then◌else◌, ◌==◌, ltb, str_eq, eq_iff, arith, Memᴰ,
  length, length-append, occurs, occurs-append, mem_of_occurs, length-le_of_occurs, GoMap, Ranges,
  ℤ, pos, has_key, keys,
}
use hydra_db.Execution.Job.{Ref}
use hydra_db.Execution.Dag.{Dag, children}
use hydra_db.Execution.Dag.Paths.{Edge, WellFormed}
use hydra_db.Execution.Dag.Sort.{degree, release, drain}
use hydra_db.Execution.Dag.Sort.Degrees.{release_lem}
use hydra_db.Execution.Dag.Sort.Incoming.{incoming, incoming_falls, parents_out}

-- A list of jobs in which each one comes behind its parents.
pub data Sorted (d : Dag) : List String → Type 0 where
  nothing : Sorted d []
  next :
      {out : List String} {v : String}
      → Sorted d out
      → ((u : String) → Edge d u v → Memᴰ u out)
      → Sorted d (out ++ v ∷ [])

-- What one round does to the places of a node: `same` says that it is the one that leaves the queue.
round_once :
    (same : Bool) (q o : ℕ) {q' o' i : ℕ} (i' c : ℕ) (known : Bool)
    → i ≡ i' + c
    → ((if same then 1 else 0) + q) + o ≡ (if known && (i == 0) then 1 else 0)
    → (0 < c → known ≡ true)
    → q' ≡ q + (if ltb 0 c && (i' == 0) then 1 else 0)
    → o' ≡ o + ((if same then 1 else 0) + 0)
    → q' + o' ≡ (if known && (i' == 0) then 1 else 0)
round_once same q o zero zero known e h k e' e'' = ground arith
round_once same q o zero (suc c) known e h k e' e'' = ground (arith, k (omega arith))
round_once same q o (suc i') zero known e h k e' e'' = ground arith
round_once same q o (suc i') (suc c) known e h k e' e'' = ground (arith, k (omega arith))

module _ (d : Dag) (edges : List (String × List String)) (wf : WellFormed d)
    (ranges : Ranges d.edges edges) where
  -- Between two rounds, a node's in-degree is what it waits for, and a node that waits for nobody
  -- stands in the queue or in `out`, once.
  pub record State (m : GoMap ℤ) (queue out : List String) : Type 0 where
    pub degrees : (v : String) → degree m v ≡ pos (incoming out edges v)
    pub once :
        (v : String)
        → occurs v queue + occurs v out
          ≡ (if has_key d.nodes v && (incoming out edges v == 0) then 1 else 0)
    pub sorted : Sorted d out

  head_new :
      {m : GoMap ℤ} {v : String} {queue out : List String}
      → State m (v ∷ queue) out
      → (occurs v out ≡ 0) × (incoming out edges v ≡ 0) × (has_key d.nodes v ≡ true)
  head_new {v = v} state = ground (arith, state.once v, (eq_iff v v).1 refl)

  child_known : (u v : String) → 0 < occurs v (children d u) → has_key d.nodes v ≡ true
  child_known u v h = has_key-true d.nodes v (wf.child u v (mem_of_occurs v (children d u) h))

  -- One round.
  round :
      {m : GoMap ℤ} {v : String} {queue out : List String}
      → State m (v ∷ queue) out
      → let (m', queue') = release (children d v) m queue in State m' queue' (out ++ v ∷ [])
  round {m} {v} {queue} {out} state =
      let (unseen, ready, known) = head_new state in
      let freed : (k : String)
          → incoming out edges k ≡ incoming (out ++ v ∷ []) edges k + occurs k (children d v) =
        λ k. incoming_falls d edges ranges v k out unseen in
      let released = λ (k : String).
        release_lem (children d v) m queue k (incoming (out ++ v ∷ []) edges k)
          (state.degrees k ∙ ap pos (omega (arith, freed k))) in
      record {
        degrees = λ k. (released k).0;
        once = λ k.
            round_once (str_eq v k) (occurs k queue) (occurs k out)
              (incoming (out ++ v ∷ []) edges k) (occurs k (children d v)) (has_key d.nodes k)
              (freed k) (state.once k) (child_known v k) (released k).1
              (occurs-append k out (v ∷ []));
        sorted = next state.sorted (λ u e. parents_out d edges ranges u v out ready e);
      }

  pub drain_ends :
      (order : List (String × Ref))
      → Ranges d.nodes order
      → (fuel : ℕ) (m : GoMap ℤ) (queue out : List String) → State m queue out
      → fuel + length out ≡ length order
      → (m' : GoMap ℤ) × (out' : List String) × (drain d fuel m queue out ≡ some out')
        × State m' [] out'
  unfolding drain
  drain_ends order nodes fuel m [] out state e = (m, out, refl, state)
  drain_ends order nodes zero m (v ∷ queue) out state e = absurd (
      omega (
        arith,
        e,
        length-keys order,
        length-le_of_occurs (v ∷ out) (keys order)
            (λ k. ground (arith, state.once k, occurs-key k nodes)),
      ))
  drain_ends order nodes (suc fuel) m (v ∷ queue) out state e =
      let (m', queue') = release (children d v) m queue in
      drain_ends order nodes fuel m' queue' (out ++ v ∷ []) (round state)
        (omega (arith, length-append out (v ∷ [])))
