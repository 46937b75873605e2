-- ===== src/Execution/Dag/Sort/Degrees.antt =====
-- internal/execution/dag.go: what the loops of `TopologicalSort` do to the in-degrees and the queue.
use hydra_db.Base.{
  ℕ, ◌+◌, String, ◌≡◌, refl, ap, ◌∙◌, inl, inr, ◌⊎◌, Bool, true, false, ◌&&◌, Option, none, some,
  List, [], ◌∷◌, if◌then◌else◌, ◌==◌, ltb, str_eq, eq_iff, arith, Bool-cases, occurs, occurs-append,
  GoMap, put, ℤ, pos, ◌-ℤ◌,
}
use hydra_db.Execution.Dag.Sort.{degree, enqueued, release}

degree_if :
    (b : Bool) (x : ℤ) (o : Option ℤ)
    → (elim (if b then some x else o) [ none ↦ pos 0 | some n ↦ n ])
      ≡ (if b then x else (elim o [ none ↦ pos 0 | some n ↦ n ]))
degree_if true x o = refl
degree_if false x o = refl

pub degree-put :
    (c v : String) (x : ℤ) (m : GoMap ℤ)
    → degree (put c x m) v ≡ (if str_eq c v then x else degree m v)
degree-put c v x m = degree_if (str_eq c v) x (m v)

minus_one : (n : ℕ) → pos (1 + n) -ℤ pos 1 ≡ pos n
minus_one n = ground arith

-- The child's new in-degree, if the child is `v`; `k` more of `v` are to come.
lowered :
    (c v : String) (m : GoMap ℤ) (k : ℕ)
    → degree m v ≡ pos ((if str_eq c v then 1 else 0) + k)
    → (str_eq c v ≡ false) ⊎ (degree m c -ℤ pos 1 ≡ pos k)
lowered c v m k e = elim (Bool-cases (str_eq c v)) [
  | inl same ↦ inr (
      ap (λ x. degree m x -ℤ pos 1) ((eq_iff c v).0 same)
      ∙ ap (λ n. n -ℤ pos 1) (rw same at e)
      ∙ minus_one k)
  | inr other ↦ inl other
]

fall :
    (c v : String) (m : GoMap ℤ) (k : ℕ)
    → degree m v ≡ pos ((if str_eq c v then 1 else 0) + k)
    → degree (put c (degree m c -ℤ pos 1) m) v ≡ pos k
fall c v m k e = degree-put c v (degree m c -ℤ pos 1) m ∙ ground (arith, lowered c v m k e)

rise :
    (c v : String) (n : ℤ) (queue : List String) (k : ℕ)
    → ((str_eq c v ≡ false) ⊎ (n ≡ pos k))
    → occurs v (enqueued c n queue) ≡ occurs v queue + (if str_eq c v && (k == 0) then 1 else 0)
unfolding enqueued
rise c v n queue k h = ground (arith, occurs-append v queue (c ∷ []))

-- A node's in-degree falls by how often it stands among the children, and it enters the queue once if
-- that makes its in-degree zero.
pub release_lem :
    (cs : List String) (m : GoMap ℤ) (queue : List String) (v : String) (n : ℕ)
    → degree m v ≡ pos (occurs v cs + n)
    → let (m', queue') = release cs m queue in
      (degree m' v ≡ pos n)
      × (occurs v queue' ≡ occurs v queue + (if ltb 0 (occurs v cs) && (n == 0) then 1 else 0))
unfolding release
release_lem [] m queue v n e = (e ∙ ap pos (omega arith), omega arith)
release_lem (c ∷ cs) m queue v n e =
    let x : ℤ = degree m c -ℤ pos 1 in
    let lower : degree (put c x m) v ≡ pos (occurs v cs + n) =
      fall c v m (occurs v cs + n) (e ∙ ap pos (omega arith)) in
    let (low, more) = release_lem cs (put c x m) (enqueued c x queue) v n lower in
    let at_v : (str_eq c v ≡ false) ⊎ (x ≡ pos (occurs v cs + n)) =
      lowered c v m (occurs v cs + n) (e ∙ ap pos (omega arith)) in
    (low, ground (arith, more, rise c v x queue (occurs v cs + n) at_v))
