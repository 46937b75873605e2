-- ===== src/Execution/Dag/Sort/Incoming.antt =====
-- internal/execution/dag.go: the parents that a node still waits for in `TopologicalSort`.
use hydra_db.Base.{
  ℕ, zero, suc, ◌+◌, ◌<◌, String, ◌≡◌, ◌≢◌, refl, sym, ap, ◌∙◌, inl, inr, ◌⊎◌, true, false, List,
  [], ◌∷◌, ◌++◌, if◌then◌else◌, ◌==◌, str_eq, eq_iff, arith, Memᴰ, Bool-cases, Option-cases, occurs,
  occurs-append, mem_of_occurs, occurs-mem, Ranges, OnceEach, All,
}
use hydra_db.Execution.Dag.{Dag, children}
use hydra_db.Execution.Dag.Paths.{Edge}

pub zero_cases : (n : ℕ) → (n ≡ 0) ⊎ (0 < n)
zero_cases zero = inl refl
zero_cases (suc n) = inr (omega arith)

-- How many edges lead to `v` from nodes that are not in `out`.
unfoldable pub incoming : (out : List String) → List (String × List String) → String → ℕ
incoming out [] v = 0
incoming out ((u, cs) ∷ rest) v =
    (if occurs u out == 0 then occurs v cs else 0) + incoming out rest v

-- The children that the list has for `u`.
abbrev listed_children : String → List (String × List String) → List String
listed_children u [] = []
listed_children u ((k, cs) ∷ rest) = if str_eq k u then cs else listed_children u rest

listed_children_fresh :
    (k u : String) (edges : List (String × List String))
    → str_eq k u ≡ true
    → All (λ e. str_eq k e.0 ≡ false) edges
    → listed_children u edges ≡ []
listed_children_fresh k u [] same fresh = refl
listed_children_fresh k u ((j, cs) ∷ rest) same (f, fresh) =
    ground (arith, eq_iff k u, f, eq_iff j u, eq_iff k j, listed_children_fresh k u rest same fresh)

incoming_head :
    (u k v : String) (out cs : List String)
    → occurs u out ≡ 0
    → (if occurs k out == 0 then occurs v cs else 0)
      ≡ (if occurs k (out ++ u ∷ []) == 0 then occurs v cs else 0)
        + (if str_eq k u then occurs v cs else 0)
incoming_head u k v out cs e = elim (Bool-cases (str_eq k u)) [
  | inl same ↦ ground (
    arith,
    occurs-append k out (u ∷ []),
    eq_iff u k,
    sym ((eq_iff k u).0 same),
    ap (λ x. occurs x out) ((eq_iff k u).0 same),
  )
  | inr other ↦ ground (arith, occurs-append k out (u ∷ []), eq_iff u k, eq_iff k u)
]

-- A node that joins `out` frees its children.
incoming-snoc :
    (u v : String) (out : List String) (edges : List (String × List String))
    → occurs u out ≡ 0
    → OnceEach edges
    → incoming out edges v ≡ incoming (out ++ u ∷ []) edges v + occurs v (listed_children u edges)
unfolding incoming
incoming-snoc u v out [] e once = omega arith
incoming-snoc u v out ((k, cs) ∷ rest) e (fresh, once) = elim (Bool-cases (str_eq k u)) [
  | inl same ↦ ground (
    arith,
    incoming_head u k v out cs e,
    incoming-snoc u v out rest e once,
    ap (occurs v) (listed_children_fresh k u rest same fresh),
  )
  | inr other ↦ ground (arith, incoming_head u k v out cs e, incoming-snoc u v out rest e once)
]

apart : (k u : String) → str_eq k u ≡ false → k ≢ u
apart k u other same = absurd (ground (arith, other, (eq_iff k u).1 same))

listed_children_cases :
    (u : String) (edges : List (String × List String))
    → Memᴰ (u, listed_children u edges) edges
      ⊎ ((listed_children u edges ≡ []) × ((cs : List String) → ¬ Memᴰ (u, cs) edges))
listed_children_cases u [] = inr (refl, λ cs m. elim m [ ])
listed_children_cases u ((k, cs) ∷ rest) = elim (Bool-cases (str_eq k u)) [
  | inl same ↦ inl (rw same (Memᴰ.head (λ i. (sym ((eq_iff k u).0 same) i, cs))))
  | inr other ↦ elim (listed_children_cases u rest) [
    | inl m ↦ inl (rw other (Memᴰ.tail m))
    | inr (nothing, absent) ↦ inr (
      rw other nothing,
      λ xs m. elim m [
        | Memᴰ.head e ↦ absurd (apart k u other (sym (ap (λ (p : String × List String). p.0) e)))
        | Memᴰ.tail m' ↦ absent xs m'
      ],
    )
  ]
]

module _ (d : Dag) (edges : List (String × List String)) (ranges : Ranges d.edges edges) where
  children_listed : (u : String) → listed_children u edges ≡ children d u
  children_listed u = elim (listed_children_cases u edges) [
    | inl m ↦ rw (ranges.sound u (listed_children u edges) m, children) refl
    | inr (nothing, absent) ↦ elim (Option-cases (d.edges u)) [
      | inl missing ↦ rw (missing, children) nothing
      | inr (cs, e) ↦ absurd (absent cs (ranges.complete u cs e))
    ]
  ]

  pub incoming_falls :
      (u v : String) (out : List String)
      → occurs u out ≡ 0
      → incoming out edges v ≡ incoming (out ++ u ∷ []) edges v + occurs v (children d u)
  incoming_falls u v out e =
      incoming-snoc u v out edges e ranges.once
      ∙ ap (λ cs. incoming (out ++ u ∷ []) edges v + occurs v cs) (children_listed u)

  -- A node that waits for nobody has its parents in `out`.
  pub parents_out :
      (u v : String) (out : List String) → incoming out edges v ≡ 0 → Edge d u v → Memᴰ u out
  parents_out u v out none_left e = mem_of_occurs u out (elim (zero_cases (occurs u out)) [
    | inl z ↦ absurd (omega (arith, incoming_falls u v out z, occurs-mem e))
    | inr p ↦ p
  ])

-- A node that waits has a parent that is not in `out`.
pub waiting_parent :
    (v : String) (out : List String) (edges : List (String × List String))
    → 0 < incoming out edges v
    → (u : String) × (cs : List String) × Memᴰ (u, cs) edges × Memᴰ v cs × (occurs u out ≡ 0)
unfolding incoming
waiting_parent v out [] h = absurd (omega arith)
waiting_parent v out ((k, cs) ∷ rest) h = elim (zero_cases (occurs k out)) [
  | inl z ↦ elim (zero_cases (occurs v cs)) [
    | inl nothing ↦
        let (u, xs, m, m', e) = waiting_parent v out rest (ground arith) in
        (u, xs, Memᴰ.tail m, m', e)
    | inr p ↦ (k, cs, Memᴰ.head refl, mem_of_occurs v cs p, z)
  ]
  | inr p ↦
      let (u, xs, m, m', e) = waiting_parent v out rest (ground arith) in
      (u, xs, Memᴰ.tail m, m', e)
]
