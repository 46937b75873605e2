-- ===== src/Execution/Dag/Sort/Start.antt =====
-- internal/execution/dag.go: the in-degrees and the queue when the last loop of `TopologicalSort` starts.
use hydra_db.Base.{
  occurs-keys, ℕ, ◌+◌, String, ◌≡◌, refl, ap, ◌∙◌, inl, inr, Bool, true, false, ◌&&◌, ◌||◌, Option,
  none, some, List, [], ◌∷◌, if◌then◌else◌, ◌==◌, ltb, str_eq, eq_iff, arith, Bool-cases, occurs,
  GoMap, put, empty, Ranges, ℤ, pos, ◌+ℤ◌, eq_ℤ, has_key, keys, tally, tally-Ranges,
}
use hydra_db.Execution.Job.{Ref}
use hydra_db.Execution.Dag.{Dag}
use hydra_db.Execution.Dag.Sort.{
  degree, zero_degrees, count_children, count_edges, in_degrees, roots,
}
use hydra_db.Execution.Dag.Sort.Degrees.{degree-put}
use hydra_db.Execution.Dag.Sort.Incoming.{incoming}

has_key_if :
    (b : Bool) (x : ℤ) (o : Option ℤ)
    → (elim (if b then some x else o) [ none ↦ false | some _ ↦ true ])
      ≡ b || (elim o [ none ↦ false | some _ ↦ true ])
has_key_if true x o = refl
has_key_if false x o = refl

has_key-put :
    (c v : String) (x : ℤ) (m : GoMap ℤ) → has_key (put c x m) v ≡ str_eq c v || has_key m v
has_key-put c v x m = has_key_if (str_eq c v) x (m v)

if_same : (b : Bool) → (if b then pos 0 else pos 0) ≡ pos 0
if_same true = refl
if_same false = refl

zero_degrees-degree :
    (order : List (String × Ref)) (m : GoMap ℤ) (v : String)
    → degree m v ≡ pos 0
    → degree (zero_degrees order m) v ≡ pos 0
unfolding zero_degrees
zero_degrees-degree [] m v e = e
zero_degrees-degree ((id, job) ∷ rest) m v e = zero_degrees-degree rest (put id (pos 0) m) v (
    degree-put id v (pos 0) m
    ∙ ap (λ x. if str_eq id v then pos 0 else x) e
    ∙ if_same (str_eq id v))

or_false : (a : Bool) → a || false ≡ a
or_false true = refl
or_false false = refl

counted_more :
    (b : Bool) (n : ℕ) (c : Bool) → ltb 0 n || (b || c) ≡ ltb 0 ((if b then 1 else 0) + n) || c
counted_more b n c = ground arith

zero_degrees-has_key :
    (order : List (String × Ref)) (m : GoMap ℤ) (v : String)
    → has_key (zero_degrees order m) v ≡ ltb 0 (occurs v (keys order)) || has_key m v
unfolding zero_degrees
zero_degrees-has_key [] m v = refl
zero_degrees-has_key ((id, job) ∷ rest) m v =
    zero_degrees-has_key rest (put id (pos 0) m) v
    ∙ ap (λ b. ltb 0 (occurs v (keys rest)) || b) (has_key-put id v (pos 0) m)
    ∙ counted_more (str_eq id v) (occurs v (keys rest)) (has_key m v)

plus_one : (n : ℕ) → pos n +ℤ pos 1 ≡ pos (n + 1)
plus_one n = ground arith

raised :
    (c v : String) (m : GoMap ℤ) (n : ℕ)
    → degree m v ≡ pos n
    → degree (put c (degree m c +ℤ pos 1) m) v ≡ pos (n + (if str_eq c v then 1 else 0))
raised c v m n e = elim (Bool-cases (str_eq c v)) [
  | inl same ↦
      degree-put c v (degree m c +ℤ pos 1) m
      ∙ rw same (
          ap (λ x. degree m x +ℤ pos 1) ((eq_iff c v).0 same) ∙ ap (λ x. x +ℤ pos 1) e ∙ plus_one n)
  | inr other ↦ degree-put c v (degree m c +ℤ pos 1) m ∙ rw other (e ∙ ap pos (omega arith))
]

count_children-degree :
    (cs : List String) (m : GoMap ℤ) (v : String) (n : ℕ)
    → degree m v ≡ pos n
    → degree (count_children cs m) v ≡ pos (n + occurs v cs)
unfolding count_children
count_children-degree [] m v n e = e ∙ ap pos (omega arith)
count_children-degree (c ∷ cs) m v n e =
    count_children-degree cs (put c (degree m c +ℤ pos 1) m) v _ (raised c v m n e)
    ∙ ap pos (omega arith)

count_children-has_key :
    (cs : List String) (m : GoMap ℤ) (v : String)
    → has_key (count_children cs m) v ≡ ltb 0 (occurs v cs) || has_key m v
unfolding count_children
count_children-has_key [] m v = refl
count_children-has_key (c ∷ cs) m v =
    count_children-has_key cs (put c (degree m c +ℤ pos 1) m) v
    ∙ ap (λ b. ltb 0 (occurs v cs) || b) (has_key-put c v (degree m c +ℤ pos 1) m)
    ∙ counted_more (str_eq c v) (occurs v cs) (has_key m v)

count_edges-degree :
    (edges : List (String × List String)) (m : GoMap ℤ) (v : String) (n : ℕ)
    → degree m v ≡ pos n
    → degree (count_edges edges m) v ≡ pos (n + incoming [] edges v)
unfolding count_edges incoming
count_edges-degree [] m v n e = e ∙ ap pos (omega arith)
count_edges-degree ((id, cs) ∷ rest) m v n e =
    count_edges-degree rest (count_children cs m) v _ (count_children-degree cs m v n e)
    ∙ ap pos (omega arith)

count_edges-has_key :
    (edges : List (String × List String)) (m : GoMap ℤ) (v : String)
    → has_key (count_edges edges m) v ≡ ltb 0 (incoming [] edges v) || has_key m v
unfolding count_edges incoming
count_edges-has_key [] m v = refl
count_edges-has_key ((id, cs) ∷ rest) m v =
    ground (arith, count_edges-has_key rest (count_children cs m) v, count_children-has_key cs m v)

occurs-roots :
    (order : List (String × ℤ)) (v : String)
    → occurs v (roots order) ≡ tally (λ n. eq_ℤ n (pos 0)) v order
unfolding roots
occurs-roots [] v = refl
occurs-roots ((id, n) ∷ rest) v = ground (arith, occurs-roots rest v)

counted_key :
    (o : Option Ref)
    → ltb 0 (elim o [ none ↦ 0 | some v ↦ if true then 1 else 0 ])
      ≡ (elim o [ none ↦ false | some _ ↦ true ])
counted_key none = refl
counted_key (some v) = refl

first_entry : Option ℤ → ℕ
first_entry none = 0
first_entry (some x) = if eq_ℤ x (pos 0) then 1 else 0

first_queue :
    (o : Option ℤ) (n : ℕ) (known : Bool)
    → (elim o [ none ↦ pos 0 | some x ↦ x ]) ≡ pos n
    → (elim o [ none ↦ false | some _ ↦ true ]) ≡ ltb 0 n || known
    → first_entry o ≡ (if known && (n == 0) then 1 else 0)
unfolding first_entry
first_queue none n known e h = ground arith
first_queue (some x) n known e h = ground arith

module _ (d : Dag) (order : List (String × Ref)) (edges : List (String × List String)) where
  pub in_degrees-degree :
      (v : String) → degree (in_degrees order edges) v ≡ pos (incoming [] edges v)
  unfolding in_degrees
  in_degrees-degree v =
      count_edges-degree edges (zero_degrees order empty) v 0
        (zero_degrees-degree order empty v refl)
      ∙ ap pos (omega arith)

  listed_key :
      (v : String) → Ranges d.nodes order → ltb 0 (occurs v (keys order)) ≡ has_key d.nodes v
  listed_key v ranges =
      ap (ltb 0) (occurs-keys order v ∙ tally-Ranges (λ j. true) v ranges) ∙ counted_key (d.nodes v)

  in_degrees-has_key :
      (v : String)
      → Ranges d.nodes order
      → has_key (in_degrees order edges) v ≡ ltb 0 (incoming [] edges v) || has_key d.nodes v
  unfolding in_degrees
  in_degrees-has_key v ranges =
      count_edges-has_key edges (zero_degrees order empty) v
      ∙ ap (λ b. ltb 0 (incoming [] edges v) || b)
          (zero_degrees-has_key order empty v
            ∙ or_false (ltb 0 (occurs v (keys order)))
            ∙ listed_key v ranges)

  -- The first queue holds the nodes that no edge leads to, each once.
  pub roots_lem :
      (degree_order : List (String × ℤ)) (v : String)
      → Ranges d.nodes order
      → Ranges (in_degrees order edges) degree_order
      → occurs v (roots degree_order)
        ≡ (if has_key d.nodes v && (incoming [] edges v == 0) then 1 else 0)
  unfolding first_entry
  roots_lem degree_order v nodes degrees =
      occurs-roots degree_order v
      ∙ tally-Ranges (λ n. eq_ℤ n (pos 0)) v degrees
      ∙ first_queue (in_degrees order edges v) (incoming [] edges v) (has_key d.nodes v)
          (in_degrees-degree v) (in_degrees-has_key v nodes)
