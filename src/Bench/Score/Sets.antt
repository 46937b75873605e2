-- ===== src/Bench/Score/Sets.antt =====
-- bench/locomo/score.go: the sets of texts, against lists without repetitions.
use hydra_db.Base.{
  ℕ, ◌<◌, ◌≢◌, ◌↔◌, Memᴰ, true_ne_false, String, ◌≡◌, refl, sym, ap, ◌∙◌, inl, inr, Bool, true,
  false, ◌||◌, ◌&&◌, Option, some, none, List, [], ◌∷◌, if◌then◌else◌, str_eq, eq_iff, str_mem,
  arith, GoMap, Ranges, has_key, put, empty, keys, occurs, occurs-key, length, length-keys,
  length-eq_of_occurs, filter, Bool-cases,
}
use hydra_db.Bench.Score.{TextSet, insert_all, to_set, intersection_size}

-- The elements of a list, each once.
abbrev pub distinct : List String → List String
distinct [] = []
distinct (x ∷ xs) = let rest = distinct xs in if str_mem x xs then rest else x ∷ rest

-- How many different elements of `xs` stand in `ys`.
abbrev pub shared : (xs ys : List String) → ℕ
shared xs ys = length (filter (λ x. str_mem x ys) (distinct xs))

occurs-distinct :
    (k : String) (xs : List String) → occurs k (distinct xs) ≡ (if str_mem k xs then 1 else 0)
occurs-distinct k [] = refl
occurs-distinct k (x ∷ xs) = elim (Bool-cases (str_eq x k)) [
  | inl same ↦
      ground (arith, occurs-distinct k xs, same, ap (λ y. str_mem y xs) ((eq_iff x k).0 same))
  | inr other ↦ ground (arith, occurs-distinct k xs, other)
]

occurs-filter :
    (p : String → Bool) (k : String) (xs : List String)
    → occurs k (filter p xs) ≡ (if p k then occurs k xs else 0)
occurs-filter p k [] = ground arith
occurs-filter p k (x ∷ xs) = elim (Bool-cases (str_eq x k)) [
  | inl same ↦ ground (arith, occurs-filter p k xs, same, ap p ((eq_iff x k).0 same))
  | inr other ↦ ground (arith, occurs-filter p k xs, other)
]

has_key_if :
    {V : Type 0} (b : Bool) (v : V) (o : Option V)
    → (elim (if b then some v else o) [ none ↦ false | some _ ↦ true ])
      ≡ b || (elim o [ none ↦ false | some _ ↦ true ])
has_key_if true v o = refl
has_key_if false v o = refl

has_key-put :
    {V : Type 0} (j : String) (v : V) (m : GoMap V) (k : String)
    → has_key (put j v m) k ≡ str_eq j k || has_key m k
has_key-put j v m k = has_key_if (str_eq j k) v (m k)

or_swap : (a b c : Bool) → a || (b || c) ≡ (b || a) || c
or_swap a b c = ground arith

has_key-insert_all :
    (items : List String) (s : TextSet) (k : String)
    → has_key (insert_all items s) k ≡ str_mem k items || has_key s k
unfolding insert_all
has_key-insert_all [] s k = refl
has_key-insert_all (x ∷ xs) s k =
    has_key-insert_all xs (put x tt s) k
    ∙ ap (λ b. str_mem k xs || b) (has_key-put x tt s k)
    ∙ or_swap (str_mem k xs) (str_eq x k) (has_key s k)

-- A set has the elements of its list.
has_key-to_set : (items : List String) (k : String) → has_key (to_set items) k ≡ str_mem k items
unfolding to_set
has_key-to_set items k = has_key-insert_all items empty k ∙ (ground arith)

module _ (items : List String) {order : List (String × Unit {0})}
    (ranges : Ranges (to_set items) order) where
  occurs-visit : (k : String) → occurs k (keys order) ≡ occurs k (distinct items)
  occurs-visit k =
      occurs-key k ranges
      ∙ ap (λ b. if b then 1 else 0) (has_key-to_set items k)
      ∙ sym (occurs-distinct k items)

  -- len(set)
  pub length-visit : length order ≡ length (distinct items)
  length-visit =
      sym (length-keys order) ∙ length-eq_of_occurs (keys order) (distinct items) occurs-visit

intersection_size-filter :
    (order : List (String × Unit {0})) (b : TextSet)
    → intersection_size order b ≡ length (filter (λ k. has_key b k) (keys order))
unfolding intersection_size
intersection_size-filter [] b = refl
intersection_size-filter ((k, v) ∷ rest) b = ground (arith, intersection_size-filter rest b)

-- The size of the intersection does not depend on the visit.
pub intersection_size-shared :
    (xs ys : List String) (order : List (String × Unit {0}))
    → Ranges (to_set xs) order
    → intersection_size order (to_set ys) ≡ shared xs ys
intersection_size-shared xs ys order ranges =
    intersection_size-filter order (to_set ys)
    ∙ length-eq_of_occurs _ _ (λ k.
      occurs-filter (λ j. has_key (to_set ys) j) k (keys order)
      ∙ ap (λ b. if b then occurs k (keys order) else 0) (has_key-to_set ys k)
      ∙ ap (λ n. if str_mem k ys then n else 0) (occurs-visit xs ranges k)
      ∙ sym (occurs-filter (λ j. str_mem j ys) k (distinct xs)))

-- Lists with the same elements have the same counts.
pub distinct_same :
    (xs xs' : List String)
    → ((k : String) → str_mem k xs ≡ str_mem k xs')
    → length (distinct xs) ≡ length (distinct xs')
distinct_same xs xs' same = length-eq_of_occurs (distinct xs) (distinct xs') (λ k.
    occurs-distinct k xs ∙ ap (λ b. if b then 1 else 0) (same k) ∙ sym (occurs-distinct k xs'))

occurs-shared :
    (k : String) (xs ys : List String)
    → occurs k (filter (λ x. str_mem x ys) (distinct xs))
      ≡ (if str_mem k ys && str_mem k xs then 1 else 0)
occurs-shared k xs ys =
    occurs-filter (λ x. str_mem x ys) k (distinct xs) ∙ (ground (arith, occurs-distinct k xs))

-- Where all of `ys` stands in `xs`, they share as many as `ys` has.
pub shared_all :
    (xs ys : List String)
    → ((k : String) → str_mem k ys ≡ true → str_mem k xs ≡ true)
    → shared xs ys ≡ length (distinct ys)
shared_all xs ys within = length-eq_of_occurs _ _ (λ k. elim (Bool-cases (str_mem k ys)) [
  | inl inside ↦
      ground (arith, occurs-shared k xs ys, occurs-distinct k ys, inside, within k inside)
  | inr outside ↦ ground (arith, occurs-shared k xs ys, occurs-distinct k ys, outside)
])

distinct_some : (x : String) (xs : List String) → 0 < length (distinct (x ∷ xs))
distinct_some x [] = omega arith
distinct_some x (y ∷ ys) = elim (Bool-cases (str_mem x (y ∷ ys))) [
  | inl again ↦ rw again (distinct_some y ys)
  | inr once ↦ rw once (omega arith)
]

-- A list with an element has one that counts.
pub distinct_nonempty : (xs : List String) → xs ≢ [] → 0 < length (distinct xs)
distinct_nonempty [] h = absurd (h refl)
distinct_nonempty (x ∷ xs) h = distinct_some x xs

pub str_mem-mem : {k : String} {xs : List String} → Memᴰ k xs → str_mem k xs ≡ true
str_mem-mem {k} (Memᴰ.head {x = x} e) = ground (arith, (eq_iff x k).1 (sym e))
str_mem-mem (Memᴰ.tail m) = ground (arith, str_mem-mem m)

pub mem-str_mem : (k : String) (xs : List String) → str_mem k xs ≡ true → Memᴰ k xs
mem-str_mem k [] h = cc
mem-str_mem k (x ∷ xs) h = elim (Bool-cases (str_eq x k)) [
  | inl same ↦ Memᴰ.head (sym ((eq_iff x k).0 same))
  | inr other ↦ Memᴰ.tail (mem-str_mem k xs (ground arith))
]

-- Lists with the same elements pass the same tests.
pub str_mem_iff :
    (k : String) (xs ys : List String) → (Memᴰ k xs ↔ Memᴰ k ys) → str_mem k xs ≡ str_mem k ys
str_mem_iff k xs ys h = elim (Bool-cases (str_mem k xs)) [
  | inl inside ↦ inside ∙ sym (str_mem-mem (h.0 (mem-str_mem k xs inside)))
  | inr outside ↦ elim (Bool-cases (str_mem k ys)) [
    | inl inside ↦ absurd (true_ne_false (str_mem-mem (h.1 (mem-str_mem k ys inside))) outside)
    | inr outside' ↦ outside ∙ sym outside'
  ]
]
