-- ===== src/Bench/Dataset/Order.antt =====
-- bench/locomo/types.go: `sort.Ints` makes the order irrelevant in which a conversation is visited.
use mathlib.Core.List.{Permᴰ}
use hydra_db.Base.{
  ℕ, ◌+◌, String, ◌≡◌, refl, sym, ap, ◌∙◌, true, false, List, [], ◌∷◌, arith, str_eq, eq_iff, All,
  Memᴰ, GoMap, OnceEach, Ranges, fresh_ne, if◌then◌else◌, Bool-cases, inl, inr, ℤ, pos, negsuc,
  ltb_ℤ, true_ne_false, subst,
}
use hydra_db.Memory.Sorting.{Sorter, StrictWeak, IsSorted}
use hydra_db.Bench.Dataset.{Json, session_indices, less_int}

not_same : (a b : String) → str_eq a b ≡ false → str_eq b a ≡ false
not_same a b h = ground (arith, eq_iff a b, eq_iff b a)

module _ {V : Type 0} where
  -- The entries but those of one key.
  abbrev without : String → List (String × V) → List (String × V)
  without k [] = []
  without k ((j, v) ∷ rest) =
      let others = without k rest in if str_eq k j then others else (j, v) ∷ others

  without-All :
      (P : String × V → Type 0) (k : String) (o : List (String × V)) → All P o → All P (without k o)
  without-All P k [] h = tt
  without-All P k ((j, v) ∷ rest) h = elim (Bool-cases (str_eq k j)) [
    | inl same ↦ rw same (without-All P k rest h.1)
    | inr other ↦ rw other (h.0, without-All P k rest h.1)
  ]

  without_fresh :
      (k : String) (o : List (String × V)) → All (λ e. str_eq k e.0 ≡ false) o → without k o ≡ o
  without_fresh k [] h = refl
  without_fresh k ((j, v) ∷ rest) h = rw h.0 (ap (λ l. (j, v) ∷ l) (without_fresh k rest h.1))

  without-OnceEach : (k : String) (o : List (String × V)) → OnceEach o → OnceEach (without k o)
  without-OnceEach k [] once = tt
  without-OnceEach k ((j, v) ∷ rest) once = elim (Bool-cases (str_eq k j)) [
    | inl same ↦ rw same (without-OnceEach k rest once.1)
    | inr other ↦
        rw other
          (without-All (λ e. str_eq j e.0 ≡ false) k rest once.0, without-OnceEach k rest once.1)
  ]

  Memᴰ-without :
      (k : String) {j : String} {v : V} (o : List (String × V))
      → Memᴰ (j, v) (without k o)
      → Memᴰ (j, v) o × (str_eq k j ≡ false)
  Memᴰ-without k [] m = elim m [ ]
  Memᴰ-without k {j} {v} ((i, u) ∷ rest) m = elim (Bool-cases (str_eq k i)) [
    | inl same ↦
        let (listed, other) = Memᴰ-without k rest (rw same at m) in (Memᴰ.tail listed, other)
    | inr other ↦ split_head other (λ n. Memᴰ-without k rest n) (rw other at m)
  ]
    where
      split_head :
          str_eq k i ≡ false
          → (Memᴰ (j, v) (without k rest) → Memᴰ (j, v) rest × (str_eq k j ≡ false))
          → Memᴰ (j, v) ((i, u) ∷ without k rest)
          → Memᴰ (j, v) ((i, u) ∷ rest) × (str_eq k j ≡ false)
      split_head other later (Memᴰ.head e) =
          (Memᴰ.head e, rw (ap (λ (p : String × V). p.0) e) other)
      split_head other later (Memᴰ.tail n) =
          let (listed, differs) = later n in (Memᴰ.tail listed, differs)

  without-Memᴰ :
      (k : String) {j : String} {v : V} (o : List (String × V))
      → str_eq k j ≡ false
      → Memᴰ (j, v) o
      → Memᴰ (j, v) (without k o)
  without-Memᴰ k [] other m = elim m [ ]
  without-Memᴰ k ((i, u) ∷ rest) other (Memᴰ.head e) =
      rw (sym (ap (λ (p : String × V). str_eq k p.0) e) ∙ other) (Memᴰ.head e)
  without-Memᴰ k ((i, u) ∷ rest) other (Memᴰ.tail m) = elim (Bool-cases (str_eq k i)) [
    | inl same ↦ rw same (without-Memᴰ k rest other m)
    | inr differs ↦ rw differs (Memᴰ.tail (without-Memᴰ k rest other m))
  ]

  -- The sum of a number over the entries.
  abbrev total : (String × V → ℕ) → List (String × V) → ℕ
  total f [] = 0
  total f (e ∷ rest) = f e + total f rest

  total-without :
      (f : String × V → ℕ) (k : String) (v : V) (o : List (String × V))
      → OnceEach o
      → Memᴰ (k, v) o
      → total f o ≡ f (k, v) + total f (without k o)
  total-without f k v [] once m = elim m [ ]
  total-without f k v ((j, u) ∷ rest) once (Memᴰ.head e) =
      let key : k ≡ j = ap (λ (p : String × V). p.0) e in
      let fresh : All (λ x. str_eq k x.0 ≡ false) rest =
        subst (λ i. All (λ (x : String × V). str_eq i x.0 ≡ false) rest) (sym key) once.0 in
      rw ((eq_iff k j).1 key, without_fresh k rest fresh) (ap (λ p. f p + total f rest) (sym e))
  total-without f k v ((j, u) ∷ rest) once (Memᴰ.tail m) =
      rw (not_same j k (fresh_ne j rest once.0 m))
        (omega (arith, total-without f k v rest once.1 m))

  -- Two orders of the same entries have the same sum.
  total-eq :
      (f : String × V → ℕ) (o o' : List (String × V))
      → OnceEach o
      → OnceEach o'
      → ((j : String) (v : V) → Memᴰ (j, v) o → Memᴰ (j, v) o')
      → ((j : String) (v : V) → Memᴰ (j, v) o' → Memᴰ (j, v) o)
      → total f o ≡ total f o'
  total-eq f [] [] once once' forth back = refl
  total-eq f [] ((j, v) ∷ rest) once once' forth back =
      absurd (elim (back j v (Memᴰ.head refl)) [ ])
  total-eq f ((k, v) ∷ rest) o' once once' forth back = omega (
    arith,
    total-without f k v o' once' (forth k v (Memᴰ.head refl)),
    total-eq f rest (without k o') once.1 (without-OnceEach k o' once')
        (λ j u m. without-Memᴰ k o' (fresh_ne k rest once.0 m) (forth j u (Memᴰ.tail m)))
        (λ j u m. let (listed, other) = Memᴰ-without k o' m in in_rest other (back j u listed)),
  )
    where
      in_rest :
          {j : String} {u : V} → str_eq k j ≡ false → Memᴰ (j, u) ((k, v) ∷ rest) → Memᴰ (j, u) rest
      in_rest {j} other (Memᴰ.head e) =
          absurd (true_ne_false ((eq_iff k j).1 (sym (ap (λ (p : String × V). p.0) e))) other)
      in_rest other (Memᴰ.tail m) = m

-- How often a number stands in a list.
abbrev times : ℤ → List ℤ → ℕ
times i [] = 0
times i (x ∷ xs) = (if ltb_ℤ i x then 0 else if ltb_ℤ x i then 0 else 1) + times i xs

times-Permᴰ : (i : ℤ) {xs ys : List ℤ} → Permᴰ xs ys → times i xs ≡ times i ys
times-Permᴰ i Permᴰ.nil = refl
times-Permᴰ i (Permᴰ.cons e p) = rw e (omega (arith, times-Permᴰ i p))
times-Permᴰ i (Permᴰ.swap e f) = rw (e, f) (omega arith)
times-Permᴰ i (Permᴰ.trans p q) = times-Permᴰ i p ∙ times-Permᴰ i q

times_above :
    (x y : ℤ) (zs : List ℤ) → All (λ z. less_int z y ≡ false) zs → ltb_ℤ x y ≡ true → times x zs ≡ 0
times_above x y [] h below = refl
times_above x y (z ∷ zs) h below = ground (arith, times_above x y zs h.1 below)

same_int : (x y : ℤ) → ltb_ℤ x y ≡ false → ltb_ℤ y x ≡ false → x ≡ y
same_int (pos m) (pos n) h h' = ap pos (ground arith)
same_int (pos m) (negsuc n) h h' = absurd (ground arith)
same_int (negsuc m) (pos n) h h' = absurd (ground arith)
same_int (negsuc m) (negsuc n) h h' = ap negsuc (ground arith)

not_below :
    (x y : ℤ) (xs ys : List ℤ)
    → All (λ z. less_int z y ≡ false) ys
    → times x (x ∷ xs) ≡ times x (y ∷ ys)
    → ltb_ℤ x y ≡ false
not_below x y xs ys above same = elim (Bool-cases (ltb_ℤ x y)) [
  | inr above_it ↦ above_it
  | inl below ↦ absurd (ground (arith, times_above x y ys above below))
]

sorted-eq :
    (xs ys : List ℤ)
    → IsSorted less_int xs
    → IsSorted less_int ys
    → ((i : ℤ) → times i xs ≡ times i ys)
    → xs ≡ ys
sorted-eq [] [] h h' same = refl
sorted-eq [] (y ∷ ys) h h' same = absurd (ground (arith, same y))
sorted-eq (x ∷ xs) [] h h' same = absurd (ground (arith, same x))
sorted-eq (x ∷ xs) (y ∷ ys) h h' same =
    let head : x ≡ y =
      same_int x y (not_below x y xs ys h'.0 (same x)) (not_below y x ys xs h.0 (sym (same y))) in
    let tail : xs ≡ ys =
      sorted-eq xs ys h.1 h'.1 (λ i. omega (arith, same i, ap (λ z. times i (z ∷ [])) head)) in
    λ i. head i ∷ tail i

less_int-StrictWeak : StrictWeak less_int
less_int-StrictWeak = record { asymm = λ a b h. ground arith; cotrans = λ a b c h. ground arith }

module _ (json : Json) where
  indices_total :
      (i : ℤ) (o : List (String × String))
      → times i (session_indices json o) ≡ total (λ e. times i (session_indices json (e ∷ []))) o
  unfolding session_indices
  indices_total i [] = refl
  indices_total i ((key, raw) ∷ rest) = ground (arith, indices_total i rest)

  -- The sorted indices do not depend on the order in which the conversation is visited.
  pub sort-session_indices :
      (sorter : Sorter ℤ) (conv : GoMap String) (o o' : List (String × String))
      → Ranges conv o
      → Ranges conv o'
      → sorter.sort less_int (session_indices json o)
        ≡ sorter.sort less_int (session_indices json o')
  sort-session_indices sorter conv o o' r r' =
      let xs = session_indices json o in
      let ys = session_indices json o' in
      sorted-eq (sorter.sort less_int xs) (sorter.sort less_int ys)
        (sorter.sorts less_int less_int-StrictWeak xs)
        (sorter.sorts less_int less_int-StrictWeak ys)
        (λ i.
          times-Permᴰ i (sorter.permutes less_int xs)
          ∙ indices_total i o
          ∙ total-eq (λ e. times i (session_indices json (e ∷ []))) o o' r.once r'.once
              (λ j v m. r'.complete j v (r.sound j v m)) (λ j v m. r.complete j v (r'.sound j v m))
          ∙ sym (indices_total i o')
          ∙ sym (times-Permᴰ i (sorter.permutes less_int ys)))
