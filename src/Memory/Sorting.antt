-- ===== src/Memory/Sorting.antt =====
-- `sort.Slice` of Go's standard library, which internal/memory uses: what it promises, and what
-- follows for the front part of a sorted list.
use mathlib.Core.List.{Permᴰ}
use mathlib.Core.List.Permᴰ
use hydra_db.Base.{
  ℕ, zero, suc, ◌≡◌, ◌⊎◌, Bool, true, false, List, [], ◌∷◌, All, All-mem, take, length, Memᴰ, ◌∙◌,
  ◌↔◌, inl, inr, refl, ap,
}

-- The order that `less` has to be.
pub record StrictWeak {ℓ} {A : Type ℓ} (less : A → A → Bool) : Type ℓ where
  pub asymm : (a b : A) → less a b ≡ true → less b a ≡ false
  pub cotrans : (a b c : A) → less a c ≡ true → (less a b ≡ true) ⊎ (less b c ≡ true)

-- Nothing that stands further back is less than what stands before it.
abbrev pub IsSorted : {A : Type 0} → (A → A → Bool) → List A → Type 0
IsSorted less [] = Unit
IsSorted less (x ∷ xs) = All (λ y. less y x ≡ false) xs × IsSorted less xs

pub record Sorter (A : Type 0) : Type 0 where
  pub sort : (A → A → Bool) → List A → List A
  pub permutes : (less : A → A → Bool) (xs : List A) → Permᴰ (sort less xs) xs
  pub sorts : (less : A → A → Bool) → StrictWeak less → (xs : List A) → IsSorted less (sort less xs)

module _ {A : Type 0} where
  mem_along : {xs ys : List A} (a : A) → Permᴰ xs ys → Memᴰ a xs → Memᴰ a ys
  mem_along a Permᴰ.nil m = m
  mem_along a (Permᴰ.cons e p) (Memᴰ.head h) = Memᴰ.head (h ∙ e)
  mem_along a (Permᴰ.cons e p) (Memᴰ.tail m) = Memᴰ.tail (mem_along a p m)
  mem_along a (Permᴰ.swap e f) (Memᴰ.head h) = Memᴰ.tail (Memᴰ.head (h ∙ e))
  mem_along a (Permᴰ.swap e f) (Memᴰ.tail (Memᴰ.head h)) = Memᴰ.head (h ∙ f)
  mem_along a (Permᴰ.swap e f) (Memᴰ.tail (Memᴰ.tail m)) = Memᴰ.tail (Memᴰ.tail m)
  mem_along a (Permᴰ.trans p q) m = mem_along a q (mem_along a p m)

  length_along : {xs ys : List A} → Permᴰ xs ys → length xs ≡ length ys
  length_along Permᴰ.nil = refl
  length_along (Permᴰ.cons e p) = ap suc (length_along p)
  length_along (Permᴰ.swap e f) = refl
  length_along (Permᴰ.trans p q) = length_along p ∙ length_along q

  pub length-sort :
      (sorter : Sorter A) (less : A → A → Bool) (xs : List A)
      → length (sorter.sort less xs) ≡ length xs
  length-sort sorter less xs = length_along (sorter.permutes less xs)

  pub Memᴰ-sort :
      (sorter : Sorter A) (less : A → A → Bool) (xs : List A) (a : A)
      → Memᴰ a (sorter.sort less xs) ↔ Memᴰ a xs
  Memᴰ-sort sorter less xs a =
      (mem_along a (sorter.permutes less xs), mem_along a (Permᴰ.symm (sorter.permutes less xs)))

  pub Memᴰ-take : {a : A} (n : ℕ) (xs : List A) → Memᴰ a (take n xs) → Memᴰ a xs
  Memᴰ-take zero xs m = elim m [ ]
  Memᴰ-take (suc n) [] m = elim m [ ]
  Memᴰ-take (suc n) (x ∷ xs) (Memᴰ.head e) = Memᴰ.head e
  Memᴰ-take (suc n) (x ∷ xs) (Memᴰ.tail m) = Memᴰ.tail (Memᴰ-take n xs m)

  All-take : (P : A → Type 0) (n : ℕ) (xs : List A) → All P xs → All P (take n xs)
  All-take P zero xs h = tt
  All-take P (suc n) [] h = tt
  All-take P (suc n) (x ∷ xs) h = (h.0, All-take P n xs h.1)

  pub take-IsSorted :
      (less : A → A → Bool) (n : ℕ) (xs : List A) → IsSorted less xs → IsSorted less (take n xs)
  take-IsSorted less zero xs h = tt
  take-IsSorted less (suc n) [] h = tt
  take-IsSorted less (suc n) (x ∷ xs) h = (All-take _ n xs h.0, take-IsSorted less n xs h.1)

  -- What a cut leaves out of a sorted list is not less than anything that it keeps, and the cut is
  -- full.
  pub cut_out :
      (less : A → A → Bool) (n : ℕ) (xs : List A) {a : A}
      → IsSorted less xs
      → Memᴰ a xs
      → Memᴰ a (take n xs) ⊎ ((length (take n xs) ≡ n) × All (λ r. less a r ≡ false) (take n xs))
  cut_out less zero xs h m = inr (refl, tt)
  cut_out less (suc n) [] h m = elim m [ ]
  cut_out less (suc n) (x ∷ xs) h (Memᴰ.head e) = inl (Memᴰ.head e)
  cut_out less (suc n) (x ∷ xs) h (Memᴰ.tail m) = elim (cut_out less n xs h.1 m) [
    | inl kept ↦ inl (Memᴰ.tail kept)
    | inr (full, rest) ↦ inr (ap suc full, (All-mem (λ y. less y x ≡ false) xs h.0 m, rest))
  ]
