-- ===== src/Memory/InsertionSort.antt =====
-- An insertion sort that meets the contract of `sort.Slice`, for the examples.
use mathlib.Core.List.{Permᴰ}
use mathlib.Core.List.Permᴰ
use hydra_db.Base.{
  ◌≡◌, refl, inl, inr, Bool, false, List, [], ◌∷◌, arith, All, if◌then◌else◌, Bool-cases,
}
use hydra_db.Memory.Sorting.{StrictWeak, IsSorted, Sorter}

module _ {A : Type 0} (less : A → A → Bool) where
  unfoldable pub insert : A → List A → List A
  insert a [] = a ∷ []
  insert a (x ∷ xs) = let rest = insert a xs in if less x a then x ∷ rest else a ∷ x ∷ xs

  unfoldable pub insertion_sort : List A → List A
  insertion_sort [] = []
  insertion_sort (x ∷ xs) = insert x (insertion_sort xs)

  insert-Permᴰ : (a : A) (xs : List A) → Permᴰ (insert a xs) (a ∷ xs)
  unfolding insert
  insert-Permᴰ a [] = Permᴰ.cons refl Permᴰ.nil
  insert-Permᴰ a (x ∷ xs) = elim (Bool-cases (less x a)) [
    | inl before ↦
        rw before (Permᴰ.trans (Permᴰ.cons refl (insert-Permᴰ a xs)) (Permᴰ.swap refl refl))
    | inr behind ↦ rw behind (Permᴰ.refl _)
  ]

  pub insertion_sort-Permᴰ : (xs : List A) → Permᴰ (insertion_sort xs) xs
  unfolding insertion_sort
  insertion_sort-Permᴰ [] = Permᴰ.nil
  insertion_sort-Permᴰ (x ∷ xs) =
      Permᴰ.trans (insert-Permᴰ x (insertion_sort xs)) (Permᴰ.cons refl (insertion_sort-Permᴰ xs))

  insert-All : (P : A → Type 0) (a : A) (xs : List A) → P a → All P xs → All P (insert a xs)
  unfolding insert
  insert-All P a [] p h = (p, tt)
  insert-All P a (x ∷ xs) p h = elim (Bool-cases (less x a)) [
    | inl before ↦ rw before (h.0, insert-All P a xs p h.1)
    | inr behind ↦ rw behind (p, h)
  ]

  module _ (order : StrictWeak less) where
    not_less :
        (a x : A) (xs : List A)
        → less x a ≡ false
        → All (λ y. less y x ≡ false) xs
        → All (λ y. less y a ≡ false) xs
    not_less a x [] h all = tt
    not_less a x (y ∷ ys) h all =
        (ground (arith, order.cotrans y x a, all.0), not_less a x ys h all.1)

    insert-IsSorted : (a : A) (xs : List A) → IsSorted less xs → IsSorted less (insert a xs)
    unfolding insert
    insert-IsSorted a [] h = (tt, tt)
    insert-IsSorted a (x ∷ xs) h = elim (Bool-cases (less x a)) [
      | inl before ↦ rw before (
        insert-All (λ y. less y x ≡ false) a xs (order.asymm x a before) h.0,
        insert-IsSorted a xs h.1,
      )
      | inr behind ↦ rw behind ((behind, not_less a x xs behind h.0), h)
    ]

    pub insertion_sort-IsSorted : (xs : List A) → IsSorted less (insertion_sort xs)
    unfolding insertion_sort
    insertion_sort-IsSorted [] = tt
    insertion_sort-IsSorted (x ∷ xs) =
        insert-IsSorted x (insertion_sort xs) (insertion_sort-IsSorted xs)

abbrev pub sorter : {A : Type 0} → Sorter A
sorter = record {
  sort = insertion_sort;
  permutes = insertion_sort-Permᴰ;
  sorts = λ less order xs. insertion_sort-IsSorted less order xs;
}
