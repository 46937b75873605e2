-- ===== src/Memory/InMemory/Query.antt =====
-- internal/memory/inmemory/provider.go: what a search returns.
use hydra_db.Base.{
  ℕ, zero, suc, ◌<◌, ℤ, pos, negsuc, leb_ℤ, ◌≤◌, String, ◌≡◌, ◌⊎◌, inl, inr, refl, sym, true, false,
  some, List, [], ◌∷◌, arith, Ranges, Bool-cases, All, Memᴰ, length, take, length-take-le, take_all,
  ltb,
}
use hydra_db.Memory.Types.{Floats, SearchQuery}
use hydra_db.Memory.Sorting.{
  Sorter, StrictWeak, IsSorted, Memᴰ-sort, length-sort, Memᴰ-take, take-IsSorted, cut_out,
}
use hydra_db.Memory.InMemory.{Mem, State, collect, newer, limit_of, search}
use hydra_db.Memory.InMemory.Matches.{Meets, collect_sound, collect_complete, length-collect}

module _ (fl : Floats) where
  newer-StrictWeak : StrictWeak (newer fl)
  newer-StrictWeak = record { asymm = λ a b h. ground arith; cotrans = λ a b c h. ground arith }

  -- No record was created after one that stands before it.
  abbrev pub NewestFirst : List (Mem fl) → Type 0
  NewestFirst [] = Unit
  NewestFirst (m ∷ ms) = All (λ later. later.created_at ≤ m.created_at) ms × NewestFirst ms

  none_newer :
      (m : Mem fl) (ms : List (Mem fl))
      → All (λ later. newer fl later m ≡ false) ms
      → All (λ later. later.created_at ≤ m.created_at) ms
  none_newer m [] h = tt
  none_newer m (x ∷ xs) h = (ground arith, none_newer m xs h.1)

  IsSorted-NewestFirst : (ms : List (Mem fl)) → IsSorted (newer fl) ms → NewestFirst ms
  IsSorted-NewestFirst [] h = tt
  IsSorted-NewestFirst (m ∷ ms) h = (none_newer m ms h.0, IsSorted-NewestFirst ms h.1)

  limit_cases :
      (limit : ℤ)
      → ((n : ℕ) × (limit ≡ pos n) × (0 < n) × (limit_of fl limit ≡ n))
        ⊎ ((leb_ℤ limit (pos 0) ≡ true) × (limit_of fl limit ≡ 50))
  limit_cases (pos zero) = inr (refl, refl)
  limit_cases (pos (suc n)) = inl (suc n, refl, omega arith, refl)
  limit_cases (negsuc n) = inr (ground arith, refl)

  module _ (sorter : Sorter (Mem fl)) (q : SearchQuery fl.Float) (s : State fl)
      (order : List (String × Mem fl)) (ranges : Ranges s order) where
    -- The result of the sort, before the cut.
    abbrev sorted : List (Mem fl)
    sorted = sorter.sort (newer fl) (collect fl q order)

    sorted-IsSorted : IsSorted (newer fl) sorted
    sorted-IsSorted = sorter.sorts (newer fl) newer-StrictWeak (collect fl q order)

    search-eq-take : search fl sorter q order ≡ take (limit_of fl q.limit) sorted
    unfolding search
    search-eq-take = elim (Bool-cases (ltb (limit_of fl q.limit) (length sorted))) [
      | inl longer ↦ rw longer
      | inr fits ↦ rw fits (sym (take_all (limit_of fl q.limit) sorted (ground arith)))
    ]

    -- For any order in which the map can be visited and any sort that meets its contract, a search
    -- returns stored records that meet the query, and no others.
    pub search_sound :
        (m : Mem fl)
        → Memᴰ m (search fl sorter q order)
        → (k : String) × (s k ≡ some m) × Meets fl q m
    search_sound m h =
        let (k, listed, meets) = collect_sound fl q order (
          (Memᴰ-sort sorter (newer fl) (collect fl q order) m).0
            (Memᴰ-take (limit_of fl q.limit) sorted (rw search-eq-take at h))) in
        (k, ranges.sound k m listed, meets)

    -- For any such order and sort, no record of the result was created after one before it, and the
    -- result is no longer than the query's limit if that is positive, and no longer than 50 else.
    pub search-NewestFirst :
        let result = search fl sorter q order in
        NewestFirst result
        × (((n : ℕ) × (q.limit ≡ pos n) × (0 < n) × (length result ≤ n))
            ⊎ ((leb_ℤ q.limit (pos 0) ≡ true) × (length result ≤ 50)))
    search-NewestFirst = rw search-eq-take (
      IsSorted-NewestFirst (take (limit_of fl q.limit) sorted)
          (take-IsSorted (newer fl) (limit_of fl q.limit) sorted sorted-IsSorted),
      (elim (limit_cases q.limit) [
        | inl (n, given, positive, same) ↦
            inl
              (n, given, positive, omega (arith, same, length-take-le (limit_of fl q.limit) sorted))
        | inr (unset, same) ↦
            inr (unset, omega (arith, same, length-take-le (limit_of fl q.limit) sorted))
      ]),
    )

    -- For any such order and sort, a stored record that meets the query is returned, unless the
    -- result is as long as the limit and nothing in it is older than that record.
    pub search_complete :
        (k : String) (m : Mem fl)
        → s k ≡ some m
        → Meets fl q m
        → let result = search fl sorter q order in
          Memᴰ m result
          ⊎ ((length result ≡ limit_of fl q.limit) × All (λ r. newer fl m r ≡ false) result)
    search_complete k m stored meets = rw search-eq-take (
        cut_out (newer fl) (limit_of fl q.limit) sorted sorted-IsSorted (
          (Memᴰ-sort sorter (newer fl) (collect fl q order) m).1
            (collect_complete fl q order k m (ranges.complete k m stored) meets)))

    -- Where the limit is no less than the number of records, every stored record that meets the query
    -- is returned.
    pub search_all :
        (k : String) (m : Mem fl)
        → length order ≤ limit_of fl q.limit
        → s k ≡ some m
        → Meets fl q m
        → Memᴰ m (search fl sorter q order)
    search_all k m enough stored meets =
        let fits : length sorted ≤ limit_of fl q.limit = omega (
          arith,
          length-sort sorter (newer fl) (collect fl q order),
          length-collect fl q order,
          enough,
        ) in
        rw (search-eq-take, take_all (limit_of fl q.limit) sorted fits)
          ((Memᴰ-sort sorter (newer fl) (collect fl q order) m).1
            (collect_complete fl q order k m (ranges.complete k m stored) meets))
