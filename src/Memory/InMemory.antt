-- ===== src/Memory/InMemory.antt =====
-- internal/memory/inmemory/provider.go: a map from identifiers to records. Each method holds the
-- provider's lock. The map holds pointers; a record is written only by `Read`, through the map.
pub mod Matches
pub mod Query
pub mod Store
use hydra_db.Base.{
  ℕ, zero, suc, ◌≤◌, String, ◌≡◌, Bool, true, false, not, ◌&&◌, ◌||◌, Option, none, some, List, [],
  ◌∷◌, Outcome, ok, err, if◌then◌else◌, ltb, leb_ℤ, GoMap, empty, put, delete, str_eq, ℤ, pos,
  negsuc, pos_part, Time, is_zero, before, length, take,
}
use hydra_db.Memory.Types.{
  Floats, Memory, SearchQuery, MemoryError, memory_exists, memory_not_found, Provider,
}
use hydra_db.Memory.Sorting.{Sorter}

-- map[string]struct{}
tag_set : List String → GoMap (Unit {0})
tag_set [] = empty
tag_set (t ∷ ts) = put t tt (tag_set ts)

all_in : GoMap (Unit {0}) → List String → Bool
all_in set [] = true
all_in set (t ∷ ts) = let rest = all_in set ts in elim (set t) [ none ↦ false | some _ ↦ rest ]

unfoldable pub contains_all_tags : (memory_tags query_tags : List String) → Bool
unfolding tag_set all_in
contains_all_tags memory_tags query_tags = all_in (tag_set memory_tags) query_tags

abbrev pub is_empty : {A : Type 0} → List A → Bool
is_empty [] = true
is_empty (x ∷ xs) = false

module _ (fl : Floats) where
  abbrev pub Mem : Type 0
  Mem = Memory fl.Float

  abbrev pub State : Type 0
  State = GoMap Mem

  unfoldable pub matches_query : Mem → SearchQuery fl.Float → Bool
  matches_query mem q =
      if not (str_eq q.type "") && not (str_eq mem.type q.type)
      then false
      else if not (is_empty q.tags) && not (contains_all_tags mem.tags q.tags)
      then false
      else if not (str_eq q.actor_id "") && not (str_eq mem.actor_id q.actor_id)
      then false
      else if not (str_eq q.tenant_id "") && not (str_eq mem.tenant_id q.tenant_id)
      then false
      else if not (is_zero q.since) && before mem.created_at q.since
      then false
      else if fl.less fl.zero q.min_confidence && fl.less mem.confidence q.min_confidence
      then false
      else true

  unfoldable pub write : Mem → State → State × Option MemoryError
  write mem s = elim (s mem.id) [
    | some old ↦ (s, some (memory_exists mem.id))
    | none ↦ (put mem.id mem s, none)
  ]

  unfoldable pub read : Time → String → State → State × Outcome MemoryError Mem
  read now id s = elim (s id) [
    | none ↦ (s, err (memory_not_found id))
    | some mem ↦ let mem' = record mem { accessed_at = now } in (put id mem' s, ok mem')
  ]

  unfoldable pub remove : String → State → State × Option MemoryError
  remove id s = elim (s id) [
    | none ↦ (s, some (memory_not_found id))
    | some mem ↦ (delete id s, none)
  ]

  -- The loop over the map, in the order `order` in which `range` visits it.
  pub collect : SearchQuery fl.Float → List (String × Mem) → List Mem
  collect q [] = []
  collect q ((id, mem) ∷ rest) =
      let found = collect q rest in if matches_query mem q then mem ∷ found else found

  -- results[i].CreatedAt.After(results[j].CreatedAt)
  abbrev pub newer : Mem → Mem → Bool
  newer a b = before b.created_at a.created_at

  -- `Limit`, or 50
  abbrev pub limit_of : ℤ → ℕ
  limit_of (pos zero) = 50
  limit_of (pos (suc n)) = suc n
  limit_of (negsuc n) = 50

  unfoldable pub search : Sorter Mem → SearchQuery fl.Float → List (String × Mem) → List Mem
  unfolding collect
  search sorter q order =
      let results = sorter.sort newer (collect q order) in
      let limit = limit_of q.limit in
      if ltb limit (length results) then take limit results else results

  -- The provider, for a runtime that visits a map in the order `visit`.
  unfoldable pub provider : Sorter Mem → (State → List (String × Mem)) → Provider fl.Float State
  provider sorter visit = record {
    write = write;
    read = read;
    search = λ q s. ok (search sorter q (visit s));
    delete = remove;
  }
