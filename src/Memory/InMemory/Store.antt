-- ===== src/Memory/InMemory/Store.antt =====
-- internal/memory/inmemory/provider.go: writing, reading and deleting.
use hydra_db.Base.{String, ◌≡◌, none, some, ok, err, arith, str_eq, eq_iff, if◌then◌else◌, Time}
use hydra_db.Memory.Types.{Floats, memory_exists, memory_not_found}
use hydra_db.Memory.InMemory.{Mem, State, write, read, remove}

module _ (fl : Floats) where
  -- A record written under a free identifier is what a read returns, with its access time set to
  -- the time of the read; the other records are as they were; and a second record of that
  -- identifier is refused and changes nothing.
  pub write-read :
      (now : Time) (mem : Mem fl) (s : State fl)
      → s mem.id ≡ none
      → let s' = (write fl mem s).0 in
        ((write fl mem s).1 ≡ none)
        × ((read fl now mem.id s').1 ≡ ok (record mem { accessed_at = now }))
        × ((other : String) → s' other ≡ (if str_eq mem.id other then some mem else s other))
        × ((mem' : Mem fl)
            → write fl (record mem' { id = mem.id }) s' ≡ (s', some (memory_exists mem.id)))
  unfolding write read
  write-read now mem s free = (
    ground arith,
    ground (arith, eq_iff mem.id mem.id),
    λ other. ground arith,
    λ mem'. ground (arith, eq_iff mem.id mem.id),
  )

  -- After a stored record is deleted, a read and a second delete of its identifier fail and change
  -- nothing, and the other records are as they were.
  pub remove-read :
      (now : Time) (id : String) (mem : Mem fl) (s : State fl)
      → s id ≡ some mem
      → let s' = (remove fl id s).0 in
        ((remove fl id s).1 ≡ none)
        × (read fl now id s' ≡ (s', err (memory_not_found id)))
        × (remove fl id s' ≡ (s', some (memory_not_found id)))
        × ((other : String) → s' other ≡ (if str_eq id other then none else s other))
  unfolding read remove
  remove-read now id mem s found = (
    ground arith,
    ground (arith, eq_iff id id),
    ground (arith, eq_iff id id),
    λ other. ground arith,
  )
