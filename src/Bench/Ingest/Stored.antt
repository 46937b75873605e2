-- ===== src/Bench/Ingest/Stored.antt =====
-- bench/locomo/ingest.go: what an ingestion leaves in the provider and in the index.
use hydra_db.Base.{
  ℕ, ◌+◌, ◌<◌, String, ◌≡◌, refl, sym, ap, ◌∙◌, inl, inr, false, Option, none, some, List, [], ◌∷◌,
  ◌++◌, Outcome, ok, ◌>>=◌, GoMap, put, str_eq, eq_iff, arith, All, Ranges, put-Ranges,
  empty-Ranges, fresh_ne, true_ne_false, Bool-cases, Option-cases, length, if◌then◌else◌,
}
use hydra_db.Memory.Types.{Floats}
use hydra_db.Memory.Sorting.{Sorter}
use hydra_db.Memory.InMemory.{Mem, State, provider, write}
use hydra_db.Memory.Plane.{store}
use hydra_db.Bench.Types.{Turn, Session, Library, Stamps, BenchError}
use hydra_db.Bench.Ingest.{Ingested, new_ingested, count_stored, keep, load_turn}

-- The turns of the sessions, in order.
abbrev pub all_turns_of : List Session → List Turn
all_turns_of [] = []
all_turns_of (sess ∷ rest) = sess.turns ++ all_turns_of rest

-- Turns that come after those in `done`, with the last one first.
abbrev pub onto : (turns done : List Turn) → List Turn
onto [] done = done
onto (t ∷ ts) done = onto ts (t ∷ done)

pub onto-append : (xs ys done : List Turn) → onto (xs ++ ys) done ≡ onto ys (onto xs done)
onto-append [] ys done = refl
onto-append (x ∷ xs) ys done = onto-append xs ys (x ∷ done)

-- No identifier is generated twice.
abbrev pub IsFresh : Stamps → Type 0
IsFresh stamps = (a b : ℕ) → stamps.uuid a ≡ stamps.uuid b → a ≡ b

module _ (fl : Floats) where
  -- The turns and the stored records correspond one to one.
  abbrev pub Pairs : (Turn → Mem fl → Type 0) → List Turn → List (String × Mem fl) → Type 0
  Pairs P [] [] = Unit
  Pairs P [] (e ∷ es) = ⊥
  Pairs P (t ∷ ts) [] = ⊥
  Pairs P (t ∷ ts) (e ∷ es) = P t e.1 × Pairs P ts es

  abbrev dia_id_in : Option (Mem fl) → Option String
  dia_id_in none = none
  dia_id_in (some mem) = mem.metadata "dia_id"

  -- An entry under the identifier of its record, one of the first `n` that were generated.
  abbrev pub IsNumbered : Stamps → ℕ → String × Mem fl → Type 0
  IsNumbered stamps n e = (e.0 ≡ e.1.id) × ((j : ℕ) × (j < n) × (e.0 ≡ stamps.uuid j))

  -- The provider holds the records in `order`, one for each of `turns`; the index has their
  -- identifiers of the dialogue; and they are counted.
  pub record Holds (P : Turn → Mem fl → Type 0) (stamps : Stamps) (l : Ingested fl)
      (turns : List Turn) (order : List (String × Mem fl)) : Type 0 where
    pub ranges : Ranges l.records order
    pub pairs : Pairs P turns order
    pub index : (k : String) → l.mem_to_dia_id k ≡ dia_id_in (l.records k)
    pub count : l.turn_count ≡ length turns
    pub numbered : All (IsNumbered stamps l.turn_count) order

  -- An outcome that is no error, and holds a record for each of `turns`.
  abbrev pub Kept :
      (Turn → Mem fl → Type 0)
      → Stamps
      → (sample_id : String) → List Turn
      → Outcome BenchError (Ingested fl)
      → Type 0
  Kept P stamps sample_id turns r =
      (l : Ingested fl) × (order : List (String × Mem fl)) × (r ≡ ok l)
      × (l.sample_id ≡ sample_id)
      × Holds P stamps l turns order

  module _ (P : Turn → Mem fl → Type 0) (stamps : Stamps) where
    pub new_ingested-Holds : (sample_id : String) → Holds P stamps (new_ingested fl sample_id) [] []
    new_ingested-Holds sample_id = record {
      ranges = empty-Ranges;
      pairs = tt;
      index = λ k. refl;
      count = refl;
      numbered = tt;
    }

    pub Kept-bind :
        (sample_id : String) (turns turns' : List Turn) (r : Outcome BenchError (Ingested fl))
        (f : Ingested fl → Outcome BenchError (Ingested fl))
        → Kept P stamps sample_id turns r
        → ((l : Ingested fl) (order : List (String × Mem fl))
            → l.sample_id ≡ sample_id
            → Holds P stamps l turns order
            → Kept P stamps sample_id turns' (f l))
        → Kept P stamps sample_id turns' (r >>= f)
    Kept-bind sample_id turns turns' r f (l, order, e, same, holds) next =
        rw e (next l order same holds)

    IsNumbered-fresh :
        (n : ℕ) (order : List (String × Mem fl))
        → IsFresh stamps
        → All (IsNumbered stamps n) order
        → All (λ e. str_eq (stamps.uuid n) e.0 ≡ false) order
    IsNumbered-fresh n [] fresh all = tt
    IsNumbered-fresh n (e ∷ es) fresh ((at_id, (j, early, at_j)), all) = (
      elim (Bool-cases (str_eq (stamps.uuid n) e.0)) [
        | inl same ↦
            let clash : n ≡ j = fresh n j ((eq_iff (stamps.uuid n) e.0).0 same ∙ at_j) in
            absurd (omega arith)
        | inr other ↦ other
      ],
      IsNumbered-fresh n es fresh all,
    )

    IsNumbered-later :
        (n : ℕ) (order : List (String × Mem fl))
        → All (IsNumbered stamps n) order
        → All (IsNumbered stamps (n + 1)) order
    IsNumbered-later n [] all = tt
    IsNumbered-later n (e ∷ es) ((at_id, (j, early, at_j)), all) =
        ((at_id, (j, omega arith, at_j)), IsNumbered-later n es all)

    free_id :
        (k : String) {s : State fl} {order : List (String × Mem fl)}
        → Ranges s order
        → All (λ e. str_eq k e.0 ≡ false) order
        → s k ≡ none
    free_id k {s} {order} ranges fresh = elim (Option-cases (s k)) [
      | inl free ↦ free
      | inr (m, e) ↦
          absurd
            (true_ne_false ((eq_iff k k).1 refl) (fresh_ne k order fresh (ranges.complete k m e)))
    ]

    put_index :
        (id dia : String) (mem : Mem fl) (b : Option String) (o : Option (Mem fl)) (k : String)
        → mem.metadata "dia_id" ≡ some dia
        → b ≡ dia_id_in o
        → (if str_eq id k then some dia else b) ≡ dia_id_in (if str_eq id k then some mem else o)
    put_index id dia mem b o k h e = elim (Bool-cases (str_eq id k)) [
      | inl same ↦ rw same (sym h)
      | inr other ↦ rw other e
    ]

    write_new :
        (mem : Mem fl) (s : State fl) → s mem.id ≡ none → write fl mem s ≡ (put mem.id mem s, none)
    unfolding write
    write_new mem s free = rw (free, write) refl

    module _ (sorter : Sorter (Mem fl)) (visit : State fl → List (String × Mem fl)) (lib : Library)
        (fresh : IsFresh stamps) where
      keep_new :
          (mem : Mem fl) (dia : String) (l : Ingested fl)
          → l.records mem.id ≡ none
          → keep fl sorter visit lib stamps mem dia l
            ≡ ok (record l {
              records = put mem.id mem l.records;
              mem_to_dia_id = put mem.id dia l.mem_to_dia_id;
              turn_count = l.turn_count + 1;
            })
      unfolding keep count_stored store provider
      keep_new mem dia l free =
          ap (count_stored fl sorter visit lib stamps mem dia l) (write_new mem l.records free)

      -- One round of either loop over turns: a record that takes the next identifier and shows its
      -- turn is stored.
      pub load_turn-Kept :
          (sample_id : String) (turn : Turn) (done : List Turn) (content : GoMap String)
          (build : String → Mem fl) (json : String) (l : Ingested fl)
          (order : List (String × Mem fl))
          → l.sample_id ≡ sample_id
          → Holds P stamps l done order
          → lib.marshal content ≡ some json
          → (build json).id ≡ stamps.uuid l.turn_count
          → (build json).metadata "dia_id" ≡ some turn.dia_id
          → P turn (build json)
          → Kept P stamps sample_id
              (turn ∷ done)
              (load_turn fl sorter visit lib stamps content build turn.dia_id l)
      unfolding load_turn
      load_turn-Kept sample_id turn done content build json l order same h written next at shows =
          let mem : Mem fl = build json in
          let new : All (λ e. str_eq mem.id e.0 ≡ false) order =
            rw next (IsNumbered-fresh l.turn_count order fresh h.numbered) in
          rw (written, keep_new mem turn.dia_id l (free_id mem.id h.ranges new))
            (
              _,
              (mem.id, mem) ∷ order,
              refl,
              same,
              record {
                ranges = put-Ranges mem.id mem h.ranges new;
                pairs = (shows, h.pairs);
                index = λ k. put_index mem.id turn.dia_id mem _ (l.records k) k at (h.index k);
                count = omega (arith, h.count);
                numbered = (
                  (refl, (l.turn_count, omega arith, next)),
                  IsNumbered-later l.turn_count order h.numbered,
                );
              },
            )
