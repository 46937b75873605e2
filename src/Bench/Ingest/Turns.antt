-- ===== src/Bench/Ingest/Turns.antt =====
-- bench/locomo/ingest.go: every turn of a sample is stored.
use hydra_db.Base.{ℕ, suc, String, ◌≡◌, refl, some, List, [], ◌∷◌, GoMap, Time, arith, eq_iff}
use hydra_db.Memory.Types.{Floats, episodic, new_memory}
use hydra_db.Memory.Sorting.{Sorter}
use hydra_db.Memory.InMemory.{Mem, State}
use hydra_db.Bench.Types.{Turn, Session, Sample, Library, Stamps}
use hydra_db.Bench.Ingest.{
  Ingested, new_ingested, load_turn, turn_content, turn_record, load_turns, load_sessions, ingest,
}
use hydra_db.Bench.Ingest.Stored.{
  all_turns_of, onto, onto-append, IsFresh, Holds, Kept, Kept-bind, new_ingested-Holds,
  load_turn-Kept,
}

-- `json.Marshal` does not fail on a map of texts.
abbrev pub Marshals : Library → Type 0
Marshals lib = (content : GoMap String) → (json : String) × (lib.marshal content ≡ some json)

module _ (fl : Floats) (sorter : Sorter (Mem fl)) (visit : State fl → List (String × Mem fl))
    (lib : Library) (stamps : Stamps) where
  -- An episodic record of the turn's speaker, for the sample, with the identifier of the turn and its
  -- content.
  abbrev pub Shows : (sample_id : String) → Turn → Mem fl → Type 0
  Shows sample_id turn mem =
      (mem.type ≡ episodic)
      × (mem.tenant_id ≡ sample_id)
      × (mem.actor_id ≡ turn.speaker)
      × (mem.metadata "dia_id" ≡ some turn.dia_id)
      × (lib.marshal (turn_content turn) ≡ some mem.content)

  module _ (fresh : IsFresh stamps) (marshals : Marshals lib) where
    one_turn-Kept :
        (sample_id : String) (sess : Session) (t : Time) (i : ℕ) (turn : Turn) (done : List Turn)
        (l : Ingested fl) (order : List (String × Mem fl))
        → l.sample_id ≡ sample_id
        → Holds fl (Shows sample_id) stamps l done order
        → Kept fl (Shows sample_id) stamps sample_id (turn ∷ done) (
            load_turn fl sorter visit lib stamps
              (turn_content turn)
              (turn_record fl lib stamps l.sample_id sess t i l.turn_count turn)
              turn.dia_id
              l)
    unfolding turn_record new_memory
    one_turn-Kept sample_id sess t i turn done l order same holds =
        let (json, written) = marshals (turn_content turn) in
        load_turn-Kept fl (Shows sample_id) stamps sorter visit lib fresh sample_id turn done
          (turn_content turn) (turn_record fl lib stamps l.sample_id sess t i l.turn_count turn)
          json l order same holds written refl (ground (arith, eq_iff "dia_id" "dia_id"))
          (refl, same, refl, ground (arith, eq_iff "dia_id" "dia_id"), written)

    load_turns-Kept :
        (sample_id : String) (sess : Session) (t : Time) (i : ℕ) (turns done : List Turn)
        (l : Ingested fl) (order : List (String × Mem fl))
        → l.sample_id ≡ sample_id
        → Holds fl (Shows sample_id) stamps l done order
        → Kept fl
            (Shows sample_id)
            stamps
            sample_id
            (onto turns done)
            (load_turns fl sorter visit lib stamps sess t i turns l)
    unfolding load_turns
    load_turns-Kept sample_id sess t i [] done l order same holds = (l, order, refl, same, holds)
    load_turns-Kept sample_id sess t i (turn ∷ turns) done l order same holds =
        Kept-bind fl (Shows sample_id) stamps sample_id (turn ∷ done) (onto turns (turn ∷ done)) _ _
          (one_turn-Kept sample_id sess t i turn done l order same holds)
          (λ l' order' same' holds'.
            load_turns-Kept sample_id sess t (suc i) turns (turn ∷ done) l' order' same' holds')

    load_sessions-Kept :
        (sample_id : String) (si : ℕ) (sessions : List Session) (done : List Turn) (l : Ingested fl)
        (order : List (String × Mem fl))
        → l.sample_id ≡ sample_id
        → Holds fl (Shows sample_id) stamps l done order
        → Kept fl
            (Shows sample_id)
            stamps
            sample_id
            (onto (all_turns_of sessions) done)
            (load_sessions fl sorter visit lib stamps si sessions l)
    unfolding load_sessions
    load_sessions-Kept sample_id si [] done l order same holds = (l, order, refl, same, holds)
    load_sessions-Kept sample_id si (sess ∷ rest) done l order same holds =
        rw (onto-append sess.turns (all_turns_of rest) done) (
          Kept-bind fl (Shows sample_id) stamps sample_id (onto sess.turns done)
            (onto (all_turns_of rest) (onto sess.turns done)) _ _
            (load_turns-Kept sample_id sess _ 0 sess.turns done l order same holds)
            (λ l' order' same' holds'.
              load_sessions-Kept sample_id (suc si) rest (onto sess.turns done) l' order' same'
                holds'))

    -- An ingestion stores every turn. When the generated identifiers differ and the content of a turn
    -- can be encoded, it returns no error, and a visit of the provider can list one record for each
    -- turn of the sample, the last one first: an episodic one of the turn's speaker, under the
    -- sample's identifier, with the turn's identifier and content. The index and the turn count agree.
    pub ingest_lem :
        (sample : Sample)
        → Kept fl
            (Shows sample.sample_id)
            stamps
            sample.sample_id
            (onto (all_turns_of sample.sessions) [])
            (ingest fl sorter visit lib stamps sample)
    unfolding ingest
    ingest_lem sample =
        load_sessions-Kept sample.sample_id 0 sample.sessions [] (new_ingested fl sample.sample_id)
          [] refl (new_ingested-Holds fl (Shows sample.sample_id) stamps sample.sample_id)
