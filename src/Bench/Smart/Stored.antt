-- ===== src/Bench/Smart/Stored.antt =====
-- bench/locomo/strategy_llm.go: every turn of a sample is stored, whatever the LLM answers.
use hydra_db.Base.{
  ℕ, zero, suc, ◌+◌, ◌≤◌, String, ◌≡◌, ◌⊎◌, refl, false, some, List, [], ◌∷◌, Outcome, GoMap, Time,
  arith, eq_iff, Client, take, length,
}
use hydra_db.Memory.Types.{Floats, episodic, semantic, operational, working, new_memory}
use hydra_db.Memory.Sorting.{Sorter}
use hydra_db.Memory.InMemory.{Mem, State}
use hydra_db.Llm.{LlmWire}
use hydra_db.Bench.Types.{Turn, Session, Sample, Library, Stamps, Arithmetic, BenchError}
use hydra_db.Bench.Ingest.{Ingested, new_ingested, load_turn}
use hydra_db.Bench.Ingest.Stored.{
  all_turns_of, onto, onto-append, IsFresh, Holds, Kept, Kept-bind, new_ingested-Holds,
  load_turn-Kept,
}
use hydra_db.Bench.Ingest.Turns.{Marshals}
use hydra_db.Bench.Smart.{
  TurnClassification, Texts, LlmStrategy, parse_memory_type, clamp_confidence, drop, proceed,
  classify_batch_size, classification_of,
}
use hydra_db.Bench.Smart.Ingest.{
  class_content, class_record, load_batch, load_batches, load_sessions, ingest,
}

-- What the proofs use of the order of float64.
pub record IsOrdered (fl : Floats) : Type 0 where
  pub zero_zero : fl.less fl.zero fl.zero ≡ false
  pub one_one : fl.less fl.one fl.one ≡ false
  pub one_zero : fl.less fl.one fl.zero ≡ false

-- One of the four kinds that have a name.
abbrev IsNamed : String → Type 0
IsNamed t = (t ≡ episodic) ⊎ (t ≡ semantic) ⊎ (t ≡ operational) ⊎ (t ≡ working)

-- Neither below 0 nor above 1.
abbrev IsUnit : (fl : Floats) → fl.Float → Type 0
IsUnit fl c = (fl.less c fl.zero ≡ false) × (fl.less fl.one c ≡ false)

parse_memory_type-IsNamed :
    {F : Type 0} (texts : Texts F) (s : String) → IsNamed (parse_memory_type texts s)
unfolding parse_memory_type
parse_memory_type-IsNamed texts s = ground arith

clamp_confidence-IsUnit :
    (fl : Floats) → IsOrdered fl → (c : fl.Float) → IsUnit fl (clamp_confidence fl c)
unfolding clamp_confidence
clamp_confidence-IsUnit fl o c = ground (arith, o.zero_zero, o.one_one, o.one_zero)

onto-drop : (n : ℕ) (ts done : List Turn) → onto (drop n ts) (onto (take n ts) done) ≡ onto ts done
onto-drop zero ts done = refl
onto-drop (suc n) [] done = refl
onto-drop (suc n) (t ∷ ts) done = onto-drop n ts (t ∷ done)

length-drop : (n : ℕ) (ts : List Turn) → length (drop n ts) ≤ length ts
length-drop zero ts = omega arith
length-drop (suc n) [] = omega arith
length-drop (suc n) (t ∷ ts) = omega (arith, length-drop n ts)

module _ (fl : Floats) (lib : Library) where
  -- A record of the turn's speaker, for the sample, of a named kind and with a confidence between 0
  -- and 1; with the identifier of the turn, and the content for some classification.
  abbrev pub ShowsClass : (sample_id : String) → Turn → Mem fl → Type 0
  ShowsClass sample_id turn mem =
      (mem.tenant_id ≡ sample_id)
      × (mem.actor_id ≡ turn.speaker)
      × (mem.metadata "dia_id" ≡ some turn.dia_id)
      × IsNamed mem.type
      × IsUnit fl mem.confidence
      × ((cls : TurnClassification fl.Float) × (lib.marshal (class_content turn cls)
            ≡ some mem.content))

module _ (fl : Floats) (fa : Arithmetic fl.Float) (lib : Library) (texts : Texts fl.Float)
    {S : Type 0} (wire : LlmWire fl.Float) (http : Client S) (sorter : Sorter (Mem fl))
    (visit : State fl → List (String × Mem fl)) (stamps : Stamps) (sample : Sample) where
  -- The outcome holds a record for each of the turns.
  abbrev KeptClass : List Turn → Outcome BenchError (Ingested fl) → Type 0
  KeptClass turns r = Kept fl (ShowsClass fl lib sample.sample_id) stamps sample.sample_id turns r

  abbrev HoldsClass : Ingested fl → List Turn → List (String × Mem fl) → Type 0
  HoldsClass l turns order = Holds fl (ShowsClass fl lib sample.sample_id) stamps l turns order

  KeptClass-proceed :
      (turns turns' : List Turn) (s : LlmStrategy S) (r : Outcome BenchError (Ingested fl))
      (f : Ingested fl → LlmStrategy S × Outcome BenchError (Ingested fl))
      → KeptClass turns r
      → ((l : Ingested fl) (order : List (String × Mem fl))
          → l.sample_id ≡ sample.sample_id
          → HoldsClass l turns order
          → KeptClass turns' (f l).1)
      → KeptClass turns' (proceed s r f).1
  KeptClass-proceed turns turns' s r f (l, order, e, same, holds) next =
      rw e (next l order same holds)

  module _ (ordered : IsOrdered fl) (fresh : IsFresh stamps) (marshals : Marshals lib) where
    one_turn-Kept :
        (cls : TurnClassification fl.Float) (sess : Session) (t : Time) (i : ℕ) (turn : Turn)
        (done : List Turn) (l : Ingested fl) (order : List (String × Mem fl))
        → l.sample_id ≡ sample.sample_id
        → HoldsClass l done order
        → KeptClass (turn ∷ done) (
            load_turn fl sorter visit lib stamps
              (class_content turn cls)
              (class_record fl lib stamps texts l.sample_id sess t i l.turn_count turn cls)
              turn.dia_id
              l)
    unfolding class_record new_memory
    one_turn-Kept cls sess t i turn done l order same holds =
        let (json, written) = marshals (class_content turn cls) in
        load_turn-Kept fl (ShowsClass fl lib sample.sample_id) stamps sorter visit lib fresh
          sample.sample_id turn done (class_content turn cls)
          (class_record fl lib stamps texts l.sample_id sess t i l.turn_count turn cls) json l order
          same holds written refl (ground (arith, eq_iff "dia_id" "dia_id"))
          (
            same,
            refl,
            ground (arith, eq_iff "dia_id" "dia_id"),
            parse_memory_type-IsNamed texts cls.memory_type,
            clamp_confidence-IsUnit fl ordered cls.confidence,
            (cls, written),
          )

    load_batch-Kept :
        (classes : GoMap (TurnClassification fl.Float)) (sess : Session) (t : Time) (i : ℕ)
        (turns done : List Turn) (l : Ingested fl) (order : List (String × Mem fl))
        → l.sample_id ≡ sample.sample_id
        → HoldsClass l done order
        → KeptClass
            (onto turns done)
            (load_batch fl fa lib texts wire http sorter visit stamps classes sess t i turns l)
    unfolding load_batch
    load_batch-Kept classes sess t i [] done l order same holds = (l, order, refl, same, holds)
    load_batch-Kept classes sess t i (turn ∷ turns) done l order same holds =
        Kept-bind fl (ShowsClass fl lib sample.sample_id) stamps sample.sample_id (turn ∷ done)
          (onto turns (turn ∷ done)) _ _
          (one_turn-Kept (classification_of fl fa lib texts wire http classes turn) sess t i turn
            done l order same holds)
          (λ l' order' same' holds'.
            load_batch-Kept classes sess t (suc i) turns (turn ∷ done) l' order' same' holds')

    load_batches-Kept :
        (rounds : ℕ) (sess : Session) (t : Time) (start : ℕ) (turns done : List Turn)
        (l : Ingested fl) (s : LlmStrategy S) (order : List (String × Mem fl))
        → length turns ≤ rounds
        → l.sample_id ≡ sample.sample_id
        → HoldsClass l done order
        → KeptClass
            (onto turns done)
            (load_batches fl fa lib texts wire http sorter visit stamps rounds sample sess t start
              turns l s).1
    unfolding load_batches
    load_batches-Kept rounds sess t start [] done l s order enough same holds =
        (l, order, refl, same, holds)
    load_batches-Kept zero sess t start (turn ∷ turns) done l s order enough same holds =
        absurd (omega arith)
    load_batches-Kept (suc rounds) sess t start (turn ∷ turns) done l s order enough same holds =
        let left : List Turn = turn ∷ turns in
        rw (← onto-drop classify_batch_size left done) (
          KeptClass-proceed (onto (take classify_batch_size left) done)
            (onto (drop classify_batch_size left) (onto (take classify_batch_size left) done)) _ _ _
            (load_batch-Kept _ sess t start (take classify_batch_size left) done l order same holds)
            (λ l' order' same' holds'.
              load_batches-Kept rounds sess t (start + classify_batch_size)
                (drop classify_batch_size left) (onto (take classify_batch_size left) done) l' _
                order' (omega (arith, enough, length-drop 14 turns)) same' holds'))

    load_sessions-Kept :
        (si : ℕ) (sessions : List Session) (done : List Turn) (l : Ingested fl) (s : LlmStrategy S)
        (order : List (String × Mem fl))
        → l.sample_id ≡ sample.sample_id
        → HoldsClass l done order
        → KeptClass
            (onto (all_turns_of sessions) done)
            (load_sessions fl fa lib texts wire http sorter visit stamps sample si sessions l s).1
    unfolding load_sessions
    load_sessions-Kept si [] done l s order same holds = (l, order, refl, same, holds)
    load_sessions-Kept si (sess ∷ rest) done l s order same holds =
        rw (onto-append sess.turns (all_turns_of rest) done) (
          KeptClass-proceed (onto sess.turns done) (onto (all_turns_of rest) (onto sess.turns done))
            _ _ _
            (load_batches-Kept (length sess.turns) sess _ 0 sess.turns done l s order (omega arith)
              same holds)
            (λ l' order' same' holds'.
              load_sessions-Kept (suc si) rest (onto sess.turns done) l' _ order' same' holds'))

    -- An ingestion with an LLM stores every turn, whatever the LLM answers or fails to answer. When
    -- the generated identifiers differ, the content of a turn can be encoded, and 0 and 1 are
    -- ordered as expected, it returns no error, and a visit of the provider can list one record for
    -- each turn of the sample, the last one first: one of the turn's speaker, under the sample's
    -- identifier and with that of the turn, of one of the four named kinds, with a confidence
    -- neither below 0 nor above 1, and with the encoded content for some classification; the index
    -- and the turn count agree.
    pub smart_ingest_lem :
        (s : LlmStrategy S)
        → KeptClass
            (onto (all_turns_of sample.sessions) [])
            (ingest fl fa lib texts wire http sorter visit stamps sample s).1
    unfolding ingest
    smart_ingest_lem s =
        load_sessions-Kept 0 sample.sessions [] (new_ingested fl sample.sample_id) s [] refl
          (new_ingested-Holds fl (ShowsClass fl lib sample.sample_id) stamps sample.sample_id)
