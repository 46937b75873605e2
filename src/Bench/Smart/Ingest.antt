-- ===== src/Bench/Smart/Ingest.antt =====
-- bench/locomo/strategy_llm.go: the ingestion of a sample, in batches that the LLM classifies.
use hydra_db.Base.{
  ℕ, zero, suc, ◌+◌, String, Option, none, some, List, [], ◌∷◌, Outcome, ok, ◌>>=◌, GoMap, empty,
  put, Time, add_duration, Client, take, length,
}
use hydra_db.Memory.Types.{Floats, new_memory}
use hydra_db.Memory.Sorting.{Sorter}
use hydra_db.Memory.InMemory.{Mem, State}
use hydra_db.Llm.{LlmWire}
use hydra_db.Bench.Types.{Turn, Session, Sample, Library, Stamps, Arithmetic, BenchError}
use hydra_db.Bench.Ingest.{Ingested, new_ingested, session_tag, seconds, load_turn, parse_date_time}
use hydra_db.Bench.Smart.{
  TurnClassification, Texts, LlmStrategy, parse_memory_type, clamp_confidence, fallback_classify,
  class_map, drop, proceed, classify_batch_size, classify_batch, classification_of,
}

-- What the classification of a batch falls back to.
abbrev or_basic :
    {F : Type 0}
    → Arithmetic F
    → List Turn
    → Option (List (TurnClassification F))
    → List (TurnClassification F)
or_basic fa batch none = fallback_classify fa batch
or_basic fa batch (some classifications) = classifications

pub class_content : {F : Type 0} → Turn → TurnClassification F → GoMap String
class_content turn cls =
    put "speaker" turn.speaker
      (put "text" turn.text (put "dia_id" turn.dia_id (put "summary" cls.summary empty)))

module _ (fl : Floats) (lib : Library) (stamps : Stamps) (texts : Texts fl.Float) where
  -- The record for turn `i` of a session, the n-th that is made.
  unfoldable pub class_record :
      (sample_id : String)
      → Session
      → (session_time : Time) → (i n : ℕ) → Turn
      → TurnClassification fl.Float
      → (content : String) → Mem fl
  class_record sample_id sess session_time i n turn cls content =
      record (new_memory fl (stamps.uuid n) (stamps.made n)
        (parse_memory_type texts cls.memory_type) content turn.speaker sample_id) {
          confidence = clamp_confidence fl cls.confidence;
          tags = session_tag lib sess.index ∷ cls.tags;
          metadata =
              put "dia_id" turn.dia_id
                (put "session" (lib.itoa sess.index) (put "summary" cls.summary empty));
          created_at = add_duration session_time (seconds i);
        }

module _ (fl : Floats) (fa : Arithmetic fl.Float) (lib : Library) (texts : Texts fl.Float)
    {S : Type 0} (wire : LlmWire fl.Float) (http : Client S) (sorter : Sorter (Mem fl))
    (visit : State fl → List (String × Mem fl)) (stamps : Stamps) where
  -- The turns of a batch; `i` counts from the start of the session.
  unfoldable pub load_batch :
      GoMap (TurnClassification fl.Float)
      → Session
      → (session_time : Time) → (i : ℕ) → List Turn
      → Ingested fl
      → Outcome BenchError (Ingested fl)
  load_batch classes sess session_time i [] l = ok l
  load_batch classes sess session_time i (turn ∷ turns) l = do
    let cls = classification_of fl fa lib texts wire http classes turn
    l' ←
        load_turn fl sorter visit lib stamps (class_content turn cls)
          (class_record fl lib stamps texts l.sample_id sess session_time i l.turn_count turn cls)
          turn.dia_id l
    load_batch classes sess session_time (suc i) turns l'

  -- The batches of the turns that are left of a session. Each round takes a turn at least, so that as
  -- many rounds as turns are enough.
  unfoldable pub load_batches :
      (rounds : ℕ)
      → Sample
      → Session
      → (session_time : Time) → (batch_start : ℕ) → List Turn
      → Ingested fl
      → LlmStrategy S
      → LlmStrategy S × Outcome BenchError (Ingested fl)
  unfolding load_batch
  load_batches rounds sample sess session_time batch_start [] l s = (s, ok l)
  load_batches zero sample sess session_time batch_start (turn ∷ turns) l s = (s, ok l)
  load_batches (suc rounds) sample sess session_time batch_start (turn ∷ turns) l s =
      let left = turn ∷ turns in
      let batch = take classify_batch_size left in
      let (s', answer) = classify_batch fl fa lib texts wire http sample sess batch s in
      proceed s'
        (load_batch (class_map (or_basic fa batch answer) empty) sess session_time batch_start batch
          l)
        (λ l'.
          load_batches rounds sample sess session_time (batch_start + classify_batch_size)
            (drop classify_batch_size left) l' s')

  unfoldable pub load_sessions :
      Sample
      → (si : ℕ) → List Session
      → Ingested fl
      → LlmStrategy S
      → LlmStrategy S × Outcome BenchError (Ingested fl)
  unfolding load_batches
  load_sessions sample si [] l s = (s, ok l)
  load_sessions sample si (sess ∷ rest) l s =
      let (s', r) =
        load_batches (length sess.turns) sample sess
          (parse_date_time lib (stamps.opened si) sess.date_time) 0 sess.turns l s in
      proceed s' r (λ l'. load_sessions sample (suc si) rest l' s')

  unfoldable pub ingest : Sample → LlmStrategy S → LlmStrategy S × Outcome BenchError (Ingested fl)
  unfolding load_sessions
  ingest sample s = load_sessions sample 0 sample.sessions (new_ingested fl sample.sample_id) s
