-- ===== src/Bench/Ingest.antt =====
-- bench/locomo/ingest.go: the turns of a sample become records of a fresh in-memory provider. One
-- record is made for each turn, so that `turn_count` counts the identifiers generated before.
pub mod Stored
pub mod Turns
use Prim.Native.String.{◌++◌ as append}
use hydra_db.Base.{
  ℕ, suc, ◌+◌, String, Option, none, some, List, [], ◌∷◌, Outcome, ok, err, ◌>>=◌, or_fail, GoMap,
  empty, put, ℤ, pos, mul_int, Time, add_duration,
}
use hydra_db.Memory.Types.{MemoryError, Floats, episodic, new_memory}
use hydra_db.Memory.Sorting.{Sorter}
use hydra_db.Memory.InMemory.{Mem, State, provider}
use hydra_db.Memory.Plane.{store}
use hydra_db.Bench.Types.{
  Turn, Session, Sample, Library, Stamps, BenchError, marshal_turn, store_turn,
}

abbrev date_formats : List String
date_formats = "2 January 2006" ∷ "January 2, 2006" ∷ "2006-01-02" ∷ "2006-01-02T15:04:05" ∷ []

try_formats : (String → Option Time) → List String → (now : Time) → Time
try_formats parse [] now = now
try_formats parse (f ∷ fs) now =
    let later = try_formats parse fs now in elim (parse f) [ some t ↦ t | none ↦ later ]

unfoldable pub parse_date_time : (lib : Library) (now : Time) → String → Time
unfolding try_formats
parse_date_time lib now s = try_formats (λ f. lib.parse_time f s) date_formats now

-- The state of the provider stands for the plane. `turn_count` is no more than the turns in memory.
pub record Ingested (fl : Floats) : Type 0 where
  pub sample_id : String
  pub records : State fl
  pub mem_to_dia_id : GoMap String
  pub turn_count : ℕ

abbrev pub new_ingested : (fl : Floats) (sample_id : String) → Ingested fl
new_ingested fl sample_id = record {
  sample_id = sample_id;
  records = empty;
  mem_to_dia_id = empty;
  turn_count = 0;
}

abbrev pub session_tag : Library → ℤ → String
session_tag lib index = append "session-" (lib.itoa index)

abbrev pub seconds : ℕ → ℤ
seconds i = mul_int (pos i) (pos 1000000000)

pub turn_content : Turn → GoMap String
turn_content turn =
    put "speaker" turn.speaker (put "text" turn.text (put "dia_id" turn.dia_id empty))

module _ (fl : Floats) (lib : Library) (stamps : Stamps) where
  -- The record for turn `i` of a session, the n-th that is made.
  unfoldable pub turn_record :
      (sample_id : String)
      → Session
      → (session_time : Time) → (i n : ℕ) → Turn
      → (content : String) → Mem fl
  turn_record sample_id sess session_time i n turn content =
      record (new_memory fl (stamps.uuid n) (stamps.made n) episodic content turn.speaker
        sample_id) {
          tags = session_tag lib sess.index ∷ [];
          metadata = put "dia_id" turn.dia_id (put "session" (lib.itoa sess.index) empty);
          created_at = add_duration session_time (seconds i);
        }

module _ (fl : Floats) (sorter : Sorter (Mem fl)) (visit : State fl → List (String × Mem fl))
    (lib : Library) (stamps : Stamps) where
  -- What becomes of the sample when the provider has answered.
  unfoldable pub count_stored :
      Mem fl
      → (dia_id : String) → Ingested fl
      → State fl × Option MemoryError
      → Outcome BenchError (Ingested fl)
  count_stored mem dia_id l (records', some failed) = err (store_turn dia_id failed)
  count_stored mem dia_id l (records', none) = ok (record l {
    records = records';
    mem_to_dia_id = put mem.id dia_id l.mem_to_dia_id;
    turn_count = l.turn_count + 1;
  })

  -- The end of the loop over turns: the record is stored and counted.
  unfoldable pub keep : Mem fl → (dia_id : String) → Ingested fl → Outcome BenchError (Ingested fl)
  unfolding count_stored
  keep mem dia_id l = count_stored mem dia_id l (store (provider fl sorter visit) mem l.records)

  -- One round of the loop over turns, for the content and the record that it builds.
  unfoldable pub load_turn :
      (content : GoMap String) (build : String → Mem fl) (dia_id : String)
      → Ingested fl
      → Outcome BenchError (Ingested fl)
  unfolding keep
  load_turn content build dia_id l = do
    json ← or_fail (lib.marshal content) (marshal_turn dia_id)
    keep (build json) dia_id l

  unfoldable pub load_turns :
      Session
      → (session_time : Time) → (i : ℕ) → List Turn
      → Ingested fl
      → Outcome BenchError (Ingested fl)
  load_turns sess session_time i [] l = ok l
  load_turns sess session_time i (turn ∷ turns) l = do
    l' ←
        load_turn (turn_content turn)
          (turn_record fl lib stamps l.sample_id sess session_time i l.turn_count turn) turn.dia_id
          l
    load_turns sess session_time (suc i) turns l'

  unfoldable pub load_sessions :
      (si : ℕ) → List Session → Ingested fl → Outcome BenchError (Ingested fl)
  unfolding load_turns
  load_sessions si [] l = ok l
  load_sessions si (sess ∷ rest) l = do
    l' ← load_turns sess (parse_date_time lib (stamps.opened si) sess.date_time) 0 sess.turns l
    load_sessions (suc si) rest l'

  unfoldable pub ingest : Sample → Outcome BenchError (Ingested fl)
  unfolding load_sessions
  ingest sample = load_sessions 0 sample.sessions (new_ingested fl sample.sample_id)
