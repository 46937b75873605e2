-- ===== src/Bench/Smart.antt =====
-- bench/locomo/strategy_llm.go: ingestion and queries that ask an LLM. The message with an error is
-- only printed, so that a classification or a plan that fails is `none`.
pub mod Prompts
mod Classes
pub mod Ingest
pub mod Stored
pub mod Fallbacks
pub mod Answers
pub mod Fixtures
mod Examples
use Prim.Native.String.{◌++◌ as append}
use hydra_db.Base.{
  ℕ, zero, suc, ◌+◌, String, Bool, Option, none, some, List, [], ◌∷◌, ◌++◌, Outcome, ok, err, ◌>>=◌,
  GoMap, empty, put, ℤ, pos, add_int, Time, add_duration, zero_time, Client, if◌then◌else◌, ltb,
  str_eq, map, take, length,
}
use hydra_db.Memory.Types.{
  Floats, Memory, SearchQuery, Provider, episodic, semantic, operational, working, new_memory,
}
use hydra_db.Memory.Sorting.{Sorter}
use hydra_db.Memory.InMemory.{Mem, State, provider}
use hydra_db.Memory.Plane.{search}
use hydra_db.Llm.{Usage, LlmClient, LlmWire, LlmError, CompleteRequest, CompleteResponse, complete}
use hydra_db.Bench.Types.{
  Turn, Session, Sample, QaItem, QueryResult, Library, Stamps, Arithmetic, BenchError,
  search_failed, category_string,
}
use hydra_db.Bench.Ingest.{Ingested, new_ingested, session_tag, seconds, load_turn, parse_date_time}
use hydra_db.Bench.Query.{extract_dia_ids}
use Prompts.{join_lines, classify_system_prompt, query_system_prompt}
unfoldable pub use Classes.*

-- The strategy, and the state of the world that its client talks to.
pub record LlmStrategy (S : Type 0) : Type 0 where
  pub client : LlmClient
  pub total_usage : Usage
  pub plan_fallbacks : ℤ
  pub world : S

pub new_llm_strategy : {S : Type 0} → LlmClient → S → LlmStrategy S
new_llm_strategy client world = record {
  client = client;
  total_usage = record { input_tokens = pos 0; output_tokens = pos 0 };
  plan_fallbacks = pos 0;
  world = world;
}

-- TotalUsage += usage
abbrev add_usage : Usage → Usage → Usage
add_usage total u = record {
  input_tokens = add_int total.input_tokens u.input_tokens;
  output_tokens = add_int total.output_tokens u.output_tokens;
}

-- `if err != nil { return nil, err }`, for a strategy that has changed already.
abbrev pub proceed :
    {S A B E : Type 0}
    → LlmStrategy S
    → Outcome E A
    → (A → LlmStrategy S × Outcome E B)
    → LlmStrategy S × Outcome E B
proceed s (err e) f = (s, err e)
proceed s (ok a) f = f a

module _ (fl : Floats) (fa : Arithmetic fl.Float) (lib : Library) (texts : Texts fl.Float)
    {S : Type 0} (wire : LlmWire fl.Float) (http : Client S) where
  -- What is made of the outcome of a completion.
  pub heard :
      {A : Type 0}
      → (String → Option A)
      → LlmStrategy S
      → Outcome LlmError CompleteResponse
      → LlmStrategy S × Option A
  heard parse s (err e) = (s, none)
  heard parse s (ok resp) = (
    record s { total_usage = add_usage s.total_usage resp.usage },
    parse_answer texts parse (clean_json texts resp.text),
  )

  -- What `classifyBatch` and `planQuery` share: a completion, whose tokens are counted, and the text of
  -- its answer, cleaned and parsed.
  pub ask :
      {A : Type 0}
      → (String → Option A)
      → (system user : String) → (max_tokens : ℕ) → LlmStrategy S
      → LlmStrategy S × Option A
  unfolding heard
  ask parse system user max_tokens s =
      let (world', answer) =
        complete wire http s.client
          (record {
            system_prompt = system;
            user_message = user;
            max_tokens = pos max_tokens;
            temperature = none;
            model = "";
          })
          s.world in
      heard parse (record s { world = world' }) answer

  abbrev turn_line : Turn → String
  turn_line t = append t.dia_id (append " | " (append t.speaker (append ": " t.text)))

  abbrev classify_message : Sample → Session → List Turn → String
  classify_message sample sess turns = append "Conversation between " (
      append sample.speaker_a (
        append " and " (
          append sample.speaker_b (
            append ", session " (
              append (lib.itoa sess.index) (
                append " ("
                  (append sess.date_time (append "):\n\n" (join_lines (map turn_line turns))))))))))

  pub classify_batch :
      Sample
      → Session
      → List Turn
      → LlmStrategy S
      → LlmStrategy S × Option (List (TurnClassification fl.Float))
  unfolding ask
  classify_batch sample sess turns s =
      ask texts.classifications classify_system_prompt (classify_message sample sess turns) 2048 s

  pub plan_query : QaItem → LlmStrategy S → LlmStrategy S × Option (SmartSearchQuery fl.Float)
  unfolding ask
  plan_query qa s =
      ask texts.smart_query query_system_prompt
        (append "Question: "
          (append qa.question (append "\nCategory: " (category_string lib.itoa qa.category))))
        256 s

  -- The classification of a turn of a batch.
  pub classification_of : GoMap (TurnClassification fl.Float) → Turn → TurnClassification fl.Float
  classification_of m turn = elim (m turn.dia_id) [
    | none ↦ basic_classification fa turn
    | some cls ↦ cls
  ]

  -- The query for a plan.
  pub search_query : (sample_id : String) → SmartSearchQuery fl.Float → SearchQuery fl.Float
  search_query sample_id smart = record {
    type = if str_eq smart.memory_type "" then "" else parse_memory_type texts smart.memory_type;
    tags = elim smart.tags [ [] ↦ [] | t ∷ ts ↦ t ∷ ts ];
    actor_id = "";
    tenant_id = sample_id;
    limit = pos 10000;
    since = zero_time;
    min_confidence = smart.min_confidence;
  }

  -- The plan that is made when the LLM gives none.
  abbrev broad_search : SmartSearchQuery fl.Float
  broad_search = record { memory_type = ""; tags = []; min_confidence = fa.fifth; reasoning = "" }

  abbrev pub planned :
      LlmStrategy S × Option (SmartSearchQuery fl.Float) → LlmStrategy S × SmartSearchQuery fl.Float
  planned (s, some plan) = (s, plan)
  planned (s, none) = (record s { plan_fallbacks = add_int s.plan_fallbacks (pos 1) }, broad_search)

  module _ (sorter : Sorter (Mem fl)) (visit : State fl → List (String × Mem fl)) where
    -- One round of the loop over the questions.
    pub query_one :
        Ingested fl → QaItem → LlmStrategy S → LlmStrategy S × Outcome BenchError QueryResult
    query_one l q s =
        let (s', plan) = planned (plan_query q s) in
        (
          s',
          elim (search (provider fl sorter visit) (search_query l.sample_id plan) l.records) [
            | err e ↦ err (search_failed q.question e)
            | ok mems ↦
                ok (record { qa = q; retrieved_ids = extract_dia_ids fl lib mems l.mem_to_dia_id })
          ],
        )

    pub query :
        Ingested fl
        → List QaItem
        → LlmStrategy S
        → LlmStrategy S × Outcome BenchError (List QueryResult)
    unfolding query_one
    query l [] s = (s, ok [])
    query l (q ∷ qs) s =
        let (s', r) = query_one l q s in
        let (s'', rest) = query l qs s' in
        proceed s' r (λ result. proceed s'' rest (λ results. (s'', ok (result ∷ results))))
