-- ===== src/Bench/Run.antt =====
-- cmd/bench-locomo/main.go: a run of the benchmark, up to the report.
pub mod Totals
mod Examples
use Prim.Native.String.{◌++◌ as append}
use hydra_db.Base.{
  ℕ, zero, suc, String, Bool, Option, none, some, List, [], ◌∷◌, ◌++◌, Outcome, ok, err, ◌>>=◌, ℤ,
  pos, ltb_ℤ, pos_part, Client, if◌then◌else◌, ◌&&◌, ltb, str_eq, map, take, length,
}
use hydra_db.Memory.Types.{Floats, MemoryError}
use hydra_db.Memory.Sorting.{Sorter}
use hydra_db.Memory.InMemory.{Mem, State}
use hydra_db.Llm.{Usage, LlmClient, LlmWire, LlmError, new_client, with_base_url, health}
use hydra_db.Bench.Types.{
  Sample, QaItem, QueryResult, QuestionScore, BenchResult, Library, Stamps, Arithmetic, BenchError,
  search_all_failed,
}
use hydra_db.Bench.Ingest.{Ingested}
use hydra_db.Bench.Ingest
use hydra_db.Bench.Query.{execute_queries}
use hydra_db.Bench.Score.{TextSet, score_question, aggregate_by_category, aggregate_overall}
use hydra_db.Bench.Smart.{Texts, LlmStrategy, new_llm_strategy}
use hydra_db.Bench.Smart
use hydra_db.Bench.Smart.Ingest as SmartIngest

-- The implementations of `Strategy`. `S` is the state of the world that the client of the LLM talks to.
pub data Strategy (S : Type 0) : Type 0 where
  basic_strategy : Strategy S
  llm_strategy : LlmStrategy S → Strategy S

abbrev pub strategy_name : {S : Type 0} → Strategy S → String
strategy_name basic_strategy = "basic"
strategy_name (llm_strategy s) = "llm"

pub data RunError : Type 0 where
  ingest_sample : (sample_id : String) → BenchError → RunError
  query_sample : (sample_id : String) → BenchError → RunError

data SelectError : Type 0 where
  sidecar_unhealthy : LlmError → SelectError
  unknown_strategy : (name : String) → SelectError

module _ {F S : Type 0} (wire : LlmWire F) (http : Client S) where
  select_strategy : (name sidecar_url : String) → S → S × Outcome SelectError (Strategy S)
  select_strategy name sidecar_url world =
      if str_eq name "basic"
      then (world, ok basic_strategy)
      else if str_eq name "llm"
      then (let client = new_client (with_base_url sidecar_url ∷ []) in
          let (world', e) = health wire http client world in
          (
            world',
            elim e [
              | some unhealthy ↦ err (sidecar_unhealthy unhealthy)
              | none ↦ ok (llm_strategy (new_llm_strategy client world'))
            ],
          ))
      else (world, err (unknown_strategy name))

-- `limit` cuts the dataset if it is positive and less than its length.
cut_dataset : (limit : ℤ) → List Sample → List Sample
cut_dataset limit dataset =
    if ltb_ℤ (pos 0) limit && ltb_ℤ limit (pos (length dataset))
    then take (pos_part limit) dataset
    else dataset

-- `if err != nil { return …, fmt.Errorf(…, err) }`, for a strategy that has changed already.
abbrev pub carry :
    {S A B : Type 0}
    → Strategy S
    → (BenchError → RunError)
    → Outcome BenchError A
    → (A → Strategy S × Outcome RunError B)
    → Strategy S × Outcome RunError B
carry strat wrap (err e) f = (strat, err (wrap e))
carry strat wrap (ok a) f = f a

module _ (fl : Floats) (fa : Arithmetic fl.Float) (lib : Library) (texts : Texts fl.Float)
    {S : Type 0} (wire : LlmWire fl.Float) (http : Client S) (sorter : Sorter (Mem fl))
    (visit : State fl → List (String × Mem fl))
    (visit_set : TextSet → List (String × Unit {0})) where
  -- `Strategy.Ingest` and `Strategy.Query`.
  pub strategy_ingest : Stamps → Sample → Strategy S → Strategy S × Outcome BenchError (Ingested fl)
  strategy_ingest stamps sample basic_strategy =
      (basic_strategy, Ingest.ingest fl sorter visit lib stamps sample)
  strategy_ingest stamps sample (llm_strategy s) =
      let (s', r) = SmartIngest.ingest fl fa lib texts wire http sorter visit stamps sample s in
      (llm_strategy s', r)

  abbrev search_error : {A : Type 0} → Outcome MemoryError A → Outcome BenchError A
  search_error (ok a) = ok a
  search_error (err e) = err (search_all_failed e)

  pub strategy_query :
      Ingested fl → List QaItem → Strategy S → Strategy S × Outcome BenchError (List QueryResult)
  strategy_query l qa basic_strategy =
      (basic_strategy, search_error (execute_queries fl lib sorter visit l qa))
  strategy_query l qa (llm_strategy s) =
      let (s', r) = Smart.query fl fa lib texts wire http sorter visit l qa s in
      (llm_strategy s', r)

  -- The loop over the samples; `stamps` gives each sample its identifiers and times.
  pub run_samples :
      (stamps : ℕ → Stamps)
      → (i : ℕ) → List Sample
      → Strategy S
      → List (QuestionScore fl.Float)
      → Strategy S × Outcome RunError (List (QuestionScore fl.Float))
  unfolding strategy_ingest strategy_query
  run_samples stamps i [] strat all_scores = (strat, ok all_scores)
  run_samples stamps i (sample ∷ samples) strat all_scores =
      let (strat', ingested) = strategy_ingest (stamps i) sample strat in
      carry strat' (ingest_sample sample.sample_id) ingested (λ l.
        let (strat'', results) = strategy_query l sample.qa strat' in
        carry strat'' (query_sample sample.sample_id) results (λ rs.
          run_samples stamps (suc i) samples strat''
            (all_scores ++ map (score_question fl fa visit_set) rs)))

  abbrev tokens_of : Strategy S → Option Usage
  tokens_of basic_strategy = none
  tokens_of (llm_strategy s) = some s.total_usage

  abbrev fallbacks_of : Strategy S → ℤ
  fallbacks_of basic_strategy = pos 0
  fallbacks_of (llm_strategy s) = s.plan_fallbacks

  -- The result for the scores of all samples.
  pub bench_result : List Sample → Strategy S → List (QuestionScore fl.Float) → BenchResult fl.Float
  bench_result dataset strat all_scores = record {
    provider = strategy_name strat;
    samples = length dataset;
    questions = length all_scores;
    categories = aggregate_by_category fl fa lib.itoa all_scores;
    overall = aggregate_overall fl fa all_scores;
    tokens = tokens_of strat;
    plan_fallbacks = fallbacks_of strat;
  }

  pub run_benchmark :
      (stamps : ℕ → Stamps)
      → List Sample
      → Strategy S
      → Strategy S × Outcome RunError (BenchResult fl.Float)
  unfolding run_samples bench_result
  run_benchmark stamps dataset strat =
      let (strat', r) = run_samples stamps 0 dataset strat [] in
      (strat', r >>= (λ all_scores. ok (bench_result dataset strat' all_scores)))
