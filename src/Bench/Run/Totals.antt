-- ===== src/Bench/Run/Totals.antt =====
-- cmd/bench-locomo/main.go: a run comes to its end, and counts every question.
use hydra_db.Base.{
  ℕ, suc, ◌+◌, String, ◌≡◌, refl, ap, ◌∙◌, List, [], ◌∷◌, ◌++◌, Outcome, ok, Client, map, length,
  length-append, arith,
}
use hydra_db.Memory.Types.{Floats}
use hydra_db.Memory.Sorting.{Sorter}
use hydra_db.Memory.InMemory.{Mem, State, provider}
use hydra_db.Memory.Plane.{search}
use hydra_db.Llm.{LlmWire}
use hydra_db.Bench.Types.{
  Sample, QaItem, QueryResult, QuestionScore, BenchResult, Library, Stamps, Arithmetic, BenchError,
}
use hydra_db.Bench.Ingest.{Ingested}
use hydra_db.Bench.Ingest.Stored.{IsFresh}
use hydra_db.Bench.Ingest.Turns.{Marshals, ingest_lem}
use hydra_db.Bench.Query.{execute_queries}
use hydra_db.Bench.Score.{TextSet, score_question}
use hydra_db.Bench.Score.Counts.{aggregate_overall-count}
use hydra_db.Bench.Smart.{Texts}
use hydra_db.Bench.Smart.Stored.{IsOrdered, smart_ingest_lem}
use hydra_db.Bench.Smart.Answers.{query-length}
use hydra_db.Bench.Run.{
  Strategy, basic_strategy, llm_strategy, strategy_name, RunError, carry, strategy_ingest,
  strategy_query, run_samples, bench_result, run_benchmark,
}

length-map : {A B : Type 0} (f : A → B) (xs : List A) → length (map f xs) ≡ length xs
length-map f [] = refl
length-map f (x ∷ xs) = ap suc (length-map f xs)

abbrev total_questions : List Sample → ℕ
total_questions [] = 0
total_questions (sample ∷ samples) = length sample.qa + total_questions samples

module _ (fl : Floats) (fa : Arithmetic fl.Float) (lib : Library) (texts : Texts fl.Float)
    {S : Type 0} (wire : LlmWire fl.Float) (http : Client S) (sorter : Sorter (Mem fl))
    (visit : State fl → List (String × Mem fl))
    (visit_set : TextSet → List (String × Unit {0})) where
  -- An outcome with `n` scores, of a strategy of that name.
  abbrev Ran : ℕ → String → Strategy S × Outcome RunError (List (QuestionScore fl.Float)) → Type 0
  Ran n name out =
      (scores : List (QuestionScore fl.Float)) × (out.1 ≡ ok scores)
      × (length scores ≡ n)
      × (strategy_name out.0 ≡ name)

  carry-Ran :
      {A : Type 0} (n : ℕ) (name : String) (strat : Strategy S) (wrap : BenchError → RunError)
      (r : Outcome BenchError A) (a : A)
      (f : A → Strategy S × Outcome RunError (List (QuestionScore fl.Float)))
      → r ≡ ok a
      → Ran n name (f a)
      → Ran n name (carry strat wrap r f)
  carry-Ran n name strat wrap r a f e ran = rw e ran

  query_ends :
      (l : Ingested fl) (qa : List QaItem) (strat : Strategy S)
      → let out = strategy_query fl fa lib texts wire http sorter visit visit_set l qa strat in
        (rs : List QueryResult) × (out.1 ≡ ok rs)
        × (length rs ≡ length qa)
        × (strategy_name out.0 ≡ strategy_name strat)
  unfolding strategy_query execute_queries search provider
  query_ends l qa basic_strategy = (_, refl, length-map _ qa, refl)
  query_ends l qa (llm_strategy s) =
      let (rs, e, same) = query-length fl fa lib texts wire http sorter visit l qa s in
      (rs, e, same, refl)

  module _ (ordered : IsOrdered fl) (marshals : Marshals lib) (stamps : ℕ → Stamps)
      (fresh : (i : ℕ) → IsFresh (stamps i)) where
    ingest_ends :
        (i : ℕ) (sample : Sample) (strat : Strategy S)
        → let out =
            strategy_ingest fl fa lib texts wire http sorter visit visit_set
              (stamps i)
              sample
              strat in
          (l : Ingested fl) × (out.1 ≡ ok l) × (strategy_name out.0 ≡ strategy_name strat)
    unfolding strategy_ingest
    ingest_ends i sample basic_strategy =
        let (l, order, e, same, holds) =
          ingest_lem fl sorter visit lib (stamps i) (fresh i) marshals sample in
        (l, e, refl)
    ingest_ends i sample (llm_strategy s) =
        let (l, order, e, same, holds) =
          smart_ingest_lem fl fa lib texts wire http sorter visit (stamps i) sample ordered
            (fresh i) marshals s in
        (l, e, refl)

    run_samples-Ran :
        (i : ℕ) (samples : List Sample) (strat : Strategy S)
        (all_scores : List (QuestionScore fl.Float))
        → Ran (length all_scores + total_questions samples) (strategy_name strat) (
            run_samples fl fa lib texts wire http sorter visit visit_set stamps i samples strat
              all_scores)
    unfolding run_samples
    run_samples-Ran i [] strat all_scores = (all_scores, refl, omega arith, refl)
    run_samples-Ran i (sample ∷ samples) strat all_scores =
        let (l, made, kept) = ingest_ends i sample strat in
        let strat' : Strategy S =
          (strategy_ingest fl fa lib texts wire http sorter visit visit_set (stamps i) sample
            strat).0 in
        let (rs, asked, same, kept') = query_ends l sample.qa strat' in
        let strat'' : Strategy S =
          (strategy_query fl fa lib texts wire http sorter visit visit_set l sample.qa strat').0 in
        let more : List (QuestionScore fl.Float) =
          all_scores ++ map (score_question fl fa visit_set) rs in
        let (scores, e, n, name) = run_samples-Ran (suc i) samples strat'' more in
        carry-Ran _ _ strat' _ _ l _ made (
          carry-Ran _ _ strat'' _ _ rs _ asked (
            scores,
            e,
            omega (
              arith,
              n,
              same,
              length-append all_scores (map (score_question fl fa visit_set) rs),
              length-map (score_question fl fa visit_set) rs,
            ),
            name ∙ kept' ∙ kept,
          ))

    -- A run of the benchmark comes to its result, with either strategy. Where contents can be
    -- encoded, the identifiers generated within a sample differ, and 0 and 1 are ordered as
    -- expected, it returns no error whatever the LLM answers; the result names the strategy, and
    -- counts every sample and every question of them, as does its overall score.
    pub run_benchmark_ends :
        (dataset : List Sample) (strat : Strategy S)
        → let out =
            run_benchmark fl fa lib texts wire http sorter visit visit_set stamps dataset strat in
          (result : BenchResult fl.Float) × (out.1 ≡ ok result)
          × (result.provider ≡ strategy_name strat)
          × (result.samples ≡ length dataset)
          × (result.questions ≡ total_questions dataset)
          × (result.overall.count ≡ total_questions dataset)
    unfolding run_benchmark bench_result
    run_benchmark_ends dataset strat =
        let (scores, e, n, name) = run_samples-Ran 0 dataset strat [] in
        let strat' : Strategy S =
          (run_samples fl fa lib texts wire http sorter visit visit_set stamps 0 dataset strat
            []).0 in
        (
          bench_result fl fa lib texts wire http sorter visit visit_set dataset strat' scores,
          rw e refl,
          name,
          refl,
          n ∙ (omega arith),
          aggregate_overall-count fl fa scores ∙ n ∙ (omega arith),
        )
