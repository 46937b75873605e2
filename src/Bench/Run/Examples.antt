-- ===== src/Bench/Run/Examples.antt =====
-- cmd/bench-locomo/main.go: the theorem at a concrete input.
use hydra_db.Base.{ℕ, ◌≡◌, [], ◌∷◌, ok}
use hydra_db.Memory.InsertionSort.{sorter}
use hydra_db.Bench.Types.{BenchResult}
use hydra_db.Bench.Fixtures.{
  whole, whole_arithmetic, stamps, fresh, lib, marshals, sample, visit, visit_set,
}
use hydra_db.Bench.Smart.Fixtures.{ordered, texts, wire, http, before}
use hydra_db.Bench.Run.{llm_strategy, run_benchmark}
use hydra_db.Bench.Run.Totals.{run_benchmark_ends}

-- Two samples, of one question each.
run_benchmark_ends_example :
    let out =
      run_benchmark whole whole_arithmetic lib texts wire http sorter visit visit_set
        (λ i. stamps)
        (sample ∷ sample ∷ [])
        (llm_strategy before) in
    (result : BenchResult ℕ) × (out.1 ≡ ok result)
    × (result.provider ≡ "llm")
    × (result.samples ≡ 2)
    × (result.questions ≡ 2)
    × (result.overall.count ≡ 2)
run_benchmark_ends_example =
    run_benchmark_ends whole whole_arithmetic lib texts wire http sorter visit visit_set ordered
      marshals (λ i. stamps) (λ i. fresh) (sample ∷ sample ∷ []) (llm_strategy before)
