-- ===== src/Bench/Score/Examples.antt =====
-- bench/locomo/score.go: the theorems at concrete inputs.
use hydra_db.Base.{
  ℕ, ◌+◌, ◌++◌, arith, same-Ranges, ◌≡◌, refl, Ranges, put-Ranges, empty-Ranges, List, [], ◌∷◌, pos,
}
use hydra_db.Bench.Types.{QueryResult, QuestionScore}
use hydra_db.Bench.Fixtures.{whole, whole_arithmetic, asked, visit_set}
use hydra_db.Bench.Score.{
  TextSet, to_set, score_question, score_counts, aggregate_by_category, aggregate_overall,
}
use hydra_db.Bench.Score.Laws.{own_mean, score_question_lem, aggregate_by_category_lem}
use hydra_db.Bench.Score.Counts.{total_count, aggregate_overall-aggregate_by_category}

-- d1 is retrieved twice.
abbrev answer : QueryResult
answer = record { qa = asked; retrieved_ids = "d1" ∷ "d2" ∷ "d1" ∷ [] }

evidence-Ranges : Ranges (to_set ("d2" ∷ [])) (visit_set (to_set ("d2" ∷ [])))
unfolding to_set
evidence-Ranges = put-Ranges "d2" tt empty-Ranges tt

abbrev retrieved : TextSet
retrieved = to_set ("d1" ∷ "d2" ∷ "d1" ∷ [])

retrieved-Ranges : Ranges retrieved (visit_set retrieved)
unfolding to_set
retrieved-Ranges =
    same-Ranges (λ k. ground arith)
      (put-Ranges "d1" tt (put-Ranges "d2" tt empty-Ranges tt) (refl, tt))

score_question_lem_example :
    score_question whole whole_arithmetic visit_set answer
    ≡ score_counts whole whole_arithmetic asked 2 1 1
score_question_lem_example =
    score_question_lem whole whole_arithmetic visit_set answer evidence-Ranges retrieved-Ranges

abbrev score_of : (precision : ℕ) → ℕ → QuestionScore ℕ
score_of precision category = record {
  question = "q";
  category = pos category;
  precision = precision;
  recall = 1;
  f1 = 1;
  retrieved = 1;
  evidence = 1;
}

-- One score of the first category, two of the second, and one of a category without a name.
abbrev scores : List (QuestionScore ℕ)
scores = score_of 3 2 ∷ score_of 4 1 ∷ score_of 5 9 ∷ score_of 6 2 ∷ []

aggregate_by_category_lem_example :
    aggregate_by_category whole whole_arithmetic (λ z. "9") scores
    ≡ own_mean whole whole_arithmetic (λ z. "9") (pos 1) (score_of 4 1 ∷ [])
      ++ own_mean whole whole_arithmetic (λ z. "9") (pos 2) (score_of 3 2 ∷ score_of 6 2 ∷ [])
aggregate_by_category_lem_example =
    aggregate_by_category_lem whole whole_arithmetic (λ z. "9") scores

aggregate_overall-aggregate_by_category_example :
    ((aggregate_overall whole whole_arithmetic scores).count ≡ 4)
    × (total_count whole whole_arithmetic
            (aggregate_by_category whole whole_arithmetic (λ z. "9") scores)
          + 1
        ≡ (aggregate_overall whole whole_arithmetic scores).count)
aggregate_overall-aggregate_by_category_example =
    aggregate_overall-aggregate_by_category whole whole_arithmetic (λ z. "9") scores
