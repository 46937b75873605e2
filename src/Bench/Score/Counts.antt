-- ===== src/Bench/Score/Counts.antt =====
-- bench/locomo/score.go: the questions that the two aggregates count.
use hydra_db.Base.{
  ℕ, suc, ◌+◌, String, ◌≡◌, refl, sym, ap, ◌∙◌, inl, inr, Bool, not, List, [], ◌∷◌, ◌++◌,
  if◌then◌else◌, arith, ℤ, pos, negsuc, eq_ℤ, length, filter, any, Bool-cases,
}
use hydra_db.Memory.Types.{Floats}
use hydra_db.Bench.Types.{Category, QuestionScore, CategoryScore, Arithmetic, all_categories}
use hydra_db.Bench.Score.{
  Accumulator, new_accumulator, accumulate, aggregate_by_category, aggregate_overall, sum_scores,
  means,
}
use hydra_db.Bench.Score.Laws.{own, own_mean, own_means, aggregate_by_category_lem}

-- A category that has a name.
abbrev is_known : Category → Bool
is_known c = any (λ d. eq_ℤ c d) all_categories

abbrev one_if : Bool → ℕ
one_if b = if b then 1 else 0

one_category :
    (c : Category)
    → one_if (eq_ℤ c (pos 1))
        + (one_if (eq_ℤ c (pos 2))
            + (one_if (eq_ℤ c (pos 3)) + (one_if (eq_ℤ c (pos 4)) + (one_if (eq_ℤ c (pos 5)) + 0))))
      ≡ one_if (is_known c)
one_category (pos n) = ground arith
one_category (negsuc n) = ground arith

module _ (fl : Floats) (fa : Arithmetic fl.Float) where
  abbrev pub total_count : List (CategoryScore fl.Float) → ℕ
  total_count [] = 0
  total_count (c ∷ cs) = c.count + total_count cs

  total_count-append :
      (xs ys : List (CategoryScore fl.Float))
      → total_count (xs ++ ys) ≡ total_count xs + total_count ys
  total_count-append [] ys = omega arith
  total_count-append (x ∷ xs) ys = omega (arith, total_count-append xs ys)

  sum_scores-count :
      (scores : List (QuestionScore fl.Float)) (acc : Accumulator fl fa)
      → (sum_scores fl fa scores acc).count ≡ acc.count + length scores
  unfolding sum_scores
  sum_scores-count [] acc = omega arith
  sum_scores-count (s ∷ scores) acc =
      omega (arith, sum_scores-count scores (accumulate fl fa acc s))

  pub aggregate_overall-count :
      (scores : List (QuestionScore fl.Float))
      → (aggregate_overall fl fa scores).count ≡ length scores
  unfolding aggregate_overall means
  aggregate_overall-count [] = refl
  aggregate_overall-count (s ∷ scores) =
      sum_scores-count (s ∷ scores) (new_accumulator fl fa) ∙ (omega arith)

  own_mean-count :
      (itoa : ℤ → String) (c : Category) (scores : List (QuestionScore fl.Float))
      → total_count (own_mean fl fa itoa c scores) ≡ length scores
  own_mean-count itoa c [] = refl
  own_mean-count itoa c (s ∷ scores) = omega (arith, aggregate_overall-count (s ∷ scores))

  -- How many scores there are of some categories.
  abbrev owned : List Category → List (QuestionScore fl.Float) → ℕ
  owned [] scores = 0
  owned (c ∷ cs) scores = length (own fl fa c scores) + owned cs scores

  own_means-count :
      (itoa : ℤ → String) (cs : List Category) (scores : List (QuestionScore fl.Float))
      → total_count (own_means fl fa itoa cs scores) ≡ owned cs scores
  own_means-count itoa [] scores = refl
  own_means-count itoa (c ∷ cs) scores = omega (
    arith,
    total_count-append (own_mean fl fa itoa c (own fl fa c scores))
        (own_means fl fa itoa cs scores),
    own_mean-count itoa c (own fl fa c scores),
    own_means-count itoa cs scores,
  )

  abbrev unknown : List (QuestionScore fl.Float) → List (QuestionScore fl.Float)
  unknown scores = filter (λ s. not (is_known s.category)) scores

  length-own :
      (c : Category) (s : QuestionScore fl.Float) (scores : List (QuestionScore fl.Float))
      → length (own fl fa c (s ∷ scores)) ≡ one_if (eq_ℤ s.category c) + length (own fl fa c scores)
  length-own c s scores = elim (Bool-cases (eq_ℤ s.category c)) [
    | inl same ↦ rw same (omega arith)
    | inr other ↦ rw other (omega arith)
  ]

  length-unknown :
      (s : QuestionScore fl.Float) (scores : List (QuestionScore fl.Float))
      → length (unknown (s ∷ scores)) + one_if (is_known s.category) ≡ suc (length (unknown scores))
  length-unknown s scores = elim (Bool-cases (is_known s.category)) [
    | inl known ↦ rw known (omega arith)
    | inr other ↦ rw other (omega arith)
  ]

  owned-unknown :
      (scores : List (QuestionScore fl.Float))
      → owned all_categories scores + length (unknown scores) ≡ length scores
  owned-unknown [] = refl
  owned-unknown (s ∷ scores) = omega (
    arith,
    owned-unknown scores,
    one_category s.category,
    length-unknown s scores,
    length-own (pos 1) s scores,
    length-own (pos 2) s scores,
    length-own (pos 3) s scores,
    length-own (pos 4) s scores,
    length-own (pos 5) s scores,
  )

  -- The overall aggregate counts every question; the aggregates by category count together exactly
  -- those whose category is one of the five, and leave the others out.
  pub aggregate_overall-aggregate_by_category :
      (itoa : ℤ → String) (scores : List (QuestionScore fl.Float))
      → ((aggregate_overall fl fa scores).count ≡ length scores)
        × (total_count (aggregate_by_category fl fa itoa scores) + length (unknown scores)
            ≡ (aggregate_overall fl fa scores).count)
  aggregate_overall-aggregate_by_category itoa scores = (
    aggregate_overall-count scores,
    ap (λ cs. total_count cs + length (unknown scores))
          (aggregate_by_category_lem fl fa itoa scores)
        ∙ ap (λ n. n + length (unknown scores)) (own_means-count itoa all_categories scores)
        ∙ owned-unknown scores
        ∙ sym (aggregate_overall-count scores),
  )
