-- ===== src/Bench/Score/Laws.antt =====
-- bench/locomo/score.go: the score of a question, and the means over its category.
use hydra_db.Base.{
  ℕ, ◌<◌, ◌≢◌, Memᴰ, str_mem, String, ◌≡◌, refl, ap, ◌∙◌, inl, inr, true, false, Option, some, none,
  List, [], ◌∷◌, ◌++◌, if◌then◌else◌, arith, Ranges, ℤ, pos, negsuc, eq_ℤ, ◌==◌, length, filter,
  Bool-cases,
}
use hydra_db.Memory.Types.{Floats}
use hydra_db.Bench.Types.{
  Category, QueryResult, QuestionScore, CategoryScore, Arithmetic, category_string, all_categories,
}
use hydra_db.Bench.Score.{
  TextSet, to_set, ratio, score_adversarial, score_counts, score_question, Accumulator,
  new_accumulator, accumulate, Buckets, bucket, fill_buckets, means, category_means,
  aggregate_by_category, sum_scores, aggregate_overall,
}
use hydra_db.Bench.Score.Sets.{
  distinct, shared, length-visit, intersection_size-shared, shared_all, distinct_same,
  distinct_nonempty, str_mem-mem, mem-str_mem,
}

module _ (fl : Floats) (fa : Arithmetic fl.Float) where
  -- The score of a question does not depend on the order in which the runtime visits its two sets,
  -- if it visits them properly: it is the score of a question without evidence when no evidence is
  -- given, and otherwise the one for the number of different identifiers retrieved, of different
  -- pieces of evidence, and of the former among the latter, in whatever order and how often they
  -- stand in the two lists.
  pub score_question_lem :
      (visit : TextSet → List (String × Unit {0})) (result : QueryResult)
      → let evidence = result.qa.evidence in
        let retrieved = result.retrieved_ids in
        Ranges (to_set evidence) (visit (to_set evidence))
        → Ranges (to_set retrieved) (visit (to_set retrieved))
        → score_question fl fa visit result ≡ (
            if length (distinct evidence) == 0
            then score_adversarial fl fa result.qa (length (distinct retrieved))
            else score_counts fl fa result.qa
                (length (distinct retrieved))
                (length (distinct evidence))
                (shared retrieved evidence))
  unfolding score_question
  score_question_lem visit result of_evidence of_retrieved =
      rw
        (
          length-visit result.qa.evidence of_evidence,
          length-visit result.retrieved_ids of_retrieved,
          intersection_size-shared result.retrieved_ids result.qa.evidence _ of_retrieved,
        )
        refl

  not_zero : {n : ℕ} → 0 < n → (n == 0) ≡ false
  not_zero h = ground arith

  -- Retrieved identifiers among which all the evidence stands.
  pub score_full :
      (visit : TextSet → List (String × Unit {0})) (r : QueryResult) (ids : List String)
      → Ranges (to_set r.qa.evidence) (visit (to_set r.qa.evidence))
      → Ranges (to_set r.retrieved_ids) (visit (to_set r.retrieved_ids))
      → r.qa.evidence ≢ []
      → ((k : String) → str_mem k r.retrieved_ids ≡ str_mem k ids)
      → ((k : String) → Memᴰ k r.qa.evidence → Memᴰ k ids)
      → let score = score_question fl fa visit r in
        let n = length (distinct r.qa.evidence) in
        (score.recall ≡ ratio fl fa n n)
        × (score.evidence ≡ n)
        × (score.retrieved ≡ length (distinct ids))
  unfolding score_counts
  score_full visit r ids of_evidence of_retrieved some_given same within =
      let given : (length (distinct r.qa.evidence) == 0) ≡ false =
        not_zero (distinct_nonempty r.qa.evidence some_given) in
      let all_shared : shared r.retrieved_ids r.qa.evidence ≡ length (distinct r.qa.evidence) =
        shared_all r.retrieved_ids r.qa.evidence
          (λ k asked. same k ∙ str_mem-mem (within k (mem-str_mem k r.qa.evidence asked))) in
      rw (score_question_lem visit r of_evidence of_retrieved, given, all_shared)
        (refl, refl, distinct_same r.retrieved_ids ids same)

  eq_ℤ→≡ : (a b : ℤ) → eq_ℤ a b ≡ true → a ≡ b
  eq_ℤ→≡ (pos m) (pos n) h = ground arith
  eq_ℤ→≡ (pos m) (negsuc n) h = ground arith
  eq_ℤ→≡ (negsuc m) (pos n) h = ground arith
  eq_ℤ→≡ (negsuc m) (negsuc n) h = ground arith

  -- The scores of a category.
  abbrev pub own : Category → List (QuestionScore fl.Float) → List (QuestionScore fl.Float)
  own c scores = filter (λ s. eq_ℤ s.category c) scores

  -- The mean of a category that has scores: that over all questions, for its own.
  abbrev pub own_mean :
      (itoa : ℤ → String) → Category → List (QuestionScore fl.Float) → List (CategoryScore fl.Float)
  own_mean itoa c [] = []
  own_mean itoa c (s ∷ scores) =
      record (aggregate_overall fl fa (s ∷ scores)) { category = category_string itoa c } ∷ []

  abbrev pub own_means :
      (itoa : ℤ → String)
      → List Category
      → List (QuestionScore fl.Float)
      → List (CategoryScore fl.Float)
  own_means itoa [] scores = []
  own_means itoa (c ∷ cs) scores = own_mean itoa c (own c scores) ++ own_means itoa cs scores

  gather : Option (Accumulator fl fa) → List (QuestionScore fl.Float) → Option (Accumulator fl fa)
  gather o [] = o
  gather o (s ∷ scores) = gather (some (accumulate fl fa (bucket fl fa o) s)) scores

  fill_buckets-gather :
      (scores : List (QuestionScore fl.Float)) (buckets : Buckets fl fa) (c : Category)
      → fill_buckets fl fa scores buckets c ≡ gather (buckets c) (own c scores)
  unfolding fill_buckets gather
  fill_buckets-gather [] buckets c = refl
  fill_buckets-gather (s ∷ scores) buckets c = elim (Bool-cases (eq_ℤ s.category c)) [
    | inl same ↦
        fill_buckets-gather scores _ c
        ∙ rw same (
            ap (λ d. gather (some (accumulate fl fa (bucket fl fa (buckets d)) s)) (own c scores))
              (eq_ℤ→≡ s.category c same))
    | inr other ↦ fill_buckets-gather scores _ c ∙ rw other refl
  ]

  gather-sum_scores :
      (scores : List (QuestionScore fl.Float)) (acc : Accumulator fl fa)
      → gather (some acc) scores ≡ some (sum_scores fl fa scores acc)
  unfolding gather sum_scores
  gather-sum_scores [] acc = refl
  gather-sum_scores (s ∷ scores) acc = gather-sum_scores scores (accumulate fl fa acc s)

  category_means_cons :
      (itoa : ℤ → String) (c : Category) (cs : List Category) (buckets : Buckets fl fa)
      (scores : List (QuestionScore fl.Float))
      → buckets c ≡ gather none scores
      → category_means fl fa itoa (c ∷ cs) buckets
        ≡ own_mean itoa c scores ++ category_means fl fa itoa cs buckets
  unfolding category_means gather aggregate_overall means sum_scores
  category_means_cons itoa c cs buckets [] h = rw (h, category_means) refl
  category_means_cons itoa c cs buckets (s ∷ scores) h =
      rw (h ∙ gather-sum_scores scores (accumulate fl fa (new_accumulator fl fa) s), category_means)
        refl

  category_means-own_means :
      (itoa : ℤ → String) (cs : List Category) (scores : List (QuestionScore fl.Float))
      → category_means fl fa itoa cs (fill_buckets fl fa scores (λ c. none))
        ≡ own_means itoa cs scores
  category_means-own_means itoa [] scores = unfold category_means in refl
  category_means-own_means itoa (c ∷ cs) scores =
      category_means_cons itoa c cs _ (own c scores) (fill_buckets-gather scores (λ d. none) c)
      ∙ ap (λ rest. own_mean itoa c (own c scores) ++ rest)
          (category_means-own_means itoa cs scores)

  -- The means by category are, in the order of the five categories and without those that have no
  -- question, the mean that `aggregate_overall` makes of the questions of that category alone.
  pub aggregate_by_category_lem :
      (itoa : ℤ → String) (scores : List (QuestionScore fl.Float))
      → aggregate_by_category fl fa itoa scores ≡ own_means itoa all_categories scores
  unfolding aggregate_by_category
  aggregate_by_category_lem itoa scores = category_means-own_means itoa all_categories scores
