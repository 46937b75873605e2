-- ===== src/Bench/Score.antt =====
-- bench/locomo/score.go. `visit` is the order in which the runtime visits a set of texts; a set has
-- as many elements as it has visits.
pub mod Sets
pub mod Laws
pub mod Counts
mod Examples
use hydra_db.Base.{
  ℕ, suc, ◌+◌, String, Bool, true, false, ◌&&◌, Option, none, some, List, [], ◌∷◌, ◌++◌, GoMap,
  empty, put, ℤ, eq_ℤ, if◌then◌else◌, ◌==◌, ltb, length, has_key,
}
use hydra_db.Memory.Types.{Floats}
use hydra_db.Bench.Types.{
  Category, category_string, all_categories, QaItem, QueryResult, QuestionScore, CategoryScore,
  Arithmetic,
}

abbrev pub TextSet : Type 0
TextSet = GoMap (Unit {0})

insert_all : List String → TextSet → TextSet
insert_all [] s = s
insert_all (item ∷ items) s = insert_all items (put item tt s)

unfoldable pub to_set : List String → TextSet
unfolding insert_all
to_set items = insert_all items empty

-- `order` is the visit of the first set.
pub intersection_size : (order : List (String × Unit {0})) (b : TextSet) → ℕ
intersection_size [] b = 0
intersection_size ((k, v) ∷ rest) b = (if has_key b k then 1 else 0) + intersection_size rest b

module _ (fl : Floats) (fa : Arithmetic fl.Float) where
  -- float64(a) / float64(b)
  abbrev pub ratio : ℕ → ℕ → fl.Float
  ratio a b = fa.div (fa.of_nat a) (fa.of_nat b)

  abbrev f1_of : (precision recall : fl.Float) → fl.Float
  f1_of precision recall =
      if fl.less fl.zero (fa.add precision recall)
      then fa.div (fa.mul (fa.mul fa.two precision) recall) (fa.add precision recall)
      else fl.zero

  -- The score of a question without evidence, for the number of identifiers retrieved.
  pub score_adversarial : QaItem → ℕ → QuestionScore fl.Float
  score_adversarial qa retrieved =
      let f1 = if retrieved == 0 then fl.one else fl.zero in
      record {
        question = qa.question;
        category = qa.category;
        precision = f1;
        recall = fl.one;
        f1 = f1;
        retrieved = retrieved;
        evidence = 0;
      }

  -- The score of a question, for the sizes of the two sets and of what they share.
  pub score_counts : QaItem → (retrieved evidence tp : ℕ) → QuestionScore fl.Float
  score_counts qa retrieved evidence tp =
      let precision = if ltb 0 retrieved then ratio tp retrieved else fl.zero in
      let recall = ratio tp evidence in
      record {
        question = qa.question;
        category = qa.category;
        precision = precision;
        recall = recall;
        f1 = f1_of precision recall;
        retrieved = retrieved;
        evidence = evidence;
      }

  module _ (visit : TextSet → List (String × Unit {0})) where
    pub score_question : QueryResult → QuestionScore fl.Float
    unfolding score_adversarial score_counts
    score_question result =
        let evidence = to_set result.qa.evidence in
        let retrieved = to_set result.retrieved_ids in
        if length (visit evidence) == 0
        then score_adversarial result.qa (length (visit retrieved))
        else score_counts result.qa (length (visit retrieved)) (length (visit evidence))
            (intersection_size (visit retrieved) evidence)

  pub record Accumulator : Type 0 where
    pub precision : fl.Float
    pub recall : fl.Float
    pub f1 : fl.Float
    pub count : ℕ

  abbrev pub new_accumulator : Accumulator
  new_accumulator = record { precision = fl.zero; recall = fl.zero; f1 = fl.zero; count = 0 }

  abbrev pub accumulate : Accumulator → QuestionScore fl.Float → Accumulator
  accumulate acc s = record {
    precision = fa.add acc.precision s.precision;
    recall = fa.add acc.recall s.recall;
    f1 = fa.add acc.f1 s.f1;
    count = acc.count + 1;
  }

  -- map[Category]*accumulator
  abbrev pub Buckets : Type 0
  Buckets = Category → Option Accumulator

  -- buckets[c], made new if it is missing.
  abbrev pub bucket : Option Accumulator → Accumulator
  bucket none = new_accumulator
  bucket (some acc) = acc

  pub fill_buckets : List (QuestionScore fl.Float) → Buckets → Buckets
  fill_buckets [] buckets = buckets
  fill_buckets (s ∷ scores) buckets = fill_buckets scores (λ c.
      if eq_ℤ s.category c then some (accumulate (bucket (buckets s.category)) s) else buckets c)

  -- The means of what was accumulated, under a name.
  pub means : String → Accumulator → CategoryScore fl.Float
  means name acc = record {
    category = name;
    count = acc.count;
    precision = fa.div acc.precision (fa.of_nat acc.count);
    recall = fa.div acc.recall (fa.of_nat acc.count);
    f1 = fa.div acc.f1 (fa.of_nat acc.count);
  }

  module _ (itoa : ℤ → String) where
    -- The loop over the categories.
    pub category_means : List Category → Buckets → List (CategoryScore fl.Float)
    unfolding means
    category_means [] buckets = []
    category_means (c ∷ cs) buckets =
        let rest = category_means cs buckets in
        elim (buckets c) [ none ↦ rest | some acc ↦ means (category_string itoa c) acc ∷ rest ]

    pub aggregate_by_category : List (QuestionScore fl.Float) → List (CategoryScore fl.Float)
    unfolding fill_buckets category_means
    aggregate_by_category scores = category_means all_categories (fill_buckets scores (λ c. none))

  -- The sums over all questions; the number of rounds is the length of the list.
  pub sum_scores : List (QuestionScore fl.Float) → Accumulator → Accumulator
  sum_scores [] acc = acc
  sum_scores (s ∷ scores) acc = sum_scores scores (accumulate acc s)

  pub aggregate_overall : List (QuestionScore fl.Float) → CategoryScore fl.Float
  unfolding sum_scores means
  aggregate_overall [] = record {
    category = "OVERALL";
    count = 0;
    precision = fl.zero;
    recall = fl.zero;
    f1 = fl.zero;
  }
  aggregate_overall (s ∷ scores) = means "OVERALL" (sum_scores (s ∷ scores) new_accumulator)
