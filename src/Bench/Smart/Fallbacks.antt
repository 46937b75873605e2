-- ===== src/Bench/Smart/Fallbacks.antt =====
-- bench/locomo/strategy_llm.go: the questions for which the LLM makes no plan.
use hydra_db.Base.{
  ℕ, ◌+◌, ◌^◌, ◌≤◌, ◌<◌, String, ◌≡◌, refl, ap, ◌∙◌, Option, none, some, List, [], ◌∷◌, Outcome, ok,
  err, pos, length, arith, Client, add_int, int64_of_IsInt64, ◌+ℤ◌,
}
use hydra_db.Memory.Types.{Floats}
use hydra_db.Memory.Sorting.{Sorter}
use hydra_db.Memory.InMemory.{Mem, State, provider}
use hydra_db.Memory.Plane.{search as plane_search}
use hydra_db.Llm.{LlmWire, LlmError, CompleteResponse}
use hydra_db.Bench.Types.{QaItem, Library, Arithmetic}
use hydra_db.Bench.Ingest.{Ingested}
use hydra_db.Bench.Smart.{
  Texts, LlmStrategy, SmartSearchQuery, plan_query, planned, query_one, query, proceed, ask, heard,
}

module _ (fl : Floats) (fa : Arithmetic fl.Float) (lib : Library) (texts : Texts fl.Float)
    {S : Type 0} (wire : LlmWire fl.Float) (http : Client S) (sorter : Sorter (Mem fl))
    (visit : State fl → List (String × Mem fl)) where
  -- The plan for a question, with the strategy that made it.
  abbrev pub plan_of : QaItem → LlmStrategy S → LlmStrategy S × SmartSearchQuery fl.Float
  plan_of q s = planned fl fa lib texts wire http (plan_query fl fa lib texts wire http q s)

  abbrev without_plan : Option (SmartSearchQuery fl.Float) → ℕ
  without_plan none = 1
  without_plan (some plan) = 0

  -- How many of the questions get no plan from the LLM.
  abbrev pub missed : List QaItem → LlmStrategy S → ℕ
  missed [] s = 0
  missed (q ∷ qs) s =
      without_plan (plan_query fl fa lib texts wire http q s).1 + missed qs (plan_of q s).0

  without_plan_le : (o : Option (SmartSearchQuery fl.Float)) → without_plan o ≤ 1
  without_plan_le none = omega arith
  without_plan_le (some p) = omega arith

  pub missed_le : (qa : List QaItem) (s : LlmStrategy S) → missed qa s ≤ length qa
  missed_le [] s = omega arith
  missed_le (q ∷ qs) s = omega (
    arith,
    without_plan_le (plan_query fl fa lib texts wire http q s).1,
    missed_le qs (plan_of q s).0,
  )

  heard_keeps :
      {A : Type 0} (parse : String → Option A) (s : LlmStrategy S)
      (answer : Outcome LlmError CompleteResponse)
      → (heard fl fa lib texts wire http parse s answer).0.plan_fallbacks ≡ s.plan_fallbacks
  unfolding heard
  heard_keeps parse s (err e) = refl
  heard_keeps parse s (ok resp) = refl

  plan_query_keeps :
      (q : QaItem) (s : LlmStrategy S)
      → (plan_query fl fa lib texts wire http q s).0.plan_fallbacks ≡ s.plan_fallbacks
  unfolding plan_query ask
  plan_query_keeps q s = heard_keeps texts.smart_query _ _

  planned_count :
      (p : LlmStrategy S × Option (SmartSearchQuery fl.Float)) (f : ℕ)
      → p.0.plan_fallbacks ≡ pos f
      → f + 1 < 2 ^ 63
      → (planned fl fa lib texts wire http p).0.plan_fallbacks ≡ pos (f + without_plan p.1)
  planned_count (s, some plan) f e small = ground arith
  planned_count (s, none) f e small =
      ap (λ z. add_int z (pos 1)) e
      ∙ int64_of_IsInt64 (pos f +ℤ pos 1) (ground arith)
      ∙ (ground arith)

  proceed_state :
      {A B E : Type 0} (s : LlmStrategy S) (r : Outcome E A) (f : A → B)
      → (proceed s r (λ a. (s, ok (f a)))).0 ≡ s
  proceed_state s (err e) f = refl
  proceed_state s (ok a) f = refl

  -- After the questions, the fallbacks are those before and one for each question without a plan.
  pub query-fallbacks :
      (l : Ingested fl) (qa : List QaItem) (s : LlmStrategy S) (f : ℕ)
      → s.plan_fallbacks ≡ pos f
      → f + length qa < 2 ^ 63
      → (query fl fa lib texts wire http sorter visit l qa s).0.plan_fallbacks
        ≡ pos (f + missed qa s)
  unfolding query query_one plane_search provider
  query-fallbacks l [] s f e small = ground arith
  query-fallbacks l (q ∷ qs) s f e small =
      let w : ℕ = without_plan (plan_query fl fa lib texts wire http q s).1 in
      let next : (plan_of q s).0.plan_fallbacks ≡ pos (f + w) =
        planned_count (plan_query fl fa lib texts wire http q s) f (plan_query_keeps q s ∙ e)
          (omega arith) in
      let le : w ≤ 1 = without_plan_le (plan_query fl fa lib texts wire http q s).1 in
      ap (λ (z : LlmStrategy S). z.plan_fallbacks) (proceed_state _ _ _)
      ∙ query-fallbacks l qs (plan_of q s).0 (f + w) next (omega arith)
      ∙ ap pos (omega arith)
