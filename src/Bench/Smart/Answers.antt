-- ===== src/Bench/Smart/Answers.antt =====
-- bench/locomo/strategy_llm.go: the answers to the questions, whatever the LLM plans.
use hydra_db.Base.{
  ℕ, suc, ◌+◌, ◌^◌, ◌≤◌, ◌<◌, String, ◌≡◌, refl, sym, ap, ◌∙◌, some, List, [], ◌∷◌, Outcome, ok,
  pos, Memᴰ, Ranges, length, Client, subst, ok_inj,
}
use hydra_db.Memory.Types.{Floats}
use hydra_db.Memory.Sorting.{Sorter}
use hydra_db.Memory.InMemory.{Mem, State, provider, search}
use hydra_db.Memory.InMemory.Query.{search_sound}
use hydra_db.Memory.Plane.{search as plane_search}
use hydra_db.Llm.{LlmWire}
use hydra_db.Bench.Types.{Turn, Sample, QaItem, QueryResult, Library, Stamps, Arithmetic}
use hydra_db.Bench.Ingest.{Ingested}
use hydra_db.Bench.Ingest.Stored.{all_turns_of, onto, IsFresh, Holds}
use hydra_db.Bench.Ingest.Turns.{Marshals}
use hydra_db.Bench.Query.{extract_dia_ids}
use hydra_db.Bench.Query.Retrieved.{IsDiaId, IsDiaId-onto, retrieved_sound}
use hydra_db.Bench.Smart.{
  Texts, LlmStrategy, SmartSearchQuery, search_query, query_one, query, proceed,
}
use hydra_db.Bench.Smart.Ingest.{ingest}
use hydra_db.Bench.Smart.Stored.{IsOrdered, ShowsClass, smart_ingest_lem}
use hydra_db.Bench.Smart.Fallbacks.{plan_of, missed, missed_le, query-fallbacks}

-- One result for each question, in order, each with identifiers of turns only.
abbrev pub Answered : List Turn → List QaItem → List QueryResult → Type 0
Answered turns [] [] = Unit
Answered turns [] (r ∷ rs) = ⊥
Answered turns (q ∷ qs) [] = ⊥
Answered turns (q ∷ qs) (r ∷ rs) =
    (r.qa ≡ q) × ((id : String) → Memᴰ id r.retrieved_ids → IsDiaId turns id) × Answered turns qs rs

module _ (fl : Floats) (fa : Arithmetic fl.Float) (lib : Library) (texts : Texts fl.Float)
    {S : Type 0} (wire : LlmWire fl.Float) (http : Client S) (sorter : Sorter (Mem fl))
    (visit : State fl → List (String × Mem fl)) where
  -- What the search for a plan yields.
  abbrev ids_for : Ingested fl → SmartSearchQuery fl.Float → List String
  ids_for l plan =
      extract_dia_ids fl lib
        (search fl sorter (search_query fl fa lib texts wire http l.sample_id plan)
          (visit l.records))
        l.mem_to_dia_id

  proceed_value :
      {A B E : Type 0} (s : LlmStrategy S) {r : Outcome E A} {a : A} (f : A → B)
      → r ≡ ok a
      → (proceed s r (λ x. (s, ok (f x)))).1 ≡ ok (f a)
  proceed_value s f e = rw e refl

  pub query-length :
      (l : Ingested fl) (qa : List QaItem) (s : LlmStrategy S)
      → (results : List QueryResult) × ((query fl fa lib texts wire http sorter visit l qa s).1
          ≡ ok results)
        × (length results ≡ length qa)
  unfolding query query_one plane_search provider
  query-length l [] s = ([], refl, refl)
  query-length l (q ∷ qs) s =
      let (results, e, n) =
        query-length l qs (plan_of fl fa lib texts wire http sorter visit q s).0 in
      (
        record {
          qa = q;
          retrieved_ids = ids_for l (plan_of fl fa lib texts wire http sorter visit q s).1;
        }
            ∷ results,
        proceed_value
            (query fl fa lib texts wire http sorter visit l qs
              (plan_of fl fa lib texts wire http sorter visit q s).0).0
            (λ rs.
              record {
                qa = q;
                retrieved_ids = ids_for l (plan_of fl fa lib texts wire http sorter visit q s).1;
              }
              ∷ rs)
            e,
        ap suc n,
      )

  module _ (P : Turn → Mem fl → Type 0) (stamps : Stamps) (l : Ingested fl) (turns : List Turn)
      (order : List (String × Mem fl)) (holds : Holds fl P stamps l turns order)
      (has_dia_id : (t : Turn) (m : Mem fl) → P t m → m.metadata "dia_id" ≡ some t.dia_id)
      (ranges : Ranges l.records (visit l.records)) where
    ids_for_sound :
        (plan : SmartSearchQuery fl.Float) (id : String)
        → Memᴰ id (ids_for l plan)
        → IsDiaId turns id
    ids_for_sound plan id m =
        retrieved_sound fl lib P stamps l turns order holds has_dia_id _
          (λ m found.
            let (k, stored, meets) =
              search_sound fl sorter (search_query fl fa lib texts wire http l.sample_id plan)
                l.records (visit l.records) ranges m found in
            (k, stored))
          id m

    query-Answered :
        (qa : List QaItem) (s : LlmStrategy S)
        → (results : List QueryResult) × ((query fl fa lib texts wire http sorter visit l qa s).1
            ≡ ok results)
          × Answered turns qa results
    unfolding query query_one plane_search provider
    query-Answered [] s = ([], refl, tt)
    query-Answered (q ∷ qs) s =
        let (results, e, answered) =
          query-Answered qs (plan_of fl fa lib texts wire http sorter visit q s).0 in
        (
          record {
            qa = q;
            retrieved_ids = ids_for l (plan_of fl fa lib texts wire http sorter visit q s).1;
          }
              ∷ results,
          proceed_value
              (query fl fa lib texts wire http sorter visit l qs
                (plan_of fl fa lib texts wire http sorter visit q s).0).0
              (λ rs.
                record {
                  qa = q;
                  retrieved_ids = ids_for l (plan_of fl fa lib texts wire http sorter visit q s).1;
                }
                ∷ rs)
              e,
          (refl, ids_for_sound (plan_of fl fa lib texts wire http sorter visit q s).1, answered),
        )

  Answered-onto :
      (turns : List Turn) (qa : List QaItem) (results : List QueryResult)
      → Answered (onto turns []) qa results
      → Answered turns qa results
  Answered-onto turns [] [] h = tt
  Answered-onto turns [] (r ∷ rs) h = h
  Answered-onto turns (q ∷ qs) [] h = h
  Answered-onto turns (q ∷ qs) (r ∷ rs) (same, within, rest) =
      (same, λ id m. (IsDiaId-onto turns id).0 (within id m), Answered-onto turns qs rs rest)

  module _ (stamps : Stamps) (sample : Sample) where
    -- A question of the LLM strategy always gets a result. For a sample that the strategy has
    -- ingested (with generated identifiers that differ, contents that can be encoded, and 0 and 1
    -- ordered as expected) and whose records the runtime visits properly: its questions return no
    -- error but one result each, in order, whose identifiers are those of turns of the sample,
    -- whatever the LLM answers; and the count of fallbacks, from a natural number and as long as it
    -- stays below 2 ^ 63, grows by the number of questions that got no plan, which is at most that
    -- of the questions.
    pub smart_query_lem :
        (ordered : IsOrdered fl) (fresh : IsFresh stamps) (marshals : Marshals lib)
        (before after : LlmStrategy S) (l : Ingested fl) (f : ℕ)
        → (ingest fl fa lib texts wire http sorter visit stamps sample before).1 ≡ ok l
        → Ranges l.records (visit l.records)
        → after.plan_fallbacks ≡ pos f
        → f + length sample.qa < 2 ^ 63
        → let out = query fl fa lib texts wire http sorter visit l sample.qa after in
          ((results : List QueryResult) × (out.1 ≡ ok results)
            × Answered (all_turns_of sample.sessions) sample.qa results)
          × (out.0.plan_fallbacks
              ≡ pos (f + missed fl fa lib texts wire http sorter visit sample.qa after))
          × (missed fl fa lib texts wire http sorter visit sample.qa after ≤ length sample.qa)
    smart_query_lem ordered fresh marshals before after l f made ranges count small = (
      (let (l', order, made', same, holds) =
            smart_ingest_lem fl fa lib texts wire http sorter visit stamps sample ordered fresh
              marshals before in
          let at : l' ≡ l = ok_inj (sym made' ∙ made) in
          let (results, e, answered) =
            query-Answered (ShowsClass fl lib sample.sample_id) stamps l
              (onto (all_turns_of sample.sessions) []) order
              (subst
                (λ x.
                  Holds fl (ShowsClass fl lib sample.sample_id) stamps x
                    (onto (all_turns_of sample.sessions) []) order)
                at holds)
              (λ t m shows. shows.2) ranges sample.qa after in
          (results, e, Answered-onto (all_turns_of sample.sessions) sample.qa results answered)),
      query-fallbacks fl fa lib texts wire http sorter visit l sample.qa after f count small,
      missed_le fl fa lib texts wire http sorter visit sample.qa after,
    )
