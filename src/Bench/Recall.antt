-- ===== src/Bench/Recall.antt =====
-- bench/locomo: ingestion, queries and scores of the basic strategy together.
use mathlib.Core.List.Memᴰ
use hydra_db.Base.{
  ok_inj, suc, ◌+◌, ◌≤◌, String, ◌≡◌, ◌≢◌, ◌↔◌, refl, sym, ap, ◌∙◌, inl, inr, subst, false, List,
  [], ◌∷◌, ok, map, Memᴰ, Ranges, length, length-Ranges, arith,
}
use hydra_db.Memory.Types.{Floats}
use hydra_db.Memory.Sorting.{Sorter}
use hydra_db.Memory.InMemory.{Mem, State, provider, search}
use hydra_db.Memory.InMemory.Query.{search_all, search_sound}
use hydra_db.Memory.InMemory.Matches.{Meets}
use hydra_db.Memory.Plane.{search as plane_search}
use hydra_db.Bench.Types.{Turn, Sample, QaItem, QueryResult, Library, Stamps, Arithmetic}
use hydra_db.Bench.Ingest.{Ingested, ingest}
use hydra_db.Bench.Ingest.Stored.{all_turns_of, onto, IsFresh, Holds, Pairs}
use hydra_db.Bench.Ingest.Turns.{Marshals, Shows, ingest_lem}
use hydra_db.Bench.Query.{all_turns, extract_dia_ids, execute_queries}
use hydra_db.Bench.Query.Retrieved.{IsDiaId, IsDiaId-onto, retrieved_sound, retrieved_complete}
use hydra_db.Bench.Score.{TextSet, to_set, ratio, score_question}
use hydra_db.Bench.Score.Sets.{distinct, str_mem_iff}
use hydra_db.Bench.Score.Laws.{score_full}

module _ (fl : Floats) (sorter : Sorter (Mem fl)) (visit : State fl → List (String × Mem fl))
    (lib : Library) (stamps : Stamps) where
  length-Pairs :
      (P : Turn → Mem fl → Type 0) (turns : List Turn) (order : List (String × Mem fl))
      → Pairs fl P turns order
      → length order ≡ length turns
  length-Pairs P [] [] h = refl
  length-Pairs P [] (e ∷ es) h = elim h [ ]
  length-Pairs P (t ∷ ts) [] h = elim h [ ]
  length-Pairs P (t ∷ ts) (e ∷ es) h = ap suc (length-Pairs P ts es h.1)

  -- The identifiers that `execute_queries` hands to every question.
  abbrev retrieved : Ingested fl → List String
  retrieved l =
      extract_dia_ids fl lib (search fl sorter (all_turns fl l.sample_id) (visit l.records))
        l.mem_to_dia_id

  execute_queries-retrieved :
      (l : Ingested fl) (qa : List QaItem)
      → execute_queries fl lib sorter visit l qa
        ≡ ok (map (λ (q : QaItem). record { qa = q; retrieved_ids = retrieved l }) qa)
  unfolding execute_queries plane_search provider
  execute_queries-retrieved l qa = refl

  module _ (l : Ingested fl) (sample_id : String) (turns : List Turn)
      (order : List (String × Mem fl)) (same : l.sample_id ≡ sample_id)
      (holds : Holds fl (Shows fl sorter visit lib stamps sample_id) stamps l turns order)
      (ranges : Ranges l.records (visit l.records)) where
    abbrev P : Turn → Mem fl → Type 0
    P = Shows fl sorter visit lib stamps sample_id

    shown-Meets :
        (t : Turn) (m : Mem fl)
        → fl.less fl.zero fl.zero ≡ false
        → P t m
        → Meets fl (all_turns fl l.sample_id) m
    shown-Meets t m flat shows = record {
      type = inr shows.0;
      tags = λ t asked. elim asked [ ];
      actor = inl refl;
      tenant = inr (shows.1 ∙ sym same);
      recent = omega arith;
      confident = inl flat;
    }

    retrieved_iff :
        length turns ≤ 10000
        → fl.less fl.zero fl.zero ≡ false
        → (id : String) → Memᴰ id (retrieved l) ↔ IsDiaId turns id
    retrieved_iff few flat id = (
      retrieved_sound fl lib P stamps l turns order holds (λ t m shows. shows.3) _
          (λ m found.
            let (k, stored, meets) =
              search_sound fl sorter (all_turns fl l.sample_id) l.records (visit l.records) ranges m
                found in
            (k, stored))
          id,
      retrieved_complete fl lib P stamps l turns order holds (λ t m shows. shows.3) _
          (λ k m t stored shows.
            search_all fl sorter (all_turns fl l.sample_id) l.records (visit l.records) ranges k m
              (omega (
                arith,
                few,
                length-Ranges (visit l.records) order ranges holds.ranges,
                length-Pairs P turns order holds.pairs,
              ))
              stored (shown-Meets t m flat shows))
          id,
    )

  length-onto : (xs done : List Turn) → length (onto xs done) ≡ length xs + length done
  length-onto [] done = omega arith
  length-onto (x ∷ xs) done = omega (arith, length-onto xs (x ∷ done))

  module _ (fresh : IsFresh stamps) (marshals : Marshals lib)
      (flat : fl.less fl.zero fl.zero ≡ false) (sample : Sample)
      (few : length (all_turns_of sample.sessions) ≤ 10000) where
    -- What is retrieved from the sample that an ingestion makes.
    ingested_iff :
        (l : Ingested fl) (id : String)
        → ingest fl sorter visit lib stamps sample ≡ ok l
        → Ranges l.records (visit l.records)
        → Memᴰ id (retrieved l) ↔ IsDiaId (all_turns_of sample.sessions) id
    ingested_iff l id made ranges =
        let (l', order, made', same, holds) =
          ingest_lem fl sorter visit lib stamps fresh marshals sample in
        let at : l ≡ l' = ok_inj (sym made ∙ made') in
        let found : Memᴰ id (retrieved l') ↔ IsDiaId (onto (all_turns_of sample.sessions) []) id =
          retrieved_iff l' sample.sample_id (onto (all_turns_of sample.sessions) []) order same
            holds (subst (λ x. Ranges x.records (visit x.records)) at ranges)
            (omega (arith, few, length-onto (all_turns_of sample.sessions) [])) flat id in
        let (to, from) = IsDiaId-onto (all_turns_of sample.sessions) id in
        (
          λ m. to (found.0 (subst (λ x. Memᴰ id (retrieved x)) at m)),
          λ d. subst (λ x. Memᴰ id (retrieved x)) (sym at) (found.1 (from d)),
        )

    -- The basic strategy retrieves the whole conversation for every question. For a sample of at
    -- most 10,000 turns, generated identifiers that differ, contents that can be encoded, a zero
    -- that is not less than itself, and a runtime that visits the map of the stored records
    -- properly: ingestion and queries return no error, every question gets one result, in order, and
    -- all get the same identifiers, which are exactly those of the turns.
    pub basic_lem :
        (qa : List QaItem)
        → ((l : Ingested fl)
            → ingest fl sorter visit lib stamps sample ≡ ok l
            → Ranges l.records (visit l.records))
        → (l : Ingested fl) × (ids : List String) × (ingest fl sorter visit lib stamps sample
            ≡ ok l)
          × (execute_queries fl lib sorter visit l qa
              ≡ ok (map (λ (q : QaItem). record { qa = q; retrieved_ids = ids }) qa))
          × ((id : String) → Memᴰ id ids ↔ IsDiaId (all_turns_of sample.sessions) id)
    basic_lem qa visits =
        let (l, order, made, same, holds) =
          ingest_lem fl sorter visit lib stamps fresh marshals sample in
        (
          l,
          retrieved l,
          made,
          execute_queries-retrieved l qa,
          λ id. ingested_iff l id made (visits l made),
        )

    module _ (fa : Arithmetic fl.Float) (visit_set : TextSet → List (String × Unit {0})) where
      abbrev dia_ids : List String
      dia_ids = map (λ (t : Turn). t.dia_id) (all_turns_of sample.sessions)

      dia_ids_iff : (id : String) → IsDiaId (all_turns_of sample.sessions) id ↔ Memᴰ id dia_ids
      dia_ids_iff id = (
        λ d. let (t, turn, same) = d in subst (λ k. Memᴰ k dia_ids) same (Memᴰ.map _ turn),
        λ m. Memᴰ.of_map (λ (t : Turn). t.dia_id) (all_turns_of sample.sessions) m,
      )

      -- The basic strategy scores a full recall. For a sample of at most 10,000 turns that was
      -- ingested, with generated identifiers that differ, contents that can be encoded, a zero that
      -- is not less than itself, and proper visits of the map of records and of the two sets: a
      -- question whose evidence is not empty and names turns of the sample only is scored with the
      -- recall n / n, for the n different pieces of its evidence, and with as many retrieved as
      -- there are different identifiers of turns.
      pub basic_recall :
          (qa : List QaItem) (l : Ingested fl) (results : List QueryResult) (r : QueryResult)
          → ingest fl sorter visit lib stamps sample ≡ ok l
          → Ranges l.records (visit l.records)
          → execute_queries fl lib sorter visit l qa ≡ ok results
          → Memᴰ r results
          → Ranges (to_set r.qa.evidence) (visit_set (to_set r.qa.evidence))
          → Ranges (to_set r.retrieved_ids) (visit_set (to_set r.retrieved_ids))
          → r.qa.evidence ≢ []
          → ((k : String) → Memᴰ k r.qa.evidence → Memᴰ k dia_ids)
          → let score = score_question fl fa visit_set r in
            let n = length (distinct r.qa.evidence) in
            (score.recall ≡ ratio fl fa n n)
            × (score.evidence ≡ n)
            × (score.retrieved ≡ length (distinct dia_ids))
      basic_recall qa l results r made ranges asked listed of_evidence of_retrieved some_given
            within =
          let at : map _ qa ≡ results = ok_inj (sym (execute_queries-retrieved l qa) ∙ asked) in
          let (q, one, same) = Memᴰ.of_map _ qa (subst (λ rs. Memᴰ r rs) (sym at) listed) in
          let got : retrieved l ≡ r.retrieved_ids =
            ap (λ (x : QueryResult). x.retrieved_ids) same in
          score_full fl fa visit_set r dia_ids of_evidence of_retrieved some_given
            (λ k. str_mem_iff k r.retrieved_ids dia_ids (
              λ m.
                  (dia_ids_iff k).0
                    ((ingested_iff l k made ranges).0 (subst (λ ids. Memᴰ k ids) (sym got) m)),
              λ m.
                  subst (λ ids. Memᴰ k ids) got
                    ((ingested_iff l k made ranges).1 ((dia_ids_iff k).1 m)),
            ))
            within
