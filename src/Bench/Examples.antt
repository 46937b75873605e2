-- ===== src/Bench/Examples.antt =====
-- bench/locomo and cmd/bench-locomo: the theorems at concrete inputs.
use hydra_db.Base.{
  ℕ, String, ◌≡◌, ◌↔◌, refl, sym, ◌∙◌, subst, List, [], ◌∷◌, ok, ok_inj, empty, put, Ranges,
  put-Ranges, empty-Ranges, Memᴰ, pos, arith, int64,
}
use hydra_db.Memory.InsertionSort.{sorter, insert, insertion_sort}
use hydra_db.Memory.InMemory.{Mem}
use hydra_db.Bench.Types.{Turn, QueryResult}
use hydra_db.Bench.Ingest.{Ingested, ingest}
use hydra_db.Bench.Ingest.{
  load_sessions, load_turns, load_turn, turn_record, keep, count_stored, parse_date_time,
}
use hydra_db.Bench.Query.{execute_queries, extract_dia_ids, dia_id_of}
use hydra_db.Bench.Query.Retrieved.{IsDiaId}
use hydra_db.Bench.Score.{to_set, score_question, ratio}
use hydra_db.Bench.Recall.{basic_lem, basic_recall}
use hydra_db.Memory.Types.{new_memory}
use hydra_db.Memory.InMemory.{write, provider, search, matches_query, contains_all_tags}
use hydra_db.Memory.Plane.{store}
use hydra_db.Memory.Plane.{search as plane_search}
use hydra_db.Bench.Fixtures.{
  whole, whole_arithmetic, uuid, stamps, fresh, lib, marshals, first, second, asked, sample, visit,
  visit_set,
}

abbrev record_of : Turn → ℕ → Mem whole
record_of turn n =
    turn_record whole lib stamps "s" (record { index = pos 1; date_time = "?"; turns = [] }) 9 n n
      turn "{}"

abbrev loaded : Ingested whole
loaded = record {
  sample_id = "s";
  records = put "uu" (record_of second 1) (put "u" (record_of first 0) empty);
  mem_to_dia_id = put "uu" "d2" (put "u" "d1" empty);
  turn_count = 2;
}

is_loaded : ingest whole sorter visit lib stamps sample ≡ ok loaded
unfolding ingest load_sessions load_turns load_turn keep count_stored parse_date_time store provider
    write turn_record new_memory uuid
is_loaded = refl

loaded-Ranges : Ranges loaded.records (visit loaded.records)
unfolding turn_record new_memory uuid
loaded-Ranges =
    put-Ranges "uu" (record_of second 1) (put-Ranges "u" (record_of first 0) empty-Ranges tt)
      (refl, tt)

visits :
    (l : Ingested whole)
    → ingest whole sorter visit lib stamps sample ≡ ok l
    → Ranges l.records (visit l.records)
visits l made =
    subst (λ x. Ranges x.records (visit x.records)) (ok_inj (sym is_loaded ∙ made)) loaded-Ranges

basic_lem_example :
    (l : Ingested whole) × (ids : List String) × (ingest whole sorter visit lib stamps sample
      ≡ ok l)
    × (execute_queries whole lib sorter visit l (asked ∷ [])
        ≡ ok (record { qa = asked; retrieved_ids = ids } ∷ []))
    × ((id : String) → Memᴰ id ids ↔ IsDiaId (first ∷ second ∷ []) id)
basic_lem_example =
    basic_lem whole sorter visit lib stamps fresh marshals refl sample (omega arith) (asked ∷ [])
      visits

abbrev answer : QueryResult
answer = record { qa = asked; retrieved_ids = "d2" ∷ "d1" ∷ [] }

is_answer : execute_queries whole lib sorter visit loaded (asked ∷ []) ≡ ok (answer ∷ [])
unfolding execute_queries plane_search provider search matches_query contains_all_tags
    insertion_sort insert turn_record new_memory uuid extract_dia_ids dia_id_of int64
is_answer = refl

evidence-Ranges : Ranges (to_set ("d2" ∷ [])) (visit_set (to_set ("d2" ∷ [])))
unfolding to_set
evidence-Ranges = put-Ranges "d2" tt empty-Ranges tt

retrieved-Ranges : Ranges (to_set ("d2" ∷ "d1" ∷ [])) (visit_set (to_set ("d2" ∷ "d1" ∷ [])))
unfolding to_set
retrieved-Ranges = put-Ranges "d1" tt (put-Ranges "d2" tt empty-Ranges tt) (refl, tt)

basic_recall_example :
    let score = score_question whole whole_arithmetic visit_set answer in
    (score.recall ≡ ratio whole whole_arithmetic 1 1) × (score.evidence ≡ 1) × (score.retrieved ≡ 2)
basic_recall_example =
    basic_recall whole sorter visit lib stamps fresh marshals refl sample (omega arith)
      whole_arithmetic visit_set (asked ∷ []) loaded (answer ∷ []) answer is_loaded loaded-Ranges
      is_answer (Memᴰ.head refl) evidence-Ranges retrieved-Ranges (λ e. cc e) evidence_within
  where
    evidence_within : (k : String) → Memᴰ k ("d2" ∷ []) → Memᴰ k ("d1" ∷ "d2" ∷ [])
    evidence_within k m = Memᴰ.tail m
