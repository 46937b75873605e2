-- ===== src/Bench/Smart/Examples.antt =====
-- bench/locomo/strategy_llm.go: the theorems at concrete inputs.
use hydra_db.Base.{
  ℕ, ◌+◌, ◌≤◌, ◌≡◌, refl, Ranges, put-Ranges, empty-Ranges, List, [], ◌∷◌, ok, pos, arith, put,
  empty,
}
use hydra_db.Llm.{complete}
use hydra_db.Memory.Types.{new_memory}
use hydra_db.Memory.InMemory.{Mem, write, provider}
use hydra_db.Memory.Plane.{store}
use hydra_db.Memory.InsertionSort.{sorter}
use hydra_db.Bench.Types.{Turn, QueryResult}
use hydra_db.Bench.Ingest.{Ingested, load_turn, keep, count_stored, parse_date_time}
use hydra_db.Bench.Ingest.Stored.{Kept}
use hydra_db.Bench.Fixtures.{
  whole, whole_arithmetic, uuid, stamps, fresh, lib, marshals, first, second, sample, visit,
}
use hydra_db.Bench.Smart.{
  basic_classification, TurnClassification, query, classify_batch, classification_of, class_map,
  clean_json,
}
use hydra_db.Bench.Smart.Ingest.{ingest, class_record, load_batch, load_batches, load_sessions}
use hydra_db.Bench.Smart.Stored.{ShowsClass, smart_ingest_lem}
use hydra_db.Bench.Smart.Answers.{Answered, smart_query_lem}
use hydra_db.Bench.Smart.Fallbacks.{missed}
use hydra_db.Bench.Smart.Fixtures.{ordered, odd, texts, wire, http, before}

smart_ingest_lem_example :
    Kept whole
      (ShowsClass whole lib "s")
      stamps
      "s"
      (second ∷ first ∷ [])
      (ingest whole whole_arithmetic lib texts wire http sorter visit stamps sample before).1
smart_ingest_lem_example =
    smart_ingest_lem whole whole_arithmetic lib texts wire http sorter visit stamps sample ordered
      fresh marshals before

abbrev record_of : Turn → ℕ → TurnClassification ℕ → Mem whole
record_of turn n cls =
    class_record whole lib stamps texts "s" (record { index = pos 1; date_time = "?"; turns = [] })
      9 n n turn cls "{}"

abbrev loaded : Ingested whole
loaded = record {
  sample_id = "s";
  records =
      put "uu" (record_of second 1 (basic_classification whole_arithmetic second))
        (put "u" (record_of first 0 odd) empty);
  mem_to_dia_id = put "uu" "d2" (put "u" "d1" empty);
  turn_count = 2;
}

is_loaded :
    (ingest whole whole_arithmetic lib texts wire http sorter visit stamps sample before).1
    ≡ ok loaded
unfolding ingest load_sessions load_batches load_batch load_turn keep count_stored parse_date_time
    store provider write class_record new_memory uuid classification_of class_map classify_batch
    complete clean_json
is_loaded = refl

loaded-Ranges : Ranges loaded.records (visit loaded.records)
unfolding class_record new_memory uuid
loaded-Ranges =
    put-Ranges "uu" (record_of second 1 (basic_classification whole_arithmetic second))
      (put-Ranges "u" (record_of first 0 odd) empty-Ranges tt) (refl, tt)

smart_query_lem_example :
    let out =
      query whole whole_arithmetic lib texts wire http sorter visit loaded sample.qa before in
    ((results : List QueryResult) × (out.1 ≡ ok results)
      × Answered (first ∷ second ∷ []) sample.qa results)
    × (out.0.plan_fallbacks
        ≡ pos (0 + missed whole whole_arithmetic lib texts wire http sorter visit sample.qa before))
    × (missed whole whole_arithmetic lib texts wire http sorter visit sample.qa before ≤ 1)
smart_query_lem_example =
    smart_query_lem whole whole_arithmetic lib texts wire http sorter visit stamps sample ordered
      fresh marshals before before loaded 0 is_loaded loaded-Ranges refl (omega arith)
