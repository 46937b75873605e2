-- ===== src/Bench/Query.antt =====
-- bench/locomo/query.go: what a search retrieves, as identifiers of the dialogue.
pub mod Retrieved
use hydra_db.Base.{
  String, Option, none, some, List, [], ◌∷◌, Outcome, ok, err, ◌>>=◌, GoMap, pos, zero_time,
  if◌then◌else◌, str_eq, map,
}
use hydra_db.Memory.Types.{Floats, SearchQuery, MemoryError, Provider, episodic}
use hydra_db.Memory.Sorting.{Sorter}
use hydra_db.Memory.InMemory.{Mem, State, provider}
use hydra_db.Memory.Plane.{search}
use hydra_db.Bench.Types.{QaItem, QueryResult, Library}
use hydra_db.Bench.Ingest.{Ingested}

-- if ok && id != ""
abbrev non_empty : Option String → Option String
non_empty none = none
non_empty (some id) = if str_eq id "" then none else some id

abbrev or_else : Option String → Option String → Option String
or_else none other = other
or_else (some id) other = some id

-- The search of the basic strategy.
abbrev pub all_turns : (fl : Floats) (sample_id : String) → SearchQuery fl.Float
all_turns fl sample_id = record {
  type = episodic;
  tags = [];
  actor_id = "";
  tenant_id = sample_id;
  limit = pos 10000;
  since = zero_time;
  min_confidence = fl.zero;
}

module _ (fl : Floats) (lib : Library) where
  -- What one round of `extractDiaIDs` appends: the identifier in the metadata, or that of the index,
  -- or that in the content.
  unfoldable pub dia_id_of : (mem_to_dia_id : GoMap String) → Mem fl → Option String
  dia_id_of mem_to_dia_id mem =
      or_else (non_empty (mem.metadata "dia_id"))
        (or_else (mem_to_dia_id mem.id) (non_empty (lib.content_dia_id mem.content)))

  abbrev append_id : Option String → List String → List String
  append_id none ids = ids
  append_id (some id) ids = id ∷ ids

  unfoldable pub extract_dia_ids : List (Mem fl) → (mem_to_dia_id : GoMap String) → List String
  extract_dia_ids [] index = []
  extract_dia_ids (mem ∷ mems) index = append_id (dia_id_of index mem) (extract_dia_ids mems index)

  module _ (sorter : Sorter (Mem fl)) (visit : State fl → List (String × Mem fl)) where
    unfoldable pub execute_queries :
        Ingested fl → List QaItem → Outcome MemoryError (List QueryResult)
    execute_queries l qa = do
      mems ← search (provider fl sorter visit) (all_turns fl l.sample_id) l.records
      let retrieved = extract_dia_ids mems l.mem_to_dia_id
      ok (map (λ (q : QaItem). record { qa = q; retrieved_ids = retrieved }) qa)
