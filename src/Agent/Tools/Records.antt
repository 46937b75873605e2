-- ===== src/Agent/Tools/Records.antt =====
-- internal/agent/tools/memory.go: the tools by which an agent writes to the memory and searches it.
-- The JSON of an input and of an answer is a parameter; `plane` is the memory plane's provider.
pub mod Remembered
use hydra_db.Base.{
  ℕ, String, Bool, true, false, Option, none, some, List, [], ◌∷◌, map, length, Outcome, ok, err,
  if◌then◌else◌, str_eq, ℤ, pos, leb_ℤ, Time, zero_time,
}
use hydra_db.Memory.Types.{
  Floats, Memory, SearchQuery, MemoryError, Provider, new_memory, episodic, semantic, operational,
  working,
}
use hydra_db.Memory.Plane.{store, search}

pub record WriteInput (Content F : Type 0) : Type 0 where
  pub memory_type : String
  pub content : Content
  pub actor_id : String
  pub confidence : F
  pub tags : List String

pub record SearchInput : Type 0 where
  pub type : String
  pub tags : List String
  pub limit : ℤ
  pub actor_id : String

-- The answers, before they are printed: the fields of the two maps.
pub record Written : Type 0 where
  pub id : String
  pub type : String
  pub actor : String

pub record Found (F : Type 0) : Type 0 where
  pub id : String
  pub type : String
  pub actor_id : String
  pub confidence : F
  pub tags : List String
  pub content : String

pub data RecordsError : Type 0 where
  bad_input bad_content bad_output : RecordsError
  unknown_type : String → RecordsError
  not_stored not_searched : MemoryError → RecordsError

-- The type that is returned, and whether the text was known.
unfoldable pub parse_memory_type : String → String × Bool
parse_memory_type s =
    if str_eq s ""
    then (episodic, true)
    else if str_eq s episodic
    then (episodic, true)
    else if str_eq s semantic
    then (semantic, true)
    else if str_eq s operational
    then (operational, true)
    else if str_eq s working
    then (working, true)
    else (episodic, false)

-- float64: what the tools use of it beside `Floats`.
pub record ToolFloats : Type 1 where
  pub floats : Floats
  pub is_zero : floats.Float → Bool
  -- 0.8
  pub default_confidence : floats.Float

unfoldable pub found_of : {F : Type 0} → Memory F → Found F
found_of m = record {
  id = m.id;
  type = m.type;
  actor_id = m.actor_id;
  confidence = m.confidence;
  tags = m.tags;
  content = m.content;
}

-- The last step of both tools.
unfoldable pub printed :
    {A : Type 0} → (marshal : A → Option String) → A → Outcome RecordsError String
printed marshal a = elim (marshal a) [ none ↦ err bad_output | some out ↦ ok out ]

module _ (fl : ToolFloats) where
  -- The record that a write makes of its input and the printed content.
  unfoldable pub record_of :
      {Content : Type 0} (uuid : String) (now : Time)
      → WriteInput Content fl.floats.Float
      → (content : String) → Memory fl.floats.Float
  unfolding new_memory
  record_of uuid now input content =
      record (new_memory fl.floats uuid now (parse_memory_type input.memory_type).0 content
        (if str_eq input.actor_id "" then "agent" else input.actor_id) "default") {
          confidence =
              if fl.is_zero input.confidence then fl.default_confidence else input.confidence;
        }

  -- The query of a search; the error for an unknown type is dropped.
  unfoldable pub query_of : SearchInput → SearchQuery fl.floats.Float
  query_of input = record {
    type = (parse_memory_type input.type).0;
    tags = [];
    actor_id = input.actor_id;
    tenant_id = "";
    limit = if leb_ℤ input.limit (pos 0) then pos 10 else input.limit;
    since = zero_time;
    min_confidence = fl.floats.zero;
  }

  module _ {S : Type 0} (plane : Provider fl.floats.Float S) where
    -- `MemoryWrite.Execute`
    unfoldable pub memory_write :
        {Content : Type 0} (unmarshal : String → Option (WriteInput Content fl.floats.Float))
        (marshal_content : Content → Option String) (marshal : Written → Option String)
        (uuid : String) (now : Time)
        → (raw : String) → S
        → S × Outcome RecordsError String
    unfolding record_of printed
    memory_write unmarshal marshal_content marshal uuid now raw s = elim (unmarshal raw) [
      | none ↦ (s, err bad_input)
      | some input ↦
          if (parse_memory_type input.memory_type).1
          then (elim (marshal_content input.content) [
            | none ↦ (s, err bad_content)
            | some content ↦
                let mem = record_of uuid now input content in
                let (s', e) = store plane mem s in
                (
                  s',
                  elim e [
                    | some cause ↦ err (not_stored cause)
                    | none ↦
                        printed marshal
                          (record { id = mem.id; type = input.memory_type; actor = mem.actor_id })
                  ],
                )
          ])
          else (s, err (unknown_type input.memory_type))
    ]

    -- `MemorySearch.Execute`; the answer carries the number of the results.
    unfoldable pub memory_search :
        (unmarshal : String → Option SearchInput)
        (marshal : ℕ × List (Found fl.floats.Float) → Option String)
        → (raw : String) → S
        → Outcome RecordsError String
    unfolding query_of found_of printed
    memory_search unmarshal marshal raw s = elim (unmarshal raw) [
      | none ↦ err bad_input
      | some input ↦ elim (search plane (query_of input) s) [
        | err e ↦ err (not_searched e)
        | ok results ↦ let out = map found_of results in printed marshal (length out, out)
      ]
    ]
