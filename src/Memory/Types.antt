-- ===== src/Memory/Types.antt =====
-- internal/memory/types.go and provider.go: records, queries, and the contract of a provider.
use hydra_db.Base.{String, Bool, Option, List, [], Outcome, GoMap, empty, ℤ, Time, zero_time}

-- float64: what the package uses of it.
pub record Floats : Type 1 where
  pub Float : Type 0
  pub less : Float → Float → Bool
  pub zero : Float
  pub one : Float

-- The kind of a memory is a text that nothing checks; these are the four that have a name.
abbrev pub episodic : String
episodic = "episodic"

abbrev pub semantic : String
semantic = "semantic"

abbrev pub operational : String
operational = "operational"

abbrev pub working : String
working = "working"

-- The content is raw JSON, kept as text.
pub record Memory (F : Type 0) : Type 0 where
  pub id : String
  pub type : String
  pub content : String
  pub tags : List String
  pub confidence : F
  pub actor_id : String
  pub tenant_id : String
  pub metadata : GoMap String
  pub created_at : Time
  pub accessed_at : Time
  pub expires_at : Time

pub record SearchQuery (F : Type 0) : Type 0 where
  pub type : String
  pub tags : List String
  pub actor_id : String
  pub tenant_id : String
  pub limit : ℤ
  pub since : Time
  pub min_confidence : F

pub data MemoryError : Type 0 where
  memory_exists : String → MemoryError
  memory_not_found : String → MemoryError

-- `uuid` is the generated identifier and `now` the clock.
unfoldable pub new_memory :
    (fl : Floats) (uuid : String) (now : Time)
    → (mem_type content actor_id tenant_id : String) → Memory fl.Float
new_memory fl uuid now mem_type content actor_id tenant_id = record {
  id = uuid;
  type = mem_type;
  content = content;
  tags = [];
  confidence = fl.one;
  actor_id = actor_id;
  tenant_id = tenant_id;
  metadata = empty;
  created_at = now;
  accessed_at = now;
  expires_at = zero_time;
}

-- The `Provider` interface over a provider's state `S`. `now` is the clock.
pub record Provider (F : Type 0) (S : Type 0) : Type 0 where
  pub write : Memory F → S → S × Option MemoryError
  pub read : (now : Time) → String → S → S × Outcome MemoryError (Memory F)
  pub search : SearchQuery F → S → Outcome MemoryError (List (Memory F))
  pub delete : String → S → S × Option MemoryError
