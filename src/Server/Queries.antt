-- ===== src/Server/Queries.antt =====
-- cmd/hydra/main.go: the handlers of "memory.search" and "health", which only read.
use hydra_db.Base.{
  ℕ, String, Option, none, some, List, [], Outcome, err, if◌then◌else◌, Time, zero_time, ℤ, length,
}
use hydra_db.Body.Envelope.{Envelope, Identity, Tenant, Json}
use hydra_db.Body.Health.{HealthReport}
use hydra_db.Body.Registry.{Head, health_all, is_healthy, names}
use hydra_db.Memory.Types.{Floats, SearchQuery}
use hydra_db.Memory.InMemory.{Mem, search}
use hydra_db.Memory.Sorting.{Sorter}
use hydra_db.Server.{ServerError, invalid_payload, answer}

pub record SearchRequest : Type 0 where
  pub type : String
  pub tags : List String
  pub actor_id : String
  pub tenant_id : String
  pub limit : ℤ

-- The query of "memory.search": the fields that a request cannot set are Go's zero values.
query_of : (fl : Floats) → SearchRequest → SearchQuery fl.Float
query_of fl req = record {
  type = req.type;
  tags = req.tags;
  actor_id = req.actor_id;
  tenant_id = req.tenant_id;
  limit = req.limit;
  since = zero_time;
  min_confidence = fl.zero;
}

abbrev no_identity : Identity
no_identity = record { id = ""; kind = ""; roles = []; tenant_id = "" }

abbrev no_tenant : Tenant
no_tenant = record { id = ""; name = "" }

-- The handler of "memory.search", which answers with the records and their number. `order` is the
-- order in which the map is visited.
unfoldable pub handle_search :
    (fl : Floats) (json : Json (List (Mem fl) × ℕ)) (now : Time)
    (decode : String → Option SearchRequest) (sorter : Sorter (Mem fl))
    (order : List (String × Mem fl)) (id trace : String)
    → Envelope
    → Outcome ServerError Envelope
unfolding query_of
handle_search fl json now decode sorter order id trace env = elim (decode env.payload) [
  | none ↦ err invalid_payload
  | some req ↦
      let results = search fl sorter (query_of fl req) order in
      answer json id trace now "memory.search" env no_identity no_tenant (results, length results)
]

-- The handler of "health", for the order in which the registry's map is visited. The three loops over
-- it are taken to visit it alike.
unfoldable pub handle_health :
    {W E : Type 0} (json : Json (String × List HealthReport × List String)) (now : Time)
    (order : List (String × Head W E)) (w : W) (id trace : String)
    → Envelope
    → Outcome ServerError Envelope
handle_health json now order w id trace env =
    answer json id trace now "health" env no_identity no_tenant
      (if is_healthy order w then "healthy" else "unhealthy", health_all order w, names order)
