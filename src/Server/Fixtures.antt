-- ===== src/Server/Fixtures.antt =====
-- cmd/hydra/main.go: the server and the envelope of the examples.
use hydra_db.Base.{ℕ, String, List, [], ◌∷◌, pos, put, empty, ltb}
use hydra_db.Body.Envelope.{Envelope, Identity, Tenant, request}
use hydra_db.Body.EventBus.{new_bus}
use hydra_db.Execution.Job.{Heap, pending}
use hydra_db.Execution.Plane.{new_plane}
use hydra_db.Memory.Types.{Floats}
use hydra_db.Policy.{Role, perm_execute_task}
use hydra_db.Server.{Server}

abbrev pub whole : Floats
whole = record { Float = ℕ; less = ltb; zero = 0; one = 1 }

abbrev heap : Heap
heap r = record {
  id = "";
  type = "";
  payload = "";
  state = pending;
  result = "";
  error = "";
  attempts = pos 0;
  max_attempts = pos 3;
  created_at = 0;
  started_at = 0;
  finished_at = 0;
  run_after = 0;
}

abbrev pub worker : Role
worker = record { name = "worker"; permissions = perm_execute_task ∷ [] }

abbrev pub server : Server whole
server = record {
  policy = record {
    config = record { default_budget = pos 100; rate_limit = pos 10 };
    roles = put "worker" worker empty;
    budgets = empty;
    allowed_tools = empty;
    entries = [];
  };
  plane = new_plane heap;
  memory = empty;
  bus = new_bus;
}

abbrev pub person : (name : String) → List String → Identity
person name roles = record { id = name; kind = "human"; roles = roles; tenant_id = "t" }

abbrev pub tenant : Tenant
tenant = record { id = "t"; name = "T" }

abbrev pub env : Envelope
env = record {
  id = "e1";
  trace_id = "t1";
  actor = person "" [];
  tenant = tenant;
  type = request;
  action = "task";
  payload = "{}";
  metadata = empty;
  timestamp = 3;
}
