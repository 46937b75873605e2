-- ===== src/Server.antt =====
-- cmd/hydra/main.go: the handlers of "task" and "memory.store", which join the policy engine, the
-- execution plane, the memory and the bus. `none` in the place of an answer stands for a panic.
pub mod Queries
pub mod Laws
pub mod Chat
mod Fixtures
mod Examples
use hydra_db.Base.{
  String, Bool, true, false, Option, none, some, List, [], ◌∷◌, Outcome, ok, err, if◌then◌else◌,
  str_eq, Time, zero_time, ℤ, GoMap,
}
use hydra_db.Agent.Runtime.{RuntimeError}
use hydra_db.Body.Envelope.{
  Envelope, Identity, Tenant, Json, PayloadError, actor_human, response, new_envelope, with_payload,
}
use hydra_db.Body.EventBus.{Bus, Event, publish}
use hydra_db.Execution.Job.{Job, Ref, ExecError, new_job}
use hydra_db.Execution.Plane.{Plane, write, submit}
use hydra_db.Memory.Types.{Floats, Memory, SearchQuery, MemoryError, new_memory, semantic}
use hydra_db.Memory.InMemory.{Mem, State, write as write_memory}
use hydra_db.Policy.{Engine, check_permission, audit, perm_execute_task}

-- The requests that the payloads carry.
pub record TaskRequest : Type 0 where
  pub type : String
  pub payload : String
  pub actor : Identity
  pub tenant : Tenant

pub record StoreRequest : Type 0 where
  pub memory_type : String
  pub content : String
  pub tags : List String
  pub actor_id : String
  pub tenant_id : String

pub data ServerError : Type 0 where
  invalid_payload : ServerError
  permission_denied : String → ServerError
  submit_failed : ExecError → ServerError
  store_failed : MemoryError → ServerError
  answer_failed : PayloadError → ServerError
  spawn_failed : RuntimeError String → ServerError

-- What stands in for an actor or a tenant that a request does not name.
abbrev pub anonymous : Identity
anonymous = record { id = "anonymous"; kind = actor_human; roles = []; tenant_id = "default" }

abbrev pub default_tenant : Tenant
default_tenant = record { id = "default"; name = "default" }

abbrev pub actor_of : Identity → Identity
actor_of actor = if str_eq actor.id "" then anonymous else actor

abbrev pub tenant_of : Tenant → Tenant
tenant_of tenant = if str_eq tenant.id "" then default_tenant else tenant

abbrev pub or_default : (given default : String) → String
or_default given default = if str_eq given "" then default else given

-- map[string]string
abbrev pub Fields : Type 0
Fields = List (String × String)

module _ (fl : Floats) where
  pub record Server : Type 0 where
    pub policy : Engine
    pub plane : Plane
    pub memory : State fl
    pub bus : Bus

-- The response: `body.NewEnvelope`, its trace, and its payload.
unfoldable pub answer :
    {A : Type 0} (json : Json A) (id trace : String) (now : Time)
    → (action : String) → Envelope
    → Identity
    → Tenant
    → A
    → Outcome ServerError Envelope
unfolding new_envelope
answer json id trace now action env actor tenant payload =
    let resp : Envelope = record (new_envelope id trace now response action actor tenant) {
      trace_id = env.trace_id;
    } in
    elim (with_payload json payload resp) [ err e ↦ err (answer_failed e) | ok resp' ↦ ok resp' ]

-- The record that "memory.store" makes of a request.
unfoldable pub memory_of : (fl : Floats) (uuid : String) (now : Time) → StoreRequest → Mem fl
unfolding new_memory
memory_of fl uuid now req =
    record (new_memory fl uuid now (or_default req.memory_type semantic) req.content
      (or_default req.actor_id "anonymous") (or_default req.tenant_id "default")) {
        tags = req.tags;
      }

stored_event : Envelope → Event
stored_event env = record {
  type = "memory.stored";
  payload = env.payload;
  trace_id = env.trace_id;
  timestamp = zero_time;
}

module _ {fl : Floats} (fields : Json Fields) (now : Time) where
  -- What is done for a task that is allowed; `job` is where `NewJob` puts the new job.
  submit_task :
      (uuid id trace : String) (job : Ref)
      → TaskRequest
      → Envelope
      → Server fl
      → Server fl × Outcome ServerError Envelope
  submit_task uuid id trace job req env s =
      let p : Plane = record s.plane {
        heap = write job (new_job uuid now req.type req.payload []) s.plane.heap;
      } in
      let (p', e) = submit now job p in
      (
        record s { plane = p' },
        elim e [
          | some e ↦ err (submit_failed e)
          | none ↦
              answer fields id trace now "task" env (actor_of req.actor) (tenant_of req.tenant)
                (("job_id", uuid) ∷ ("state", "pending") ∷ [])
        ],
      )

  -- The handler of "task". `decode` is `json.Unmarshal`, which yields `none` for an error.
  unfoldable pub handle_task :
      (decode : String → Option TaskRequest) (uuid id trace : String) (job : Ref)
      → Envelope
      → Server fl
      → Server fl × Outcome ServerError Envelope
  unfolding submit_task
  handle_task decode uuid id trace job env s = elim (decode env.payload) [
    | none ↦ (s, err invalid_payload)
    | some req ↦
        let actor = actor_of req.actor in
        if check_permission actor.roles perm_execute_task s.policy
        then submit_task uuid id trace job req env
            (record s { policy = audit now env.trace_id actor.id "task" true "allowed" s.policy })
        else (
          record s {
            policy = audit now env.trace_id actor.id "task" false "permission denied" s.policy;
          },
          err (permission_denied perm_execute_task),
        )
  ]

  -- What follows the write: the event, whose error is dropped, and the answer.
  announce :
      (id trace : String)
      → Mem fl
      → Envelope
      → Server fl
      → Server fl × Option (Outcome ServerError Envelope)
  unfolding stored_event
  announce id trace mem env s = elim (publish (stored_event env) s.bus) [
    | none ↦ (s, none)
    | some (bus, e) ↦ (
      record s { bus = bus },
      some (
          answer fields id trace now "memory.store" env
            (record { id = mem.actor_id; kind = ""; roles = []; tenant_id = "" })
            (record { id = mem.tenant_id; name = "" })
            (("memory_id", mem.id) ∷ ("type", mem.type) ∷ [])),
    )
  ]

  -- The handler of "memory.store".
  unfoldable pub handle_store :
      (decode : String → Option StoreRequest) (uuid id trace : String)
      → Envelope
      → Server fl
      → Server fl × Option (Outcome ServerError Envelope)
  unfolding announce
  handle_store decode uuid id trace env s = elim (decode env.payload) [
    | none ↦ (s, some (err invalid_payload))
    | some req ↦
        let mem = memory_of fl uuid now req in
        let (memory, e) = write_memory fl mem s.memory in
        let s' : Server fl = record s { memory = memory } in
        elim e [ some e ↦ (s', some (err (store_failed e))) | none ↦ announce id trace mem env s' ]
  ]
