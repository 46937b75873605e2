-- ===== src/Server/Chat.antt =====
-- cmd/hydra/main.go: the handler of "chat", which spawns an agent that echoes the message. `none` in
-- the place of an answer stands for a panic, or for an agent that has not come to its end.
pub mod Spawned
mod Examples
use hydra_db.Base.{
  ℕ, suc, String, ◌≡◌, ◌≢◌, refl, ap, ◌∙◌, Bool, true, false, Option, none, some, List, [], ◌∷◌,
  ◌++◌, Outcome, ok, err, if◌then◌else◌, str_eq, eq_iff, Time, zero_time, arith, Option-cases, inl,
  inr,
}
use hydra_db.Body.Envelope.{Envelope, Identity, Tenant, Json, actor_human}
use hydra_db.Body.EventBus.{Bus, Event, publish}
use hydra_db.Body.EventBus.Reachable.{Reach}
use hydra_db.Memory.Types.{Floats}
use hydra_db.Policy.{check_permission, audit, perm_create_agent}
use hydra_db.Policy.Permissions.{Holds, check_permission_iff}
use hydra_db.Agent.Tools.{Tool}
use hydra_db.Agent.Executor.{
  Agent, Round, Context, ContextError, done, new_context, with_context, new_agent, execute, running,
}
use hydra_db.Agent.Runtime.{Runtime, RuntimeError, spawn}
use hydra_db.Server.{
  ServerError, invalid_payload, permission_denied, spawn_failed, Fields, Server, tenant_of, answer,
}
use hydra_db.Server.Laws.{decision, refused_by}

pub record ChatRequest : Type 0 where
  pub message : String
  pub actor : Identity
  pub tenant : Tenant

abbrev pub anonymous_human : Identity
anonymous_human = record {
  id = "anonymous";
  kind = actor_human;
  roles = "human" ∷ [];
  tenant_id = "default";
}

abbrev pub chat_actor : Identity → Identity
chat_actor actor = if str_eq actor.id "" then anonymous_human else actor

-- `V` is the type of the values in an agent's memory, and `T` of a tool.
module _ (V T : Type 0) where
  abbrev pub ChatAgent : Type 0
  ChatAgent = Agent (Context V) (Tool T) Fields String

  abbrev pub ChatRuntime : Type 0
  ChatRuntime = Runtime (Context V) T Fields String

pub record ChatServer (fl : Floats) (V T : Type 0) : Type 0 where
  pub heads : Server fl
  pub runtime : ChatRuntime V T

-- What the world does in an attempt, beside the function.
pub record Moment : Type 0 where
  pub interrupted : Option ContextError
  pub ended : ContextError
  pub clock : Time

module _ {V T : Type 0} where
  -- The function of the agent.
  abbrev pub echo : (message : String) → ChatAgent V T → ChatAgent V T × Outcome String Fields
  echo message a = (a, ok (("echo", message) ∷ ("agent_id", a.id) ∷ []))

  abbrev pub echo_rounds :
      (message : String) → (ℕ → Moment) → ℕ → Round (Context V) (Tool T) Fields String
  echo_rounds message moments i = record {
    interrupted = (moments i).interrupted;
    run = echo message;
    ended = (moments i).ended;
    clock = (moments i).clock;
  }

unfoldable pub completed_event : Envelope → Event
completed_event env = record {
  type = "agent.completed";
  payload = env.payload;
  trace_id = env.trace_id;
  timestamp = zero_time;
}

module _ {fl : Floats} {V T : Type 0} (json : Json (Option Fields)) (now : Time) where
  -- What follows the spawn: the event, whose error is dropped, and the answer.
  unfoldable pub chat_answer :
      (id trace : String)
      → ChatRequest
      → Envelope
      → Option Fields
      → ChatServer fl V T
      → ChatServer fl V T × Option (Outcome ServerError Envelope)
  unfolding completed_event
  chat_answer id trace req env result s = elim (publish (completed_event env) s.heads.bus) [
    | none ↦ (s, none)
    | some (bus, e) ↦ (
      record s { heads = record s.heads { bus = bus } },
      some (
          answer json id trace now "chat" env (chat_actor req.actor) (tenant_of req.tenant) result),
    )
  ]

  -- What is done with what `Spawn` returns.
  unfoldable pub after_spawn :
      (id trace : String)
      → ChatRequest
      → Envelope
      → Server fl
      → ChatRuntime V T × Option (ChatAgent V T × Option (RuntimeError String))
      → ChatServer fl V T × Option (Outcome ServerError Envelope)
  unfolding chat_answer
  after_spawn id trace req env heads (runtime, none) =
      (record { heads = heads; runtime = runtime }, none)
  after_spawn id trace req env heads (runtime, some (a, e)) =
      let s' : ChatServer fl V T = record { heads = heads; runtime = runtime } in
      elim e [
        | some cause ↦ (s', some (err (spawn_failed cause)))
        | none ↦ chat_answer id trace req env a.result s'
      ]

  -- `uuid` and `session` are the identifiers of the agent and its context, and `others` the calls on
  -- the runtime that come during the execution, of which `fuel` rounds are made at most.
  unfoldable pub handle_chat :
      (decode : String → Option ChatRequest) (fuel : ℕ) (uuid session id trace : String)
      (created : Time) (moments : ℕ → Moment) (others : ChatRuntime V T → ChatRuntime V T)
      → Envelope
      → ChatServer fl V T
      → ChatServer fl V T × Option (Outcome ServerError Envelope)
  unfolding after_spawn spawn
  handle_chat decode fuel uuid session id trace created moments others env s =
      elim (decode env.payload) [
        | none ↦ (s, some (err invalid_payload))
        | some req ↦
            let actor = chat_actor req.actor in
            if check_permission actor.roles perm_create_agent s.heads.policy
            then after_spawn id trace req env
                (record s.heads {
                  policy = audit now env.trace_id actor.id "chat" true "allowed" s.heads.policy;
                })
                (spawn fuel uuid created now (echo_rounds req.message moments) others "echo-agent"
                  (with_context (new_context session actor (tenant_of req.tenant)) ∷ []) s.runtime)
            else (
              record s {
                heads = record s.heads {
                  policy =
                      audit now env.trace_id actor.id "chat" false "permission denied"
                        s.heads.policy;
                };
              },
              some (err (permission_denied perm_create_agent)),
            )
      ]
