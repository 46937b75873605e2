-- ===== src/Server/Chat/Spawned.antt =====
-- cmd/hydra/main.go: what "chat" does for whom.
use hydra_db.Base.{
  zero_time, leb_ℤ, pos, ℕ, suc, String, ◌≡◌, refl, ap, ◌∙◌, true, false, Option, none, some, [],
  ◌∷◌, ◌++◌, Outcome, ok, err, eq_iff, Time, arith,
}
use hydra_db.Body.Envelope.{Envelope, Json, response, with_payload, new_envelope}
use hydra_db.Body.EventBus.{Bus, Event, publish}
use hydra_db.Body.EventBus.Reachable.{Reach}
use hydra_db.Memory.Types.{Floats}
use hydra_db.Policy.{check_permission, audit, perm_create_agent}
use hydra_db.Policy.Permissions.{Holds, check_permission_iff}
use hydra_db.Agent.Tools.{Tool}
use hydra_db.Agent.Executor.{
  Agent, attempts_from, Context, done, new_context, with_context, new_agent, execute,
}
use hydra_db.Agent.Runtime.{begin_spawn, end_spawn, spawn, get_agent}
use hydra_db.Body.EventBus.Delivery.{publish_delivers}
use hydra_db.Server.{ServerError, permission_denied, Fields, Server, tenant_of, answer}
use hydra_db.Server.Laws.{decision, refused_by}
use hydra_db.Server.Chat.{
  ChatRequest, ChatRuntime, ChatServer, Moment, chat_actor, echo_rounds, completed_event,
  chat_answer, after_spawn, handle_chat,
}

module _ {fl : Floats} {V T : Type 0} (json : Json (Option Fields)) (now : Time)
    (decode : String → Option ChatRequest) (fuel : ℕ) (uuid session id trace : String)
    (created : Time) (moments : ℕ → Moment) (others : ChatRuntime V T → ChatRuntime V T)
    (env : Envelope) (req : ChatRequest) (s : ChatServer fl V T)
    (read : decode env.payload ≡ some req) where
  -- A message of an actor none of whose roles is registered with "agent:create" is refused: no agent
  -- is spawned, nothing but the audit log changes, and that gains the refusal.
  pub handle_chat_refused :
      ¬ Holds s.heads.policy.roles (chat_actor req.actor).roles perm_create_agent
      → handle_chat json now decode fuel uuid session id trace created moments others env s ≡ (
        record s {
          heads = record s.heads {
            policy = record s.heads.policy {
              entries =
                  s.heads.policy.entries
                  ++ decision now env (chat_actor req.actor) "chat" false "permission denied" ∷ [];
            };
          };
        },
        some (err (permission_denied "agent:create")),
      )
  unfolding handle_chat audit
  handle_chat_refused lacks =
      rw
        (
          read,
          refused_by (chat_actor req.actor).roles perm_create_agent s.heads.policy lacks,
          handle_chat,
        )
        refl

  -- The agent of the message, before its execution and after it.
  abbrev pub spawned : Agent (Context V) (Tool T) Fields String
  spawned =
      new_agent uuid created "echo-agent"
        (with_context (new_context session (chat_actor req.actor) (tenant_of req.tenant)) ∷ [])

  abbrev pub finished : Agent (Context V) (Tool T) Fields String
  finished = record spawned {
    state = done;
    result = some (("echo", req.message) ∷ ("agent_id", spawned.id) ∷ []);
    finished_at = (moments 0).clock;
  }

  echoed :
      leb_ℤ (pos 0) s.runtime.executor.max_retries ≡ true
      → execute (suc fuel) now (echo_rounds req.message moments) s.runtime.executor spawned
        ≡ some (finished, none)
  unfolding execute attempts_from
  echoed positive = rw (positive, attempts_from) refl

  ran :
      leb_ℤ (pos 0) s.runtime.executor.max_retries ≡ true
      → spawn
          (suc fuel)
          uuid
          created
          now
          (echo_rounds req.message moments)
          others
          "echo-agent"
          (with_context (new_context session (chat_actor req.actor) (tenant_of req.tenant)) ∷ [])
          s.runtime
        ≡ (
          end_spawn spawned.id finished (others (begin_spawn spawned s.runtime)),
          some (finished, none),
        )
  unfolding spawn
  ran positive = rw (echoed positive, spawn) refl

  -- The server when the permission has been checked.
  abbrev audited : Server fl
  audited = record s.heads {
    policy = record s.heads.policy {
      entries =
          s.heads.policy.entries
          ++ decision now env (chat_actor req.actor) "chat" true "allowed" ∷ [];
    };
  }

  abbrev runtime_after : ChatRuntime V T
  runtime_after = end_spawn spawned.id finished (others (begin_spawn spawned s.runtime))

  answered :
      (s0 : ChatServer fl V T) (bus : Bus)
      → publish (completed_event env) s0.heads.bus ≡ some (bus, none)
      → chat_answer json now id trace req env finished.result s0 ≡ (
        record s0 { heads = record s0.heads { bus = bus } },
        some (
            answer json id trace now "chat" env
              (chat_actor req.actor)
              (tenant_of req.tenant)
              finished.result),
      )
  unfolding chat_answer
  answered s0 bus published = rw (published, chat_answer) refl

  handled :
      Holds s.heads.policy.roles (chat_actor req.actor).roles perm_create_agent
      → leb_ℤ (pos 0) s.runtime.executor.max_retries ≡ true
      → (bus : Bus) → publish (completed_event env) s.heads.bus ≡ some (bus, none)
      → handle_chat json now decode (suc fuel) uuid session id trace created moments others env s
        ≡ (
          record { heads = record audited { bus = bus }; runtime = runtime_after },
          some (
              answer json id trace now "chat" env
                (chat_actor req.actor)
                (tenant_of req.tenant)
                finished.result),
        )
  unfolding handle_chat audit after_spawn
  handled holds positive bus published =
      let granted : check_permission (chat_actor req.actor).roles perm_create_agent s.heads.policy
          ≡ true =
        (check_permission_iff (chat_actor req.actor).roles perm_create_agent s.heads.policy).1
          holds in
      rw (read, granted, handle_chat)
        (ap (after_spawn json now id trace req env audited) (ran positive)
          ∙ answered (record { heads = audited; runtime = runtime_after }) bus published)

  looked_up : get_agent spawned.id runtime_after ≡ ok finished
  unfolding get_agent end_spawn
  looked_up = ground (arith, eq_iff spawned.id spawned.id)

  answer_lem :
      {text : String} (result : Option Fields)
      → json.marshal result ≡ some text
      → (resp : Envelope) × (answer json id trace now "chat" env
            (chat_actor req.actor)
            (tenant_of req.tenant)
            result
          ≡ ok resp)
        × (resp.payload ≡ text)
        × (resp.type ≡ response)
        × (resp.action ≡ "chat")
        × (resp.trace_id ≡ env.trace_id)
  unfolding answer with_payload new_envelope
  answer_lem {text} result printed = (
    record (new_envelope id trace now response "chat" (chat_actor req.actor)
        (tenant_of req.tenant)) { trace_id = env.trace_id; payload = text },
    rw (printed, answer, with_payload) refl,
    refl,
    refl,
    refl,
    refl,
  )

  -- A message of an actor with the permission is audited as allowed. Its agent echoes it at the first
  -- attempt and can be looked up as done; the event "agent.completed" with the request's payload goes
  -- out on the bus, which any calls have reached and which is open; and the reply is a response whose
  -- payload is the printed echo of the message. All this if the executor makes an attempt and the
  -- echo can be printed.
  pub handle_chat_allowed :
      (text : String)
      → Holds s.heads.policy.roles (chat_actor req.actor).roles perm_create_agent
      → Reach s.heads.bus
      → s.heads.bus.closed ≡ false
      → leb_ℤ (pos 0) s.runtime.executor.max_retries ≡ true
      → json.marshal (some (("echo", req.message) ∷ ("agent_id", uuid) ∷ [])) ≡ some text
      → let completed : Event = record {
        type = "agent.completed";
        payload = env.payload;
        trace_id = env.trace_id;
        timestamp = zero_time;
      } in
        let (s', reply) =
          handle_chat json now decode
            (suc fuel)
            uuid
            session
            id
            trace
            created
            moments
            others
            env
            s in
        (bus : Bus) × (resp : Envelope) × (publish completed s.heads.bus ≡ some (bus, none))
        × (s'.heads ≡ record s.heads {
          policy = record s.heads.policy {
            entries =
                s.heads.policy.entries
                ++ decision now env (chat_actor req.actor) "chat" true "allowed" ∷ [];
          };
          bus = bus;
        })
        × (get_agent uuid s'.runtime ≡ ok finished)
        × (reply ≡ some (ok resp))
        × (resp.payload ≡ text)
        × (resp.type ≡ response)
        × (resp.action ≡ "chat")
        × (resp.trace_id ≡ env.trace_id)
  unfolding completed_event new_agent
  handle_chat_allowed text holds reach opened positive printed =
      let (bus, published, _, _) = publish_delivers reach opened (completed_event env) in
      let e = handled holds positive bus published in
      let (resp, made, payload, typ, action, trace_id) = answer_lem finished.result printed in
      (
        bus,
        resp,
        published,
        ap (λ (x : ChatServer fl V T × Option (Outcome ServerError Envelope)). x.0.heads) e,
        ap
              (λ (x : ChatServer fl V T × Option (Outcome ServerError Envelope)).
                get_agent uuid x.0.runtime)
              e
            ∙ looked_up,
        ap (λ (x : ChatServer fl V T × Option (Outcome ServerError Envelope)). x.1) e
            ∙ ap some made,
        payload,
        typ,
        action,
        trace_id,
      )
