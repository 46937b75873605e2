-- ===== src/Server/Chat/Examples.antt =====
-- cmd/hydra/main.go: "chat" at a concrete input.
use hydra_db.Base.{
  false, ap, ◌&&◌, Bool, Option, arith, eq_iff, if◌then◌else◌, ok, ℕ, String, ◌≡◌, ◌≢◌, refl, true,
  Option, none, some, [], ◌∷◌, ok, str_eq, put, empty, Memᴰ,
}
use hydra_db.Body.Envelope.{Envelope, Identity, Json, response}
use hydra_db.Body.EventBus.{new_bus}
use hydra_db.Policy.{Role}
use hydra_db.Policy.Permissions.{Holds}
use hydra_db.Body.EventBus.{Bus, Event, publish}
use hydra_db.Body.EventBus.Reachable.{Reach}
use hydra_db.Policy.{perm_create_agent}
use hydra_db.Agent.Executor.{done, canceled, new_context, new_agent}
use hydra_db.Agent.Runtime.{new_runtime, get_agent}
use hydra_db.Server.Chat.{ChatRequest, ChatAgent, ChatServer, Moment, handle_chat}
use hydra_db.Server.Chat.Spawned.{handle_chat_allowed}
use hydra_db.Server.{Fields}
use hydra_db.Server.Laws.{decision}
use hydra_db.Server.Fixtures.{whole, server, person, tenant, env}

abbrev echoes : Fields
echoes = ("echo", "hello") ∷ ("agent_id", "u") ∷ []

abbrev is_echoes : Option Fields → Bool
is_echoes (some ((k, v) ∷ (k', v') ∷ [])) =
    str_eq k "echo" && str_eq v "hello" && str_eq k' "agent_id" && str_eq v' "u"
is_echoes _ = false

is_echoes-eq : (fs : Option Fields) → is_echoes fs ≡ true → some echoes ≡ fs
is_echoes-eq none h = cc
is_echoes-eq (some []) h = cc
is_echoes-eq (some (x ∷ [])) h = cc
is_echoes-eq (some ((k, v) ∷ (k', v') ∷ [])) h =
    ground (arith, eq_iff k "echo", eq_iff v "hello", eq_iff k' "agent_id", eq_iff v' "u")
is_echoes-eq (some (x ∷ y ∷ z ∷ rest)) h = cc

-- A JSON library that prints the echo of "hello" alone.
abbrev print : Option Fields → Option String
print fs = if is_echoes fs then some "{\"echo\":\"hello\"}" else none

printed_echoes : (fs : Option Fields) {s : String} → print fs ≡ some s → is_echoes fs ≡ true
printed_echoes fs h = ground arith

printed_text : (fs : Option Fields) {s : String} → print fs ≡ some s → s ≢ ""
printed_text fs {s} h e = ground (arith, eq_iff "{\"echo\":\"hello\"}" "")

abbrev results : Json (Option Fields)
results = record {
  marshal = print;
  unmarshal = λ s. some (some echoes);
  not_empty = λ fs h. printed_text fs h;
  reads_back = λ fs h. ap some (is_echoes-eq fs (printed_echoes fs h));
}

abbrev maker : Role
maker = record { name = "maker"; permissions = perm_create_agent ∷ [] }

abbrev chat_server : ChatServer whole ℕ ℕ
chat_server = record {
  heads = record server { policy = record server.policy { roles = put "maker" maker empty } };
  runtime = new_runtime;
}

abbrev calm : ℕ → Moment
calm i = record { interrupted = none; ended = canceled; clock = 12 }

abbrev hello : Identity → ChatRequest
hello actor = record { message = "hello"; actor = actor; tenant = tenant }

maker_Holds : Holds chat_server.heads.policy.roles ("maker" ∷ []) perm_create_agent
maker_Holds = record {
  name = "maker";
  role = maker;
  named = Memᴰ.head refl;
  registered = refl;
  granted = Memᴰ.head refl;
}

no_maker : ¬ Holds chat_server.heads.policy.roles [] perm_create_agent
no_maker h = elim h.named [ ]

abbrev ana : Identity
ana = person "ana" ("maker" ∷ [])

abbrev echo_agent : ChatAgent ℕ ℕ
echo_agent = record {
  id = "u";
  name = "echo-agent";
  state = done;
  context = some (new_context "s" ana tenant);
  tools = [];
  result = some (("echo", "hello") ∷ ("agent_id", "u") ∷ []);
  error = none;
  created_at = 8;
  finished_at = 12;
}

handle_chat_allowed_example :
    let completed : Event = record {
      type = "agent.completed";
      payload = env.payload;
      trace_id = env.trace_id;
      timestamp = 0;
    } in
    let (s', reply) =
      handle_chat results 9
        (λ p. some (hello ana))
        2
        "u"
        "s"
        "i"
        "t"
        8
        calm
        (λ r. r)
        env
        chat_server in
    (bus : Bus) × (resp : Envelope) × (publish completed chat_server.heads.bus ≡ some (bus, none))
    × (s'.heads ≡ record chat_server.heads {
      policy = record chat_server.heads.policy {
        entries = decision 9 env ana "chat" true "allowed" ∷ [];
      };
      bus = bus;
    })
    × (get_agent "u" s'.runtime ≡ ok echo_agent)
    × (reply ≡ some (ok resp))
    × (resp.payload ≡ "{\"echo\":\"hello\"}")
    × (resp.type ≡ response)
    × (resp.action ≡ "chat")
    × (resp.trace_id ≡ env.trace_id)
unfolding new_runtime new_agent new_bus
handle_chat_allowed_example =
    handle_chat_allowed results 9 (λ p. some (hello ana)) 1 "u" "s" "i" "t" 8 calm (λ r. r) env
      (hello ana) chat_server refl "{\"echo\":\"hello\"}" maker_Holds Reach.starts refl refl refl
