-- ===== src/Server/Examples.antt =====
-- cmd/hydra/main.go: the theorems at concrete inputs.
use hydra_db.Base.{
  Option, zero_time, String, ◌≡◌, ◌≢◌, ◌⊎◌, refl, true, Option, none, some, [], ◌∷◌, err, str_eq,
  empty, Memᴰ,
}
use hydra_db.Body.Envelope.{Identity, Json}
use hydra_db.Execution.Job.{new_job}
use hydra_db.Memory.Types.{memory_exists}
use hydra_db.Policy.{perm_execute_task}
use hydra_db.Policy.Permissions.{Holds}
use hydra_db.Server.{TaskRequest, StoreRequest, store_failed, Fields, handle_task, handle_store}
use hydra_db.Server.Laws.{decision, handle_task_allowed, handle_store-write}
use hydra_db.Server.Fixtures.{worker, server, person, tenant, env}

unprinted : {A : Type 0} {B : Type 0} {x : B} → none ≡ some x → A
unprinted e = absurd (cc e)

-- A JSON library that fails to print anything.
abbrev fields : Json Fields
fields = record {
  marshal = λ a. none;
  unmarshal = λ s. none;
  not_empty = λ a e. unprinted e;
  reads_back = λ a e. unprinted e;
}

abbrev task : Identity → TaskRequest
task actor = record { type = "mail"; payload = "{}"; actor = actor; tenant = tenant }

abbrev decodes : Identity → String → Option TaskRequest
decodes actor s = some (task actor)

no_role : ¬ Holds server.policy.roles [] perm_execute_task
no_role h = elim h.named [ ]

worker_Holds : Holds server.policy.roles ("worker" ∷ []) perm_execute_task
worker_Holds = record {
  name = "worker";
  role = worker;
  named = Memᴰ.head refl;
  registered = refl;
  granted = Memᴰ.head refl;
}

handle_task_allowed_example :
    let s' =
      (handle_task fields 9 (decodes (person "ana" ("worker" ∷ []))) "u" "i" "t" 7 env server).0 in
    (s'.plane.jobs "u" ≡ some 7)
    × (s'.plane.heap 7 ≡ new_job "u" 9 "mail" "{}" [])
    × (s'.policy ≡ record server.policy {
      entries = decision 9 env (person "ana" ("worker" ∷ [])) "task" true "allowed" ∷ [];
    })
handle_task_allowed_example =
    handle_task_allowed fields 9 (decodes (person "ana" ("worker" ∷ []))) "u" "i" "t" 7 env
      (task (person "ana" ("worker" ∷ []))) server refl worker_Holds

abbrev note : StoreRequest
note = record {
  memory_type = "";
  content = "{}";
  tags = "db" ∷ [];
  actor_id = "ana";
  tenant_id = "t";
}

handle_store-write_example :
    let (s', reply) = handle_store fields 9 (λ s. some note) "m1" "i" "t" env server in
    ((server.memory "m1" ≡ none)
        × (s'.memory "m1"
            ≡ some (record {
              id = "m1";
              type = "semantic";
              content = note.content;
              tags = note.tags;
              confidence = 1;
              actor_id = "ana";
              tenant_id = "t";
              metadata = empty;
              created_at = 9;
              accessed_at = 9;
              expires_at = zero_time;
            }))
      ⊎ (server.memory "m1" ≢ none)
        × (reply ≡ some (err (store_failed (memory_exists "m1"))))
        × (s'.memory "m1" ≡ server.memory "m1"))
    × ((str_eq "m1" "m2" ≡ true) ⊎ (s'.memory "m2" ≡ server.memory "m2"))
    × (s'.policy ≡ server.policy)
    × (s'.plane ≡ server.plane)
handle_store-write_example =
    handle_store-write fields 9 (λ s. some note) "m1" "i" "t" "m2" env note server refl
