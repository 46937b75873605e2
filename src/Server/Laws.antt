-- ===== src/Server/Laws.antt =====
-- cmd/hydra/main.go: what the handlers do for whom.
use hydra_db.Base.{
  if◌then◌else◌, empty, zero_time, String, ◌≡◌, ◌≢◌, ◌⊎◌, refl, inl, inr, Bool, true, false, Option,
  none, some, List, [], ◌∷◌, ◌++◌, err, str_eq, eq_iff, Time, arith, Bool-cases,
}
use hydra_db.Body.Envelope.{Envelope, Identity, Json}
use hydra_db.Execution.Job.{Ref, new_job}
use hydra_db.Execution.Plane.{submit}
use hydra_db.Memory.Types.{Floats, memory_exists, new_memory}
use hydra_db.Memory.InMemory.{write as write_memory}
use hydra_db.Policy.{Engine, AuditEntry, check_permission, audit, perm_execute_task}
use hydra_db.Policy.Permissions.{Holds, check_permission_iff}
use hydra_db.Server.{
  TaskRequest, StoreRequest, permission_denied, store_failed, actor_of, Fields, Server, handle_task,
  memory_of, handle_store,
}

-- The entry that a request leaves in the audit log.
abbrev pub decision : Time → Envelope → Identity → (action : String) → Bool → String → AuditEntry
decision now env actor action allowed reason = record {
  id = "";
  trace_id = env.trace_id;
  actor_id = actor.id;
  action = action;
  allowed = allowed;
  reason = reason;
  timestamp = now;
}

pub refused_by :
    (names : List String) (perm : String) (e : Engine)
    → ¬ Holds e.roles names perm
    → check_permission names perm e ≡ false
refused_by names perm e lacks = elim (Bool-cases (check_permission names perm e)) [
  | inl granted ↦ absurd (lacks ((check_permission_iff names perm e).0 granted))
  | inr denied ↦ denied
]

module _ {fl : Floats} (fields : Json Fields) (now : Time) (decode : String → Option TaskRequest)
    (uuid id trace : String) (job : Ref) (env : Envelope) (req : TaskRequest) (s : Server fl)
    (read : decode env.payload ≡ some req) where
  -- A task of an actor none of whose roles is registered with "task:execute" is refused: no job is
  -- submitted, nothing but the audit log changes, and that gains the refusal.
  pub handle_task_refused :
      ¬ Holds s.policy.roles (actor_of req.actor).roles perm_execute_task
      → let (s', reply) = handle_task fields now decode uuid id trace job env s in
        (reply ≡ err (permission_denied "task:execute"))
        × (s'.plane ≡ s.plane)
        × (s'.memory ≡ s.memory)
        × (s'.bus ≡ s.bus)
        × (s'.policy ≡ record s.policy {
          entries =
              s.policy.entries
              ++ decision now env (actor_of req.actor) "task" false "permission denied" ∷ [];
        })
  unfolding handle_task audit
  handle_task_refused lacks =
      rw (read, refused_by (actor_of req.actor).roles perm_execute_task s.policy lacks, handle_task)
        (refl, refl, refl, refl, refl)

  -- A task of an actor with the permission is audited as allowed, and its job is registered under
  -- its identifier, whether or not the queue then takes it.
  pub handle_task_allowed :
      Holds s.policy.roles (actor_of req.actor).roles perm_execute_task
      → let s' = (handle_task fields now decode uuid id trace job env s).0 in
        (s'.plane.jobs uuid ≡ some job)
        × (s'.plane.heap job ≡ new_job uuid now req.type req.payload [])
        × (s'.policy ≡ record s.policy {
          entries =
              s.policy.entries ++ decision now env (actor_of req.actor) "task" true "allowed" ∷ [];
        })
  unfolding handle_task audit submit new_job
  handle_task_allowed holds =
      rw
        (
          read,
          (check_permission_iff (actor_of req.actor).roles perm_execute_task s.policy).1 holds,
          handle_task,
        )
        (ground (arith, eq_iff uuid uuid), ground arith, refl)

  -- A task that names no actor is refused, whatever roles are registered: the actor that stands in
  -- for it has no role.
  pub handle_task_anonymous :
      req.actor.id ≡ ""
      → (handle_task fields now decode uuid id trace job env s).1
        ≡ err (permission_denied "task:execute")
  handle_task_anonymous unnamed =
      (handle_task_refused (λ h. no_role (rw ((eq_iff req.actor.id "").1 unnamed) at h))).0
    where
      no_role : ¬ Holds s.policy.roles [] perm_execute_task
      no_role h = elim h.named [ ]

-- A request to store is kept under the new identifier, if that was free, as a record with its content,
-- its tags, full confidence and the time of the request; its type, its actor and its tenant are
-- "semantic", "anonymous" and "default" where the request names none. Else the request fails. The
-- other records, the policy engine and the plane are left alone.
pub handle_store-write :
    {fl : Floats} (fields : Json Fields) (now : Time) (decode : String → Option StoreRequest)
    (uuid id trace other : String) (env : Envelope) (req : StoreRequest) (s : Server fl)
    → decode env.payload ≡ some req
    → let (s', reply) = handle_store fields now decode uuid id trace env s in
      ((s.memory uuid ≡ none)
          × (s'.memory uuid
              ≡ some (record {
                id = uuid;
                type = if str_eq req.memory_type "" then "semantic" else req.memory_type;
                content = req.content;
                tags = req.tags;
                confidence = fl.one;
                actor_id = if str_eq req.actor_id "" then "anonymous" else req.actor_id;
                tenant_id = if str_eq req.tenant_id "" then "default" else req.tenant_id;
                metadata = empty;
                created_at = now;
                accessed_at = now;
                expires_at = zero_time;
              }))
        ⊎ (s.memory uuid ≢ none)
          × (reply ≡ some (err (store_failed (memory_exists uuid))))
          × (s'.memory uuid ≡ s.memory uuid))
      × ((str_eq uuid other ≡ true) ⊎ (s'.memory other ≡ s.memory other))
      × (s'.policy ≡ s.policy)
      × (s'.plane ≡ s.plane)
unfolding handle_store write_memory memory_of new_memory
handle_store-write fields now decode uuid id trace other env req s read =
    ground (arith, eq_iff uuid uuid)
