-- ===== src/Policy.antt =====
-- The policy head (internal/policy/engine.go): roles and permissions, budgets, tool access, and the
-- audit log. Each method holds the engine's lock, so it is one function from state to state.
pub mod Permissions
pub mod Budgets
pub mod Log
mod Examples
use hydra_db.Base.{
  ℕ, String, Bool, true, false, ◌&&◌, ◌||◌, not, Option, none, some, List, [], ◌∷◌, ◌++◌, ℤ, pos,
  ltb_ℤ, leb_ℤ, sub_int, if◌then◌else◌, Time, zero_time, is_zero, before, GoMap, empty, put, str_eq,
  str_mem, length,
}
use hydra_db.Body.Config.{PolicyConfig}

abbrev pub Permission : Type 0
Permission = String

abbrev pub perm_create_agent : Permission
perm_create_agent = "agent:create"

abbrev pub perm_execute_task : Permission
perm_execute_task = "task:execute"

abbrev pub perm_read_memory : Permission
perm_read_memory = "memory:read"

abbrev pub perm_write_memory : Permission
perm_write_memory = "memory:write"

abbrev pub perm_admin_all : Permission
perm_admin_all = "admin:all"

pub record Role : Type 0 where
  pub name : String
  pub permissions : List Permission

pub record BudgetEntry : Type 0 where
  pub actor_id : String
  pub tenant_id : String
  pub remaining : ℤ
  pub max_budget : ℤ

pub record AuditEntry : Type 0 where
  pub id : String
  pub trace_id : String
  pub actor_id : String
  pub action : String
  pub allowed : Bool
  pub reason : String
  pub timestamp : Time

pub record AuditFilter : Type 0 where
  pub trace_id : String
  pub actor_id : String
  pub allowed : Option Bool
  pub since : Time
  pub limit : ℤ

pub data PolicyError : Type 0 where
  role_registered : String → PolicyError
  no_budget : String → PolicyError
  insufficient_budget : (have need : ℤ) → PolicyError

-- No method of the engine reads its configuration.
pub record Engine : Type 0 where
  pub config : PolicyConfig
  pub roles : GoMap Role
  pub budgets : GoMap BudgetEntry
  pub allowed_tools : GoMap (List String)
  pub entries : List AuditEntry

unfoldable pub new_engine : PolicyConfig → Engine
new_engine config = record {
  config = config;
  roles = empty;
  budgets = empty;
  allowed_tools = empty;
  entries = [];
}

abbrev pub default_roles : List Role
default_roles =
    record {
      name = "admin";
      permissions =
          perm_create_agent ∷ perm_execute_task ∷ perm_read_memory ∷ perm_write_memory
          ∷ perm_admin_all ∷ [];
    }
    ∷ record {
      name = "agent";
      permissions =
          perm_create_agent ∷ perm_execute_task ∷ perm_read_memory ∷ perm_write_memory ∷ [];
    }
    ∷ record { name = "human"; permissions = perm_execute_task ∷ perm_read_memory ∷ [] }
    ∷ record { name = "readonly"; permissions = perm_read_memory ∷ [] }
    ∷ []

install : List Role → GoMap Role → GoMap Role
install [] roles = roles
install (r ∷ rs) roles = install rs (put r.name r roles)

unfoldable pub start : Engine → Engine
unfolding install
start e = record e { roles = install default_roles e.roles }

unfoldable pub register_role : Role → Engine → Engine × Option PolicyError
register_role role e = elim (e.roles role.name) [
  | some old ↦ (e, some (role_registered role.name))
  | none ↦ (record e { roles = put role.name role e.roles }, none)
]

grants : Option Role → Permission → Bool
grants none perm = false
grants (some role) perm = str_mem perm role.permissions

any_grants : GoMap Role → List String → Permission → Bool
unfolding grants
any_grants roles [] perm = false
any_grants roles (name ∷ names) perm = grants (roles name) perm || any_grants roles names perm

-- The names of the actor's roles stand for the actor. The error that the method returns beside the
-- result is always nil.
unfoldable pub check_permission : List String → Permission → Engine → Bool
unfolding any_grants
check_permission actor_roles perm e = any_grants e.roles actor_roles perm

unfoldable pub check_budget : String → Engine → Bool
check_budget actor_id e = elim (e.budgets actor_id) [
  | none ↦ true
  | some entry ↦ ltb_ℤ (pos 0) entry.remaining
]

unfoldable pub consume_budget : String → ℤ → Engine → Engine × Option PolicyError
consume_budget actor_id amount e = elim (e.budgets actor_id) [
  | none ↦ (e, some (no_budget actor_id))
  | some entry ↦
      if ltb_ℤ entry.remaining amount
      then (e, some (insufficient_budget entry.remaining amount))
      else (
        record e {
          budgets =
              put actor_id (record entry { remaining = sub_int entry.remaining amount }) e.budgets;
        },
        none,
      )
]

unfoldable pub set_budget : (actor_id tenant_id : String) → ℤ → Engine → Engine
set_budget actor_id tenant_id max_budget e = record e {
  budgets =
      put actor_id
        (record {
          actor_id = actor_id;
          tenant_id = tenant_id;
          remaining = max_budget;
          max_budget = max_budget;
        })
        e.budgets;
}

unfoldable pub check_tool_access : (actor_id tool_name : String) → Engine → Bool
check_tool_access actor_id tool_name e = elim (e.allowed_tools actor_id) [
  | none ↦ true
  | some allowed ↦ str_mem tool_name allowed
]

unfoldable pub set_tool_allow_list : String → List String → Engine → Engine
set_tool_allow_list actor_id tools e = record e {
  allowed_tools = put actor_id tools e.allowed_tools;
}

unfoldable pub audit :
    (now : Time) → (trace_id actor_id action : String) → Bool → String → Engine → Engine
audit now trace_id actor_id action allowed reason e = record e {
  entries =
      e.entries
      ++ record {
        id = "";
        trace_id = trace_id;
        actor_id = actor_id;
        action = action;
        allowed = allowed;
        reason = reason;
        timestamp = now;
      }
        ∷ [];
}

bool_eq : Bool → Bool → Bool
bool_eq true b = b
bool_eq false b = not b

-- One of the `continue` tests holds.
pub skips : AuditFilter → AuditEntry → Bool
unfolding bool_eq
skips f entry =
    not (str_eq f.trace_id "") && not (str_eq entry.trace_id f.trace_id)
    || not (str_eq f.actor_id "") && not (str_eq entry.actor_id f.actor_id)
    || (elim f.allowed [ none ↦ false | some b ↦ not (bool_eq entry.allowed b) ])
    || not (is_zero f.since) && before entry.timestamp f.since

query_from : AuditFilter → List AuditEntry → List AuditEntry → List AuditEntry
unfolding skips
query_from f result [] = result
query_from f result (entry ∷ rest) =
    let result' = result ++ entry ∷ [] in
    let skip = query_from f result rest in
    let keep = query_from f result' rest in
    if skips f entry
    then skip
    else if ltb_ℤ (pos 0) f.limit && leb_ℤ f.limit (pos (length result'))
    then result'
    else keep

unfoldable pub query_audit_log : AuditFilter → Engine → List AuditEntry
unfolding query_from
query_audit_log f e = query_from f [] e.entries
