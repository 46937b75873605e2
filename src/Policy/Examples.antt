-- ===== src/Policy/Examples.antt =====
-- internal/policy/engine.go: the theorems at concrete inputs.
use hydra_db.Base.{ℕ, ◌+◌, ◌≡◌, ◌↔◌, refl, true, some, List, [], ◌∷◌, arith, pos, put, empty}
use hydra_db.Policy.{
  Role, BudgetEntry, AuditEntry, AuditFilter, Engine, check_permission, perm_admin_all,
}
use hydra_db.Policy.Permissions.{Holds, check_permission_iff}
use hydra_db.Policy.Budgets.{Request, spend, spend-remaining}

abbrev operator : Role
operator = record { name = "operator"; permissions = perm_admin_all ∷ [] }

abbrev budget : BudgetEntry
budget = record { actor_id = "ana"; tenant_id = "t"; remaining = pos 10; max_budget = pos 10 }

abbrev entry : AuditEntry
entry = record {
  id = "";
  trace_id = "t1";
  actor_id = "ana";
  action = "task.submit";
  allowed = true;
  reason = "";
  timestamp = 7;
}

abbrev engine : Engine
engine = record {
  config = record { default_budget = pos 100; rate_limit = pos 10 };
  roles = put "operator" operator empty;
  budgets = put "ana" budget empty;
  allowed_tools = empty;
  entries = entry ∷ [];
}

check_permission_iff_example :
    (check_permission ("operator" ∷ []) "admin:all" engine ≡ true)
    ↔ Holds engine.roles ("operator" ∷ []) "admin:all"
check_permission_iff_example = check_permission_iff ("operator" ∷ []) "admin:all" engine

abbrev requests : List Request
requests =
    record { actor = "ana"; amount = 7 }
    ∷ record { actor = "bob"; amount = 1 }
    ∷ record { actor = "ana"; amount = 4 }
    ∷ []

spend-remaining_example :
    let (e', granted) = spend "ana" requests engine in
    (left : ℕ) × (e'.budgets "ana" ≡ some (record budget { remaining = pos left }))
    × (granted + left ≡ 10)
spend-remaining_example = spend-remaining "ana" requests engine budget 10 refl (omega arith)

abbrev filter1 : AuditFilter
filter1 = record { trace_id = ""; actor_id = "ana"; allowed = some true; since = 3; limit = pos 1 }
