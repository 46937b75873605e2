-- ===== src/Policy/Permissions.antt =====
-- internal/policy/engine.go: who may do what.
use hydra_db.Base.{
  String, ◌≡◌, ◌≢◌, ◌↔◌, ◌⊎◌, inl, inr, refl, sym, Bool, true, false, none, some, List, [], ◌∷◌,
  Memᴰ, arith, Bool-cases, Option-cases, GoMap, str_eq, str_mem, eq_iff, if◌then◌else◌,
}
use hydra_db.Policy.{
  Permission, Role, Engine, role_registered, new_engine, start, register_role, grants, any_grants,
  check_permission, check_tool_access, set_tool_allow_list, perm_admin_all, perm_create_agent,
  perm_execute_task, perm_read_memory, perm_write_memory,
}

pub str_mem→Memᴰ : (s : String) (xs : List String) → str_mem s xs ≡ true → Memᴰ s xs
str_mem→Memᴰ s [] h = cc
str_mem→Memᴰ s (x ∷ xs) h = elim (Bool-cases (str_eq x s)) [
  | inl e ↦ Memᴰ.head (sym ((eq_iff x s).0 e))
  | inr e ↦ Memᴰ.tail (str_mem→Memᴰ s xs (rw e at h))
]

pub Memᴰ→str_mem : {s : String} {xs : List String} → Memᴰ s xs → str_mem s xs ≡ true
Memᴰ→str_mem {s} (Memᴰ.head {x = x} e) = rw ((eq_iff x s).1 (sym e))
Memᴰ→str_mem (Memᴰ.tail m) = ground (arith, Memᴰ→str_mem m)

-- One of the named roles is registered and has the permission.
pub record Holds (roles : GoMap Role) (names : List String) (perm : Permission) : Type 0 where
  pub name : String
  pub role : Role
  pub named : Memᴰ name names
  pub registered : roles name ≡ some role
  pub granted : Memᴰ perm role.permissions

Holds-cons :
    {roles : GoMap Role} {n : String} {names : List String} {perm : Permission}
    → Holds roles names perm
    → Holds roles (n ∷ names) perm
Holds-cons h = record {
  name = h.name;
  role = h.role;
  named = Memᴰ.tail h.named;
  registered = h.registered;
  granted = h.granted;
}

any_grants→Holds :
    (roles : GoMap Role) (names : List String) (perm : Permission)
    → any_grants roles names perm ≡ true
    → Holds roles names perm
unfolding any_grants
any_grants→Holds roles [] perm h = cc
any_grants→Holds roles (n ∷ names) perm h = elim (Bool-cases (grants (roles n) perm)) [
  | inr e ↦ Holds-cons (any_grants→Holds roles names perm (rw e at h))
  | inl e ↦ elim (Option-cases (roles n)) [
    | inl missing ↦ absurd (ground arith)
    | inr (role, found) ↦ record {
      name = n;
      role = role;
      named = Memᴰ.head refl;
      registered = found;
      granted = str_mem→Memᴰ perm role.permissions (ground arith);
    }
  ]
]

any_grants-mem :
    (roles : GoMap Role) {name : String} {names : List String} (perm : Permission)
    → Memᴰ name names
    → grants (roles name) perm ≡ true
    → any_grants roles names perm ≡ true
unfolding any_grants
any_grants-mem roles perm (Memᴰ.head e) g = rw (← e) (rw g)
any_grants-mem roles perm (Memᴰ.tail m) g = ground (arith, any_grants-mem roles perm m g)

-- An actor has a permission exactly when one of its roles is registered and lists it.
pub check_permission_iff :
    (names : List String) (perm : Permission) (e : Engine)
    → (check_permission names perm e ≡ true) ↔ Holds e.roles names perm
unfolding check_permission grants
check_permission_iff names perm e = (
  any_grants→Holds e.roles names perm,
  λ h. any_grants-mem e.roles perm h.named (ground (arith, Memᴰ→str_mem h.granted)),
)

-- The built-in roles grant what their names say and nothing else: after the start an actor with one
-- of them has exactly the permissions of that role, and one with none of them has none.
pub start_permissions :
    (perm : Permission) (e : Engine)
    → let may : String → Bool = λ name. check_permission (name ∷ []) perm (start e) in
      (may "admin" ≡ (
        str_mem perm (
          perm_create_agent ∷ perm_execute_task ∷ perm_read_memory ∷ perm_write_memory
          ∷ perm_admin_all ∷ [])))
      × (may "agent" ≡ (
          str_mem perm
            (perm_create_agent ∷ perm_execute_task ∷ perm_read_memory ∷ perm_write_memory ∷ [])))
      × (may "human" ≡ (str_mem perm (perm_execute_task ∷ perm_read_memory ∷ [])))
      × (may "readonly" ≡ str_mem perm (perm_read_memory ∷ []))
unfolding check_permission start
start_permissions perm e = (ground arith, ground arith, ground arith, ground arith)

-- A role that has `admin:all` and nothing else gives no other permission: the check compares names.
pub admin_all_alone :
    (name : String) (perm : Permission) (e : Engine)
    → perm ≢ perm_admin_all
    → (e.roles name ≡ some (record { name = name; permissions = perm_admin_all ∷ [] }))
    → check_permission (name ∷ []) perm e ≡ false
unfolding check_permission
admin_all_alone name perm e other found = ground (arith, eq_iff perm_admin_all perm)

-- A role is registered under a free name only, and the other roles stay as they are.
pub register_role_cases :
    (role : Role) (e : Engine)
    → let (e', error) = register_role role e in
      ((e.roles role.name ≡ none)
        × (error ≡ none)
        × ((name : String)
            → e'.roles name ≡ (if str_eq role.name name then some role else e.roles name)))
      ⊎ ((e.roles role.name ≢ none) × (error ≡ some (role_registered role.name)) × (e' ≡ e))
unfolding register_role
register_role_cases role e = elim (Option-cases (e.roles role.name)) [
  | inl free ↦ inl (free, rw (free, register_role) refl, λ name. rw (free, register_role) refl)
  | inr (old, taken) ↦
      inr (ground arith, rw (taken, register_role) refl, rw (taken, register_role) refl)
]

-- With an allow-list set an actor may use the tools on it and no others, and a list set for one
-- actor does not change what another may use; with no list at all every actor may use every tool.
pub check_tool_access_lem :
    (actor other tool : String) (tools : List String) (e : Engine)
    → let e' = set_tool_allow_list actor tools e in
      (check_tool_access actor tool e' ≡ str_mem tool tools)
      × (check_tool_access other tool e'
          ≡ (if str_eq actor other then str_mem tool tools else check_tool_access other tool e))
      × (check_tool_access other tool (new_engine e.config) ≡ true)
unfolding check_tool_access set_tool_allow_list new_engine
check_tool_access_lem actor other tool tools e =
    (ground (arith, eq_iff actor actor), ground arith, refl)
