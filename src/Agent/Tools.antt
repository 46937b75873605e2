-- ===== src/Agent/Tools.antt =====
-- internal/agent/tool.go: the registry of tools. A tool is named; `T` is what else it is.
pub mod Records
pub mod Completion
pub mod TdbSearch
pub mod HttpRequest
use hydra_db.Base.{
  String, ◌≡◌, Option, none, some, Outcome, ok, err, GoMap, empty, put, arith, eq_iff, List, map,
}

pub record Tool (T : Type 0) : Type 0 where
  pub name : String
  pub execute : T

pub data ToolError : Type 0 where
  tool_registered : String → ToolError
  tool_not_found : String → ToolError

abbrev pub ToolRegistry : Type 0 → Type 0
ToolRegistry T = GoMap (Tool T)

module _ {T : Type 0} where
  unfoldable pub new_tool_registry : ToolRegistry T
  new_tool_registry = empty

  unfoldable pub register : Tool T → ToolRegistry T → ToolRegistry T × Option ToolError
  register tool r = elim (r tool.name) [
    | some old ↦ (r, some (tool_registered tool.name))
    | none ↦ (put tool.name tool r, none)
  ]

  unfoldable pub get : String → ToolRegistry T → Outcome ToolError (Tool T)
  get name r = elim (r name) [ none ↦ err (tool_not_found name) | some t ↦ ok t ]

  -- `List`, for the order of the visit.
  abbrev pub list : List (String × Tool T) → List String
  list order = map (λ (e : String × Tool T). e.0) order

  -- A tool registered under a free name is what that name yields, also after any later registration;
  -- one under the same name is refused and changes nothing.
  pub get-register :
      (tool other : Tool T) (r : ToolRegistry T)
      → get tool.name r ≡ err (tool_not_found tool.name)
      → let r' = (register tool r).0 in
        ((register tool r).1 ≡ none)
        × (get tool.name r' ≡ ok tool)
        × (get tool.name (register other r').0 ≡ ok tool)
        × (register (record other { name = tool.name }) r' ≡ (r', some (tool_registered tool.name)))
  unfolding get register
  get-register tool other r free =
      ground (
        arith,
        eq_iff tool.name tool.name,
        eq_iff tool.name other.name,
        eq_iff other.name tool.name,
      )
