-- ===== src/Tools/Registry.antt =====
-- app/tools/base.py, app/tools/registry.py and app/orchestrator/tools_adapter.py.
use agentis_backend.Http.{Failure}
use agentis_backend.Prelude.{
  ℕ, String, Bool, Option, none, some, List, [], ◌∷◌, ◌++◌, map, str_eq, if◌then◌else◌, any, select,
}
use agentis_backend.Json.{Json}

pub record ToolResult : Type 0 where
  pub ok : Bool
  pub data_value : Json
  pub error : Option String
  pub retryable : Bool

-- `execute` returns a result, or raises what it does not catch.
pub data Executed : Type 0 where
  returned : ToolResult → Executed
  raised : Failure → Executed

-- A concrete tool. What its execution meets outside is the number of the call.
pub record Tool : Type 0 where
  pub name : String
  pub description : String
  pub input_schema : Option Json
  pub execute : (call : ℕ) → (params : Json) → Executed

-- ToolRegistry: the tools by name, in the order of their registration.
abbrev pub Registry : Type 0
Registry = List Tool

-- ToolRegistry.register; `none` is the ValueError of a name that is taken.
unfoldable pub register : Tool → Registry → Option Registry
register tool registry =
    if any (λ t. str_eq t.name tool.name) registry then none else some (registry ++ tool ∷ [])

-- ToolRegistry.get
unfoldable pub get : String → Registry → Option Tool
get name [] = none
get name (t ∷ rest) = if str_eq t.name name then some t else get name rest

-- ToolRegistry.list_names
unfoldable pub list_names : Registry → List String
list_names registry = map (λ t. t.name) registry

-- filter_tools
unfoldable pub filter_tools : Registry → Option (List String) → List Tool
unfolding select
filter_tools registry none = registry
filter_tools registry (some allowed) = select (λ t. any (λ a. str_eq a t.name) allowed) registry

pub record ToolSchema : Type 0 where
  pub name : String
  pub description : String
  pub input_schema : Option Json

-- build_tool_schemas. A missing schema stands for {"type": "object", "properties": {}}.
unfoldable pub build_tool_schemas : Registry → Option (List String) → List ToolSchema
unfolding filter_tools
build_tool_schemas registry allowed =
    map (λ t. record { name = t.name; description = t.description; input_schema = t.input_schema })
      (filter_tools registry allowed)
