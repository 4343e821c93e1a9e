-- ===== src/Tools/BuiltIn.antt =====
-- The tools of app/tools with their names, descriptions and schemas, and app/tools/init_registry.py.
pub mod Once
use agentis_backend.Prelude.{ℕ, String, Bool, true, false, Option, none, some, List, [], ◌∷◌}
use agentis_backend.PyText.{◌⧺◌}
use agentis_backend.Config.{Settings}
use agentis_backend.Http.{crash}
use agentis_backend.Json.{Json, Fields, Items, nil, cons, num, str, arr, obj, end, field}
use agentis_backend.Tools.Registry.{Tool, Registry, Executed, raised, register}
use agentis_backend.Tools.Sandboxed.{Remote, browser, code_executor, file_system}
use agentis_backend.Tools.WebSearch.{Web, web_search}

abbrev texts : List String → Items
texts [] = nil
texts (s ∷ rest) = cons (str s) (texts rest)

abbrev typed : String → Fields → Json
typed type more = obj (field "type" (str type) more)

abbrev enum : List String → Fields → Fields
enum values more = field "enum" (arr (texts values)) more

-- {"type": "object", "properties": …, "required": […]}
abbrev schema : Fields → String → Json
schema properties required =
    typed "object"
      (field "properties" (obj properties) (field "required" (arr (cons (str required) nil)) end))

abbrev browser_schema : Json
browser_schema =
    schema
      (field "action"
        (typed "string" (
          enum
            ("navigate" ∷ "click" ∷ "fill" ∷ "extract_text" ∷ "screenshot" ∷ "find_links"
              ∷ "wait_for_selector" ∷ "scroll" ∷ [])
            end))
        (field "url" (typed "string" end)
          (field "selector" (typed "string" end) (field "value" (typed "string" end) end))))
      "action"

abbrev code_executor_schema : Json
code_executor_schema =
    schema
      (field "action" (typed "string" (enum ("run_python" ∷ "run_node" ∷ "run_bash" ∷ []) end)) (
        field "code" (typed "string" end) (
          field "command" (typed "string" end)
            (field "timeout_s" (typed "integer" (field "default" (num false "120") end)) end))))
      "action"

abbrev file_system_schema : Json
file_system_schema =
    schema
      (field "action"
        (typed "string"
          (enum ("write" ∷ "read" ∷ "list" ∷ "delete" ∷ "copy" ∷ "compress" ∷ []) end))
        (field "path" (typed "string" end) end))
      "action"

abbrev web_search_schema : Json
web_search_schema =
    schema
      (field "query" (typed "string" end) (
        field "num_results"
          (typed "integer"
            (field "default" (num false "10") (field "maximum" (num false "20") end)))
          (field "language"
            (typed "string" (enum ("en" ∷ "fr" ∷ []) (field "default" (str "en") end)))
            (field "time_range" (typed "string" (enum ("day" ∷ "week" ∷ "month" ∷ "year" ∷ []) end))
              end))))
      "query"

-- The parameters of a call are a dictionary.
abbrev with_fields : (Fields → Executed) → Json → Executed
with_fields execute (obj fields) = execute fields
with_fields execute _ = raised (crash "AttributeError")

-- What the sandbox and the web answer to the n-th call, and the address of the session's sandbox.
pub record Network : Type 0 where
  pub remote : ℕ → Remote
  pub web : ℕ → Web
  pub endpoint : String

abbrev pub then_register : Tool → Option Registry → Option Registry
then_register tool none = none
then_register tool (some registry) = register tool registry

module _ (cfg : Settings) (net : Network) where
  -- BrowserTool, CodeExecutorTool, FileSystemTool, WebSearchTool
  abbrev pub browser_tool : Tool
  browser_tool = record {
    name = "browser";
    description =
        "Control a headless Chromium browser running inside the secure sandbox. "
        ⧺ "Navigate URLs, click elements, fill forms, extract text, and take screenshots.";
    input_schema = some browser_schema;
    execute = λ call params. with_fields (browser (net.remote call) net.endpoint) params;
  }

  abbrev pub code_executor_tool : Tool
  code_executor_tool = record {
    name = "code_executor";
    description =
        "Execute Python 3.12, Node.js 22, or Bash code inside the secure sandbox. "
        ⧺ "Generated files in /workspace/outputs/ are captured as artifacts.";
    input_schema = some code_executor_schema;
    execute = λ call params. with_fields (code_executor (net.remote call) cfg net.endpoint) params;
  }

  abbrev pub file_system_tool : Tool
  file_system_tool = record {
    name = "file_system";
    description =
        "Read, write, list, delete, and compress files within the agent's /workspace. "
        ⧺ "All paths are relative to /workspace and must not escape it.";
    input_schema = some file_system_schema;
    execute = λ call params. with_fields (file_system (net.remote call) net.endpoint) params;
  }

  abbrev pub web_search_tool : Tool
  web_search_tool = record {
    name = "web_search";
    description =
        "Search the web for information. Returns ranked results with titles, URLs, and snippets.";
    input_schema = some web_search_schema;
    execute = λ call params. with_fields (web_search cfg (net.web call)) params;
  }

  -- register_all_tools; `none` is the ValueError of a name that is taken.
  unfoldable pub register_all_tools : Registry → Option Registry
  register_all_tools registry = then_register web_search_tool (
      then_register file_system_tool
        (then_register code_executor_tool (register browser_tool registry)))
