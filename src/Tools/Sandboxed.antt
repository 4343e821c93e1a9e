-- ===== src/Tools/Sandboxed.antt =====
-- app/sandbox/rpc_client.py, and the tools that call it: app/tools/code_executor.py, file_system.py,
-- browser.py.
pub mod Timeouts
mod Examples
use agentis_backend.Prelude.{
  ℕ, String, Bool, true, false, Option, none, some, List, str_eq, if◌then◌else◌, min, suc, ◌+◌, ◌-◌,
  ◌==◌, leb,
}
use agentis_backend.PyText.{◌⧺◌, show}
use agentis_backend.Config.{Settings}
use agentis_backend.Orchestrator.State.{ℤ, pos, negsuc}
use agentis_backend.Http.{Failure, crash}
use agentis_backend.Json.{Json, Fields, null, num, str, obj, end, field, get_or}
use agentis_backend.Tools.Registry.{ToolResult, Executed, returned, raised}

-- What posting a request comes to: the body of an answer without an HTTP error, or the text of an exception of
-- the HTTP library or of the JSON decoder.
pub data Posted : Type 0 where
  body : Fields → Posted
  lost : (error : String) → Posted

-- What the client and the tools call outside: the HTTP post of a request with its timeout in seconds,
-- which is that of each of its waits, Python's
-- str and int of a JSON value (none is an exception), and whether a value is equal to -32000.
pub record Remote : Type 0 where
  pub post : (url method : String) → (params : Json) → (id : ℕ) → (timeout : ℤ) → Posted
  pub str_json : Json → String
  pub int_json : Json → Option ℤ
  pub is_timeout : Json → Bool

-- What `call` returns or raises.
pub data Called : Type 0 where
  result : Json → Called
  rpc_error : (code : Json) → (message : Json) → Called
  other_error : (text : String) → Called

-- key in fields
unfoldable pub has_key : String → Fields → Bool
has_key key end = false
has_key key (field k v rest) = if str_eq k key then true else has_key key rest

-- The "error" of a body: a value that is no object has no `get`.
abbrev pub error_of : Json → Called
error_of (obj e) =
    rpc_error (get_or "code" (num false "-1") e) (get_or "message" (str "Unknown error") e)
error_of _ = other_error "AttributeError"

unfoldable pub answer : Posted → Called
answer (lost error) = other_error error
answer (body fields) =
    if has_key "error" fields
    then error_of (get_or "error" null fields)
    else result (get_or "result" (obj end) fields)

-- A number as JSON has it.
abbrev pub num_of : ℤ → Json
num_of (pos n) = num (n == 0) (show n)
num_of (negsuc n) = num false ("-" ⧺ show (suc n))

-- min(n, 120)
abbrev pub at_most_120 : ℤ → ℤ
at_most_120 (pos n) = pos (min n 120)
at_most_120 (negsuc n) = negsuc n

-- n + 15
abbrev pub plus_15 : ℤ → ℤ
plus_15 (pos n) = pos (n + 15)
plus_15 (negsuc n) = if leb n 14 then pos (14 - n) else negsuc (n - 15)

module _ (remote : Remote) where
  -- SandboxRpcClient.call, the first of its client. The endpoint has no slash at its end.
  unfoldable pub call : (endpoint : String) → (timeout : ℤ) → (method : String) → Json → Called
  call endpoint timeout method params =
      answer (remote.post (endpoint ⧺ "/rpc") method params 1 timeout)

  abbrev pub failed_with : String → Bool → ToolResult
  failed_with error retryable = record {
    ok = false;
    data_value = obj end;
    error = some error;
    retryable = retryable;
  }

  -- The `try` that the three tools share.
  unfoldable pub to_result : Called → ToolResult
  to_result (result value) = record {
    ok = true;
    data_value = value;
    error = none;
    retryable = false;
  }
  to_result (rpc_error code message) =
      failed_with (remote.str_json message) (remote.is_timeout code)
  to_result (other_error text) = failed_with text true

  -- params.get("action"), as it is printed into the method
  abbrev pub action_of : Fields → String
  action_of params = remote.str_json (get_or "action" null params)

  -- FileSystemTool.execute, with the client's own timeout
  unfoldable pub file_system : (endpoint : String) → Fields → Executed
  file_system endpoint params =
      returned
        (to_result (call endpoint (pos 130) ("file_system." ⧺ action_of params) (obj params)))

  -- BrowserTool.execute
  unfoldable pub browser : (endpoint : String) → Fields → Executed
  browser endpoint params =
      returned (to_result (call endpoint (pos 60) ("browser." ⧺ action_of params) (obj params)))

  -- rpc_params["timeout_s"] = timeout
  unfoldable pub set_field : String → Json → Fields → Fields
  set_field key v end = field key v end
  set_field key v (field k old rest) =
      let later = set_field key v rest in if str_eq k key then field k v rest else field k old later

  abbrev pub run_code : (endpoint : String) → Fields → Option ℤ → Executed
  run_code endpoint params none = raised (crash "ValueError")
  run_code endpoint params (some asked) =
      let timeout = at_most_120 asked in
      returned (
        to_result (
          call endpoint (plus_15 timeout) ("code_executor." ⧺ action_of params)
            (obj (set_field "timeout_s" (num_of timeout) params))))

  -- CodeExecutorTool.execute: the conversion of the timeout stands before the `try`.
  unfoldable pub code_executor : Settings → (endpoint : String) → Fields → Executed
  code_executor cfg endpoint params =
      run_code endpoint params
        (remote.int_json (get_or "timeout_s" (num_of cfg.code_executor_timeout_s) params))
