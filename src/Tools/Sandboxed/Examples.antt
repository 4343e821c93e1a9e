-- ===== src/Tools/Sandboxed/Examples.antt =====
-- The theorems about the tools of the sandbox at concrete inputs.
use agentis_backend.Prelude.{ℕ, String, ◌≡◌, refl, false, some, leb, if◌then◌else◌, arith}
use agentis_backend.Orchestrator.State.{ℤ, pos, negsuc}
use agentis_backend.Config.{defaults}
use agentis_backend.Json.{Json, Fields, num, end, field}
use agentis_backend.Tools.Sandboxed.{Posted, body, lost, Remote, code_executor}
use agentis_backend.Tools.Sandboxed.Timeouts.{AgreeTo135, code_executor_waits}

abbrev patient : (url method : String) → (params : Json) → (id : ℕ) → (timeout : ℤ) → Posted
patient url method params id timeout = body end

abbrev hasty : (url method : String) → (params : Json) → (id : ℕ) → (timeout : ℤ) → Posted
hasty url method params id (pos timeout) = if leb timeout 135 then body end else lost "ReadTimeout"
hasty url method params id (negsuc n) = body end

abbrev remote : Remote
remote = record {
  post = patient;
  str_json = λ j. "run_python";
  int_json = λ j. some (pos 900);
  is_timeout = λ j. false;
}

agree : AgreeTo135 patient hasty
agree url method params id (pos timeout) h = ground arith
agree url method params id (negsuc n) h = refl

abbrev params : Fields
params = field "timeout_s" (num false "900") end

code_executor_waits_example :
    code_executor remote defaults "http://10.0.0.2:9999" params
    ≡ code_executor (record remote { post = hasty }) defaults "http://10.0.0.2:9999" params
code_executor_waits_example =
    code_executor_waits remote hasty defaults "http://10.0.0.2:9999" params agree
