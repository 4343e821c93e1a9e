-- ===== src/Tools/Sandboxed/Timeouts.antt =====
-- How long the code executor waits for the sandbox.
use agentis_backend.Prelude.{
  Bool-cases, inl, inr, leb, ℕ, String, ◌≡◌, refl, ap, Option, none, some, ◌≤◌, arith,
}
use agentis_backend.PyText.{◌⧺◌}
use agentis_backend.Orchestrator.State.{ℤ, pos, negsuc}
use agentis_backend.Config.{Settings}
use agentis_backend.Json.{Json, Fields, obj}
use agentis_backend.Tools.Registry.{returned}
use agentis_backend.Tools.Sandboxed.{
  Posted, Remote, answer, call, to_result, action_of, set_field, run_code, code_executor, num_of,
  at_most_120, plus_15,
}

abbrev pub IsAtMost135 : ℤ → Type 0
IsAtMost135 (pos n) = n ≤ 135
IsAtMost135 (negsuc n) = Unit

plus_15-IsAtMost135 : (asked : ℤ) → IsAtMost135 (plus_15 (at_most_120 asked))
plus_15-IsAtMost135 (pos n) = omega arith
plus_15-IsAtMost135 (negsuc n) = elim (Bool-cases (leb n 14)) [
  | inl e ↦ rw e (omega arith)
  | inr e ↦ rw e tt
]

-- The two posts agree on every request whose timeout is at most 135 seconds.
abbrev pub AgreeTo135 :
    (p q : (url method : String) → (params : Json) → (id : ℕ) → (timeout : ℤ) → Posted) → Type 0
AgreeTo135 p q =
    (url method : String) (params : Json) (id : ℕ) (timeout : ℤ)
    → IsAtMost135 timeout
    → p url method params id timeout ≡ q url method params id timeout

module _ (remote : Remote)
    (post : (url method : String) → (params : Json) → (id : ℕ) → (timeout : ℤ) → Posted) where
  run_code_eq :
      (endpoint : String) (params : Fields) (asked : Option ℤ)
      → AgreeTo135 remote.post post
      → run_code remote endpoint params asked
        ≡ run_code (record remote { post = post }) endpoint params asked
  unfolding call to_result set_field
  run_code_eq endpoint params none h = refl
  run_code_eq endpoint params (some asked) h =
      ap (λ p. returned (to_result remote (answer p)))
        (h (endpoint ⧺ "/rpc") ("code_executor." ⧺ action_of remote params)
          (obj (set_field remote "timeout_s" (num_of (at_most_120 asked)) params)) 1
          (plus_15 (at_most_120 asked)) (plus_15-IsAtMost135 asked))

  -- Whatever timeout the parameters or the settings ask for, negative ones included, the code executor sends no
  -- request with a timeout of more than 135 seconds: its result is the same for any two posts that agree on the
  -- requests whose timeout is no longer.
  pub code_executor_waits :
      (cfg : Settings) (endpoint : String) (params : Fields)
      → AgreeTo135 remote.post post
      → code_executor remote cfg endpoint params
        ≡ code_executor (record remote { post = post }) cfg endpoint params
  unfolding code_executor
  code_executor_waits cfg endpoint params h = run_code_eq endpoint params _ h
