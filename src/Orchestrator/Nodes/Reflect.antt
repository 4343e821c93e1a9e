-- ===== src/Orchestrator/Nodes/Reflect.antt =====
-- app/orchestrator/nodes.py: reflect_node and report_node.
use agentis_backend.Prelude.{
  Option, ℕ, String, true, false, none, some, List, [], ◌∷◌, if◌then◌else◌,
}
use agentis_backend.PyText.{last_chars, ◌⧺◌}
use agentis_backend.Config.{Settings}
use agentis_backend.Http.{Exec, pure, fail, ◌>>=◌, ◌>>◌}
use agentis_backend.Json.{Json, Fields, nil, extract_json, or_empty, get_or, iterate, is_text}
use agentis_backend.Orchestrator.State.{AgentState, Plan, SubTask, done, as_text, system, human, ai}
use agentis_backend.Orchestrator.Events.{plan, reflection, summary, plan_update, reflect, report}
use agentis_backend.Orchestrator.Prompts.{system_with_language, reflect_system, report_system}
use agentis_backend.Orchestrator.Nodes.Run.{
  Env, RunContext, RunState, Update, no_update, emit_step, ask, tokens_of,
}

module _ (cfg : Settings) (env : Env) (ctx : RunContext) where
  -- The inner loop over the subtasks, for one id of "completed_subtask_ids".
  abbrev mark_done : Json → List SubTask → List SubTask
  mark_done sid [] = []
  mark_done sid (st ∷ rest) =
      (if is_text sid st.id then record st { status = done } else st) ∷ mark_done sid rest

  abbrev mark_all : List Json → List SubTask → List SubTask
  mark_all [] subtasks = subtasks
  mark_all (sid ∷ rest) subtasks = mark_all rest (mark_done sid subtasks)

  abbrev pub current_plan : AgentState → Plan
  current_plan st = elim st.plan [ none ↦ record { goal = st.goal; subtasks = [] } | some p ↦ p ]

  abbrev reflect_context : AgentState → String
  reflect_context st =
      "Goal: "
      ⧺ st.goal
      ⧺ "\nPlan: "
      ⧺ env.dump_plan st.plan
      ⧺ "\nLatest observations:\n"
      ⧺ last_chars 2000 st.scratchpad

  -- What reflect_node does with the parsed answer, its confidence as a float and its ids as a sequence.
  unfoldable pub assess_with :
      AgentState → (tokens : ℕ) → Fields → Option String → Option (List Json) → Exec RunState Update
  unfolding emit_step
  assess_with st tokens parsed none ids = fail "ValueError"
  assess_with st tokens parsed (some confidence) none = fail "TypeError"
  assess_with st tokens parsed (some confidence) (some ids) = do
    let decision = get_or "decision" (Json.str "continue") parsed
    let old = current_plan st
    let p = record old { subtasks = mark_all ids old.subtasks }
    emit_step ctx (record {
      step_type = reflect;
      content = reflection confidence decision (get_or "note" (Json.str "") parsed);
      tokens_used = tokens;
      duration_ms = none;
      sse_type = none;
    })
    emit_step ctx (record {
      step_type = plan_update;
      content = plan p;
      tokens_used = 0;
      duration_ms = none;
      sse_type = some "plan_updated";
    })
    pure (record no_update {
      confidence = some confidence;
      plan = some p;
      reflect_decision = some decision;
    })

  unfoldable pub assess : AgentState → (tokens : ℕ) → Fields → Exec RunState Update
  unfolding assess_with
  assess st tokens parsed =
      assess_with st tokens parsed
        (env.to_float (get_or "confidence" (Json.num false "0.5") parsed))
        (iterate (get_or "completed_subtask_ids" (Json.arr nil) parsed))

  unfoldable pub reflect_node : AgentState → Exec RunState Update
  unfolding ask assess
  reflect_node st = do
    resp ← ask env [] (system reflect_system ∷ human (reflect_context st) ∷ [])
    assess st (tokens_of env resp) (or_empty (extract_json env.loads (as_text resp.0)))

  abbrev report_context : AgentState → String
  report_context st =
      let seen = "Goal: " ⧺ st.goal ⧺ "\nObservations:\n" ⧺ last_chars 4000 st.scratchpad in
      if st.partial
      then seen ⧺ "\n\nNOTE: Token budget reached — produce a PARTIAL report of progress so far."
      else seen

  unfoldable pub report_node : AgentState → Exec RunState Update
  unfolding ask emit_step
  report_node st = do
    let sys = system_with_language report_system st.language ""
    resp ← ask env [] (system sys ∷ human (report_context st) ∷ [])
    emit_step ctx (record {
      step_type = report;
      content = summary (as_text resp.0);
      tokens_used = tokens_of env resp;
      duration_ms = none;
      sse_type = some "task_completed";
    })
    pure (record no_update {
      done = some true;
      result_summary = some (as_text resp.0);
      messages = some (ai resp.0 resp.1 ∷ []);
    })
