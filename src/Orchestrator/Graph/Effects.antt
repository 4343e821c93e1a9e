-- ===== src/Orchestrator/Graph/Effects.antt =====
-- What each node writes, and how many calls of the language model it makes.
use agentis_backend.Prelude.{
  ℕ, String, ◌+◌, ◌≡◌, refl, Option, none, some, true, List, [], ◌∷◌, arith,
}
use agentis_backend.Config.{Settings}
use agentis_backend.Http.Rules.{
  Ensures, Ensures-pure, Ensures-fail, Ensures-bind, Costs, Costs-pure, Costs-fail, Costs-bind,
  Costs-more, Costs-if,
}
use agentis_backend.Json.{Json, Fields, nil, get_or, iterate, or_empty, extract_json}
use agentis_backend.Tools.Registry as Tools
use agentis_backend.Tools.Registry.{ToolSchema}
use agentis_backend.Orchestrator.State.{AgentState, Message, ToolCall, tool_calls_of, as_text}
use agentis_backend.Orchestrator.Events.{Emission}
use agentis_backend.Orchestrator.Nodes.{
  Env, RunContext, RunState, Update, emit_step, ask, plan_from, plan_of, plan_node, think_node,
  act_node, observe_node, reflect_node, report_node, make_room, summarize_messages, run_calls,
  dispatch, run_tool, assess_with, act_on,
}
use agentis_backend.Orchestrator.Graph.{Node, plan, think, act, observe, reflect, report, run_node}

-- What the routers and the end of the run depend on.
abbrev pub Writes : Node → AgentState → Update → Type 0
Writes plan st u = u.iteration ≡ some 0
Writes think st u = u.iteration ≡ some (st.iteration + 1)
Writes report st u = (u.iteration ≡ none) × (u.done ≡ some true)
Writes _ st u = u.iteration ≡ none

abbrev pub calls : RunState → ℕ
calls s = s.llm_calls

-- The calls of the model that a node makes at most.
abbrev pub node_calls : Node → ℕ
node_calls think = 2
node_calls act = 0
node_calls observe = 0
node_calls _ = 1

module _ (cfg : Settings) (env : Env) (ctx : RunContext) where
  act_on-Writes :
      (st : AgentState) (o : Option Message) → Ensures (Writes act st) (act_on cfg env ctx st o)
  unfolding act_on
  act_on-Writes st none = Ensures-fail _
  act_on-Writes st (some m) = Ensures-bind _ _ (λ r. Ensures-pure _ refl)

  assess_with-Writes :
      (st : AgentState) (tokens : ℕ) (parsed : Fields) (c : Option String)
      (ids : Option (List Json))
      → Ensures (Writes reflect st) (assess_with cfg env ctx st tokens parsed c ids)
  unfolding assess_with
  assess_with-Writes st tokens parsed none ids = Ensures-fail _
  assess_with-Writes st tokens parsed (some c) none = Ensures-fail _
  assess_with-Writes st tokens parsed (some c) (some ids) =
      Ensures-bind _ _ (λ k. Ensures-bind _ _ (λ k. Ensures-pure _ refl))

  pub run_node-Writes :
      (n : Node) (st : AgentState) → Ensures (Writes n st) (run_node cfg env ctx n st)
  unfolding run_node plan_node think_node act_node observe_node reflect_node report_node
  run_node-Writes plan st =
      Ensures-bind _ _ (λ resp. Ensures-bind _ _ (λ p. Ensures-bind _ _ (λ k. Ensures-pure _ refl)))
  run_node-Writes think st =
      Ensures-bind _ _ (λ room. Ensures-bind _ _ (λ r. Ensures-bind _ _ (λ k. Ensures-pure _ refl)))
  run_node-Writes act st = act_on-Writes st _
  run_node-Writes observe st = Ensures-pure _ refl
  run_node-Writes reflect st = Ensures-bind _ _ (λ resp. assess_with-Writes st _ _ _ _)
  run_node-Writes report st =
      Ensures-bind _ _ (λ resp. Ensures-bind _ _ (λ k. Ensures-pure _ (refl, refl)))

  Costs-ask : (tools : List ToolSchema) (ms : List Message) → Costs calls 1 (ask env tools ms)
  unfolding ask
  Costs-ask tools ms = record { at = λ s. ground arith }

  Costs-emit_step : (e : Emission) → Costs calls 0 (emit_step ctx e)
  unfolding emit_step
  Costs-emit_step e = record { at = λ s. omega arith }

  Costs-run_tool : (t : Tools.Tool) (args : Json) → Costs calls 0 (run_tool cfg env ctx t args)
  unfolding run_tool
  Costs-run_tool t args = record { at = λ s. ground arith }

  Costs-dispatch : (c : ToolCall) (o : Option Tools.Tool) → Costs calls 0 (dispatch cfg env ctx c o)
  unfolding dispatch
  Costs-dispatch c none = Costs-pure _
  Costs-dispatch c (some t) = Costs-bind _ _ 0 0 (Costs-run_tool t c.args) λ r.
      Costs-bind _ _ 0 0 (record { at = λ s. omega arith })
        λ runs. Costs-bind _ _ 0 0 (Costs-emit_step _) (λ k. Costs-pure _)

  Costs-run_calls :
      (cs : List ToolCall) (failures : ℕ) (ms : List Message)
      → Costs calls 0 (run_calls cfg env ctx cs failures ms)
  unfolding run_calls
  Costs-run_calls [] failures ms = Costs-pure _
  Costs-run_calls (c ∷ rest) failures ms =
      Costs-bind _ _ 0 0 (Costs-emit_step _)
        λ k. Costs-bind _ _ 0 0 (Costs-dispatch c _) (λ r. Costs-run_calls rest _ _)

  Costs-act_on : (st : AgentState) (o : Option Message) → Costs calls 0 (act_on cfg env ctx st o)
  unfolding act_on
  Costs-act_on st none = Costs-fail _
  Costs-act_on st (some m) =
      Costs-bind _ _ 0 0 (Costs-run_calls (tool_calls_of m) _ _) (λ r. Costs-pure _)

  Costs-plan_from : (goal : String) (d : Json) → Costs calls 0 (plan_from cfg env ctx goal d)
  unfolding plan_from
  Costs-plan_from goal d = Costs-if _ _ _ 0 (Costs-pure _) (plan_of-Costs (iterate d) _)
    where
      plan_of-Costs :
          (v : Option (List Json)) (ds : Option (List String))
          → Costs calls 0 (plan_of cfg env ctx goal v ds)
      plan_of-Costs none ds = Costs-fail _
      plan_of-Costs (some v) none = Costs-fail _
      plan_of-Costs (some v) (some ds) = Costs-pure _

  Costs-summarize : (ms : List Message) → Costs calls 1 (summarize_messages cfg env ctx ms)
  unfolding summarize_messages
  Costs-summarize ms =
      Costs-if _ _ _ 1 (Costs-more 0 1 (omega arith) (Costs-pure _))
        (Costs-bind _ _ 1 0 (Costs-ask [] _) (λ r. Costs-pure _))

  Costs-make_room : (ms : List Message) → Costs calls 1 (make_room cfg env ctx ms)
  unfolding make_room
  Costs-make_room ms =
      Costs-if _ _ _ 1
        (Costs-bind _ _ 1 0 (Costs-summarize ms)
          λ r. Costs-bind _ _ 0 0 (Costs-emit_step _) (λ k. Costs-pure _))
        (Costs-more 0 1 (omega arith) (Costs-pure _))

  Costs-assess_with :
      (st : AgentState) (tokens : ℕ) (parsed : Fields) (c : Option String)
      (ids : Option (List Json))
      → Costs calls 0 (assess_with cfg env ctx st tokens parsed c ids)
  unfolding assess_with
  Costs-assess_with st tokens parsed none ids = Costs-fail _
  Costs-assess_with st tokens parsed (some c) none = Costs-fail _
  Costs-assess_with st tokens parsed (some c) (some ids) =
      Costs-bind _ _ 0 0 (Costs-emit_step _)
        λ k. Costs-bind _ _ 0 0 (Costs-emit_step _) (λ k. Costs-pure _)

  pub run_node-Costs :
      (n : Node) (st : AgentState) → Costs calls (node_calls n) (run_node cfg env ctx n st)
  unfolding run_node plan_node think_node act_node observe_node reflect_node report_node
  run_node-Costs plan st = Costs-bind _ _ 1 0 (Costs-ask [] _) λ resp.
      Costs-bind _ _ 0 0
        (Costs-plan_from st.goal
          (get_or "subtasks" (Json.arr nil) (or_empty (extract_json env.loads (as_text resp.0)))))
        λ p. Costs-bind _ _ 0 0 (Costs-emit_step _) (λ k. Costs-pure _)
  run_node-Costs think st = Costs-bind _ _ 1 1 (Costs-make_room _) λ room.
      Costs-bind _ _ 1 0 (Costs-ask _ _)
        λ resp. Costs-bind _ _ 0 0 (Costs-emit_step _) (λ k. Costs-pure _)
  run_node-Costs act st = Costs-act_on st _
  run_node-Costs observe st = Costs-pure _
  run_node-Costs reflect st =
      Costs-bind _ _ 1 0 (Costs-ask [] _) (λ resp. Costs-assess_with st _ _ _ _)
  run_node-Costs report st =
      Costs-bind _ _ 1 0 (Costs-ask [] _)
        λ resp. Costs-bind _ _ 0 0 (Costs-emit_step _) (λ k. Costs-pure _)
