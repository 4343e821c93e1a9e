-- ===== src/Orchestrator/Graph/Keeps.antt =====
-- What every emission for the task keeps of the store of events, a run of the graph keeps.
use agentis_backend.Prelude.{ℕ, zero, suc, String, Option, none, some, List, [], ◌∷◌, arith}
use agentis_backend.Config.{Settings}
use agentis_backend.Http.{Result, ok, err}
use agentis_backend.Http.Rules.{Keeps, keeps}
use agentis_backend.Json.{Json, Fields}
use agentis_backend.Tools.Registry as Tools
use agentis_backend.Tools.Registry.{ToolSchema}
use agentis_backend.Orchestrator.State.{AgentState, Message, ToolCall}
use agentis_backend.Orchestrator.Events.{EventStore, Emission, emit}
use agentis_backend.Orchestrator.Nodes.{
  Env, RunContext, RunState, Update, emit_step, ask, plan_from, plan_of, plan_node, think_node,
  act_node, observe_node, reflect_node, report_node, make_room, summarize_messages, run_calls,
  dispatch, run_tool, assess_with, act_on,
}
use agentis_backend.Orchestrator.Graph.{
  Node, plan, think, act, observe, reflect, report, run_node, invoke, Values, Outcome, next, goto,
  apply_update, proceed,
}

module _ (cfg : Settings) (env : Env) (ctx : RunContext) (I : EventStore → Type 0)
    (kept : (e : Emission) (store : EventStore) → I store → I (emit ctx.task_id e store).1) where
  abbrev pub Holds : RunState → Type 0
  Holds s = I s.store

  ask-Keeps : (tools : List ToolSchema) (ms : List Message) → Keeps Holds (ask env tools ms)
  unfolding ask
  ask-Keeps tools ms = record { at = λ s h. ground (arith, h) }

  emit_step-Keeps : (e : Emission) → Keeps Holds (emit_step ctx e)
  unfolding emit_step
  emit_step-Keeps e = record { at = λ s h. kept e s.store h }

  run_tool-Keeps : (t : Tools.Tool) (args : Json) → Keeps Holds (run_tool cfg env ctx t args)
  unfolding run_tool
  run_tool-Keeps t args = record { at = λ s h. ground (arith, h) }

  dispatch-Keeps : (c : ToolCall) (o : Option Tools.Tool) → Keeps Holds (dispatch cfg env ctx c o)
  unfolding dispatch
  dispatch-Keeps c none = search (keeps)
  dispatch-Keeps c (some t) = search (keeps, run_tool-Keeps, emit_step-Keeps)

  run_calls-Keeps :
      (cs : List ToolCall) (failures : ℕ) (ms : List Message)
      → Keeps Holds (run_calls cfg env ctx cs failures ms)
  unfolding run_calls
  run_calls-Keeps [] failures ms = search (keeps)
  run_calls-Keeps (c ∷ rest) failures ms =
      search (keeps, emit_step-Keeps, dispatch-Keeps, run_calls-Keeps rest)

  act_on-Keeps : (st : AgentState) (o : Option Message) → Keeps Holds (act_on cfg env ctx st o)
  unfolding act_on
  act_on-Keeps st none = search (keeps)
  act_on-Keeps st (some m) = search (keeps, run_calls-Keeps)

  plan_of-Keeps :
      (goal : String) (v : Option (List Json)) (ds : Option (List String))
      → Keeps Holds (plan_of cfg env ctx goal v ds)
  unfolding plan_of
  plan_of-Keeps goal none ds = search (keeps)
  plan_of-Keeps goal (some v) none = search (keeps)
  plan_of-Keeps goal (some v) (some ds) = search (keeps)

  plan_from-Keeps : (goal : String) (d : Json) → Keeps Holds (plan_from cfg env ctx goal d)
  unfolding plan_from
  plan_from-Keeps goal d = search (keeps, plan_of-Keeps)

  make_room-Keeps : (ms : List Message) → Keeps Holds (make_room cfg env ctx ms)
  unfolding make_room summarize_messages
  make_room-Keeps ms = search (keeps, ask-Keeps, emit_step-Keeps)

  assess_with-Keeps :
      (st : AgentState) (tokens : ℕ) (parsed : Fields) (c : Option String)
      (ids : Option (List Json))
      → Keeps Holds (assess_with cfg env ctx st tokens parsed c ids)
  unfolding assess_with
  assess_with-Keeps st tokens parsed none ids = search (keeps)
  assess_with-Keeps st tokens parsed (some c) none = search (keeps)
  assess_with-Keeps st tokens parsed (some c) (some ids) = search (keeps, emit_step-Keeps)

  pub run_node-Keeps : (n : Node) (st : AgentState) → Keeps Holds (run_node cfg env ctx n st)
  unfolding run_node plan_node think_node act_node observe_node reflect_node report_node
  run_node-Keeps plan st = search (keeps, ask-Keeps, plan_from-Keeps, emit_step-Keeps)
  run_node-Keeps think st = search (keeps, make_room-Keeps, ask-Keeps, emit_step-Keeps)
  run_node-Keeps act st = act_on-Keeps st _
  run_node-Keeps observe st = search (keeps)
  run_node-Keeps reflect st = search (keeps, ask-Keeps, assess_with-Keeps)
  run_node-Keeps report st = search (keeps, ask-Keeps, emit_step-Keeps)

  module _ (undeclared : Option String → Option String) where
    goto-Holds :
        (go : Node → Values → RunState → Outcome × RunState)
        → ((n : Node) (v : Values) (s : RunState) → Holds s → Holds (go n v s).1)
        → (o : Option Node) (v : Values) (s : RunState) → Holds s
        → Holds (goto cfg env ctx undeclared go o v s).1
    goto-Holds go keep none v s h = h
    goto-Holds go keep (some n) v s h = keep n v s h

    proceed-Holds :
        (go : Node → Values → RunState → Outcome × RunState)
        → ((n : Node) (v : Values) (s : RunState) → Holds s → Holds (go n v s).1)
        → (n : Node) (v : Values) (r : Result Update) (s : RunState) → Holds s
        → Holds (proceed cfg env ctx undeclared go n v r s).1
    proceed-Holds go keep n v (err e) s h = h
    proceed-Holds go keep n v (ok u) s h =
        let v' = apply_update cfg env ctx undeclared u v in
        goto-Holds go keep (next cfg env ctx n v'.state) v' s h

    pub invoke-Holds :
        (steps : ℕ) (n : Node) (v : Values) (s : RunState)
        → Holds s
        → Holds (invoke cfg env ctx undeclared steps n v s).1
    unfolding invoke
    invoke-Holds zero n v s h = h
    invoke-Holds (suc steps) n v s h =
        let (r, s') = run_node cfg env ctx n v.state s in
        proceed-Holds (invoke cfg env ctx undeclared steps) (invoke-Holds steps) n v r s'
          ((run_node-Keeps n v.state).at s h)
