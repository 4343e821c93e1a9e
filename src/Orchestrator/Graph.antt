-- ===== src/Orchestrator/Graph.antt =====
-- app/orchestrator/graph.py: the graph of the nodes, and its execution by langgraph, one node in each
-- step. The theorems are in the modules below.
pub mod Effects
pub mod Keeps
pub mod Limits
use agentis_backend.Prelude.{ℕ, zero, suc, ◌+◌, ◌-◌, ◌*◌, String, Bool, Option, none, some, List}
use agentis_backend.Config.{Settings}
use agentis_backend.Http.{Exec, Failure, Result, ok, err}
use agentis_backend.Json.{Json}
use agentis_backend.Orchestrator.State.{AgentState, Message, Plan, ℤ, pos, negsuc}
use agentis_backend.Orchestrator.Nodes.{
  Env, RunContext, RunState, Update, plan_node, think_node, act_node, observe_node, reflect_node,
  report_node, Route, to_act, to_report, to_think, route_after_think, route_after_reflect,
}

pub data Node : Type 0 where
  plan think act observe reflect report : Node

-- A key that the node did not return keeps its value.
abbrev pub kept {ℓ} : {A : Type ℓ} → Option A → A → A
kept none old = old
kept (some new) old = new

abbrev pub either {ℓ} : {A : Type ℓ} → Option A → Option A → Option A
either none old = old
either (some new) old = some new

-- The values of the graph: the declared keys, and what is left of "result_summary", a key that
-- AgentState does not declare.
pub record Values : Type 0 where
  pub state : AgentState
  pub result_summary : Option String

pub data Outcome : Type 0 where
  finished : Values → Outcome
  node_failed : Failure → Outcome
  recursion_error : Outcome

-- langgraph raises a ValueError for a limit below 1, and GraphRecursionError past the limit; both end the
-- run before another node starts.
abbrev pub recursion_limit : ℤ → ℕ
recursion_limit (pos n) = n * 4 + 10
recursion_limit (negsuc n) = 6 - n * 4

module _ (cfg : Settings) (env : Env) (ctx : RunContext) where
  unfoldable pub run_node : Node → AgentState → Exec RunState Update
  run_node plan = plan_node cfg env ctx
  run_node think = think_node cfg env ctx
  run_node act = act_node cfg env ctx
  run_node observe = observe_node cfg env ctx
  run_node reflect = reflect_node cfg env ctx
  run_node report = report_node cfg env ctx

  -- The reducers: "messages" has add_messages, the other keys take the last value. `undeclared` is
  -- what langgraph makes of a key that the state's schema lacks.
  abbrev pub apply_update : (undeclared : Option String → Option String) → Update → Values → Values
  apply_update undeclared u v = record {
    state = record v.state {
      plan = either u.plan v.state.plan;
      messages = elim u.messages [
        | none ↦ v.state.messages
        | some new ↦ env.add_messages v.state.messages new
      ];
      scratchpad = kept u.scratchpad v.state.scratchpad;
      iteration = kept u.iteration v.state.iteration;
      confidence = kept u.confidence v.state.confidence;
      failures = kept u.failures v.state.failures;
      done = kept u.done v.state.done;
      reflect_decision = either u.reflect_decision v.state.reflect_decision;
    };
    result_summary = undeclared (either u.result_summary v.result_summary);
  }

  abbrev by_route : Route → Option Node
  by_route to_act = some act
  by_route to_report = some report
  by_route to_think = some think

  -- The edges; `none` is END.
  unfoldable pub next : Node → AgentState → Option Node
  next plan st = some think
  next think st = by_route (route_after_think cfg st)
  next act st = some observe
  next observe st = some reflect
  next reflect st = by_route (route_after_reflect st)
  next report st = none

  module _ (undeclared : Option String → Option String) where
    -- Go on at a node, or end.
    abbrev pub goto :
        (go : Node → Values → RunState → Outcome × RunState)
        → Option Node
        → Values
        → RunState
        → Outcome × RunState
    goto go none v s = (finished v, s)
    goto go (some m) v s = go m v s

    abbrev pub proceed :
        (go : Node → Values → RunState → Outcome × RunState)
        → Node
        → Values
        → Result Update
        → RunState
        → Outcome × RunState
    proceed go n v (err e) s = (node_failed e, s)
    proceed go n v (ok u) s = let v' = apply_update undeclared u v in goto go (next n v'.state) v' s

    -- agent.ainvoke, from a node on, with the number of steps that the limit still allows
    unfoldable pub invoke : (steps : ℕ) → Node → Values → RunState → Outcome × RunState
    invoke zero n v s = (recursion_error, s)
    invoke (suc steps) n v s = let (r, s') = run_node n v.state s in proceed (invoke steps) n v r s'
