-- ===== src/Orchestrator/Graph/Limits.antt =====
-- A run of the graph ends before the recursion limit.
use agentis_backend.Prelude.{
  ℕ, zero, suc, ◌+◌, ◌-◌, ◌*◌, ◌≤◌, ◌<◌, String, ◌≡◌, ◌⊎◌, inl, inr, Option, some, true, false,
  arith,
}
use agentis_backend.Config.{Settings}
use agentis_backend.Http.{Result, ok, err}
use agentis_backend.Http.Rules.{Post}
use agentis_backend.Orchestrator.State.{AgentState, ℤ, pos, negsuc}
use agentis_backend.Orchestrator.Nodes.{
  Env, RunContext, RunState, Update, at_limit, route_after_think, route_after_reflect,
}
use agentis_backend.Orchestrator.Graph.{
  Node, plan, think, act, observe, reflect, report, Values, Outcome, finished, node_failed,
  recursion_error, recursion_limit, run_node, next, proceed, apply_update, invoke,
}
use agentis_backend.Orchestrator.Graph.Effects.{
  Writes, calls, node_calls, run_node-Writes, run_node-Costs,
}

-- The iterations that the bound of the task allows.
abbrev pub allowed : ℤ → ℕ
allowed (pos n) = n
allowed (negsuc n) = 0

-- The steps that a run takes at most from a node on, after `i` of `m` iterations.
abbrev steps_from : Node → (i m : ℕ) → ℕ
steps_from plan i m = 4 * m + 3
steps_from think i m = 4 * (m - i) + 2
steps_from act i m = 4 * (m - i) + 5
steps_from observe i m = 4 * (m - i) + 4
steps_from reflect i m = 4 * (m - i) + 3
steps_from report i m = 1

-- The calls of the language model that it makes at most.
abbrev calls_from : Node → (i m : ℕ) → ℕ
calls_from plan i m = 3 * m + 4
calls_from think i m = 3 * (m - i) + 3
calls_from report i m = 1
calls_from _ i m = 3 * (m - i) + 4

-- Not the recursion error, and done if the graph reached its end.
abbrev pub IsSettled : Outcome → Type 0
IsSettled (finished v) = v.state.done ≡ true
IsSettled (node_failed e) = Unit
IsSettled recursion_error = ⊥

lt_of_at_limit : (i : ℕ) (m : ℤ) → at_limit i m ≡ false → i < allowed m
lt_of_at_limit i (pos n) h = ground arith
lt_of_at_limit i (negsuc n) h = ground arith

module _ (cfg : Settings) (env : Env) (ctx : RunContext) (st : AgentState) where
  -- Where a run goes on from a router; a run that goes on has iterations left.
  pub think_routes :
      (next cfg env ctx think st ≡ some report)
      ⊎ (next cfg env ctx think st ≡ some act) × (st.iteration < allowed st.max_iterations)
  unfolding next route_after_think
  think_routes = ground (arith, lt_of_at_limit st.iteration st.max_iterations)

  pub reflect_routes :
      (next cfg env ctx reflect st ≡ some report)
      ⊎ (next cfg env ctx reflect st ≡ some think) × (st.iteration < allowed st.max_iterations)
  unfolding next route_after_reflect
  reflect_routes = ground (arith, lt_of_at_limit st.iteration st.max_iterations)

abbrev steps_for : Node → AgentState → ℕ
steps_for n st = steps_from n st.iteration (allowed st.max_iterations)

abbrev calls_for : Node → AgentState → ℕ
calls_for n st = calls_from n st.iteration (allowed st.max_iterations)

-- How a run that was given calls up to `c` ends.
abbrev Ends : ℕ → Outcome × RunState → Type 0
Ends c end = IsSettled end.0 × (calls end.1 ≤ c)

steps_pos : (n : Node) (st : AgentState) → steps_for n st ≤ 0 → ⊥
steps_pos plan st h = omega arith
steps_pos _ st h = omega arith

calls_pos : (n : Node) (st : AgentState) → node_calls n ≤ calls_for n st
calls_pos plan st = omega arith
calls_pos _ st = omega arith

module _ (cfg : Settings) (env : Env) (ctx : RunContext)
    (undeclared : Option String → Option String) where
  module _ (go : Node → Values → RunState → Outcome × RunState) (k c : ℕ)
      (ih : (m : Node) (v : Values) (s : RunState)
        → steps_for m v.state ≤ k
        → calls s + calls_for m v.state ≤ c
        → Ends c (go m v s)) where
    proceed-Ends :
        (n : Node) (v : Values) (r : Result Update) (s : RunState)
        → Post (Writes n v.state) r
        → steps_for n v.state ≤ suc k
        → calls s + calls_for n v.state ≤ c + node_calls n
        → Ends c (proceed cfg env ctx undeclared go n v r s)
    unfolding next
    proceed-Ends n v (err e) s w h b = (tt, omega (arith, calls_pos n v.state))
    proceed-Ends plan v (ok u) s w h b =
        ih think (apply_update cfg env ctx undeclared u v) s (rw w (omega arith))
          (rw w (omega arith))
    proceed-Ends think v (ok u) s w h b =
        let v' = apply_update cfg env ctx undeclared u v in
        elim (think_routes cfg env ctx v'.state) [
          | inl e ↦ rw e (ih report v' s (omega arith) (omega arith))
          | inr (e, more) ↦ rw e (ih act v' s (ground (arith, w, more)) (ground (arith, w, more)))
        ]
    proceed-Ends act v (ok u) s w h b =
        ih observe (apply_update cfg env ctx undeclared u v) s (rw w (omega arith))
          (rw w (omega arith))
    proceed-Ends observe v (ok u) s w h b =
        ih reflect (apply_update cfg env ctx undeclared u v) s (rw w (omega arith))
          (rw w (omega arith))
    proceed-Ends reflect v (ok u) s w h b =
        let v' = apply_update cfg env ctx undeclared u v in
        elim (reflect_routes cfg env ctx v'.state) [
          | inl e ↦ rw e (ih report v' s (omega arith) (omega arith))
          | inr (e, more) ↦ rw e (ih think v' s (ground (arith, w, more)) (ground (arith, w, more)))
        ]
    proceed-Ends report v (ok u) s (i, d) h b = (rw d, omega arith)

  invoke-Ends :
      (steps c : ℕ) (n : Node) (v : Values) (s : RunState)
      → steps_for n v.state ≤ steps
      → calls s + calls_for n v.state ≤ c
      → Ends c (invoke cfg env ctx undeclared steps n v s)
  unfolding invoke
  invoke-Ends zero c n v s h b = absurd (steps_pos n v.state h)
  invoke-Ends (suc k) c n v s h b =
      let (r, s') = run_node cfg env ctx n v.state s in
      proceed-Ends (invoke cfg env ctx undeclared k) k c (invoke-Ends k c) n v r s'
        ((run_node-Writes cfg env ctx n v.state).at s) h
        (omega (arith, (run_node-Costs cfg env ctx n v.state).at s))

  -- Whatever the model, the tools and the reducer of the messages do, agent.ainvoke does not meet the recursion
  -- limit that run_task sets for a task whose max_iterations is not negative, and if no node fails it ends with
  -- `done` set.
  pub graph_terminates :
      (m : ℕ) (v : Values) (s : RunState)
      → v.state.max_iterations ≡ pos m
      → IsSettled (invoke cfg env ctx undeclared (recursion_limit (pos m)) plan v s).0
  graph_terminates m v s e =
      (invoke-Ends (recursion_limit (pos m)) (calls s + calls_for plan v.state) plan v s
        (rw e (omega arith)) (omega arith)).0

  -- Such a run calls the language model at most 3 * m + 4 times, also where a node fails.
  pub graph_calls_bound :
      (m : ℕ) (v : Values) (s : RunState)
      → v.state.max_iterations ≡ pos m
      → (invoke cfg env ctx undeclared (recursion_limit (pos m)) plan v s).1.llm_calls
        ≤ s.llm_calls + (3 * m + 4)
  graph_calls_bound m v s e =
      (invoke-Ends (recursion_limit (pos m)) (s.llm_calls + (3 * m + 4)) plan v s
        (rw e (omega arith)) (rw e (omega arith))).1
