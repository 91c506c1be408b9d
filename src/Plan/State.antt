-- ===== src/Plan/State.antt =====
-- crates/zerochain-core/src/plan.rs: `node_state`, `next_stage` and `is_complete`.
use zerochain.Prelude.{
  ℕ, zero, suc, Bool, false, not, ◌&&◌, Option, none, some, List, [], ◌∷◌, if◌then◌else◌, text_ord,
  nat_ord, nat_eq, leb, ltb, all, find,
}
use zerochain.OrdMap
use zerochain.OrdMap.{OrdMap}
use zerochain.Stage.{StageId}
use zerochain.Graph
use zerochain.Graph.{
  WorkflowGraph, NodeId, Node, stage, loop, LoopExhaustion, stage_id, dependencies,
  node_id_for_stage,
}
use zerochain.Graph.Control.{ControlOutcome}
use zerochain.Plan.Types.{
  StageState, pending, running, complete, error, ExecutionPlan, StageGroup, is_complete_state,
  is_pending_state,
}
use zerochain.Plan.FromGraph.{plan_order}

-- The state of a loop that a control record ended.
abbrev pub outcome_state : ControlOutcome → StageState
outcome_state ControlOutcome.ret = complete
outcome_state ControlOutcome.escalate = complete
outcome_state ControlOutcome.fail = error
outcome_state ControlOutcome.await = running
outcome_state ControlOutcome.cont = running

abbrev pub exhausted_state : LoopExhaustion → StageState
exhausted_state LoopExhaustion.fail = error
exhausted_state LoopExhaustion.succeed = complete

abbrev pub iterations_of : ExecutionPlan → NodeId → ℕ
iterations_of p l = elim (OrdMap.get l p.loop_iterations) [ none ↦ 0 | some n ↦ n ]

abbrev pub outcome_of : ExecutionPlan → NodeId → Option ControlOutcome
outcome_of p l = OrdMap.get l p.loop_outcome

-- What `stage_map` says of a stage.
abbrev pub own_state : ExecutionPlan → StageId → StageState
own_state p s = elim (OrdMap.get s.raw p.stage_map) [ none ↦ pending | some n ↦ n.state ]

abbrev pub has_body : NodeId → Node → Bool
has_body b (stage i s ds) = false
has_body b (loop i s body m x ds) = nat_eq body b

-- The first loop around a node, in the order of the handles.
unfoldable pub enclosing_loop : WorkflowGraph → NodeId → Option Node
enclosing_loop g b = find (has_body b) (OrdMap.values g.nodes)

-- What a loop with an outcome says of the stage in it.
abbrev pub enclosing_outcome : ControlOutcome → Option StageState
enclosing_outcome ControlOutcome.ret = some complete
enclosing_outcome ControlOutcome.escalate = some complete
enclosing_outcome ControlOutcome.fail = some error
enclosing_outcome ControlOutcome.await = none
enclosing_outcome ControlOutcome.cont = none

abbrev pub state_in_loop : ExecutionPlan → Node → Option StageState
state_in_loop p (stage i s ds) = elim (outcome_of p i) [
  | none ↦ none
  | some o ↦ enclosing_outcome o
]
state_in_loop p (loop i s body max_iterations on_exhausted ds) = elim (outcome_of p i) [
  | none ↦
      if leb max_iterations (iterations_of p i) then some (exhausted_state on_exhausted) else none
  | some o ↦ enclosing_outcome o
]

unfoldable pub enclosing_loop_state : ExecutionPlan → StageId → Option StageState
enclosing_loop_state p s = elim (node_id_for_stage s p.graph) [
  | none ↦ none
  | some b ↦ elim (enclosing_loop p.graph b) [ none ↦ none | some l ↦ state_in_loop p l ]
]

abbrev pub unwrap_state : Option StageState → StageState → StageState
unwrap_state none x = x
unwrap_state (some y) x = y

abbrev pub stage_node_state : ExecutionPlan → StageId → StageState
stage_node_state p s = unwrap_state (enclosing_loop_state p s) (own_state p s)

-- The state of a loop whose body is in the state given.
abbrev pub loop_node_state : ExecutionPlan → NodeId → ℕ → LoopExhaustion → StageState → StageState
loop_node_state p i max_iterations on_exhausted body_state = elim (outcome_of p i) [
  | some o ↦ outcome_state o
  | none ↦
      if leb max_iterations (iterations_of p i)
      then exhausted_state on_exhausted
      else if nat_eq (iterations_of p i) 0 && is_pending_state body_state
      then pending
      else running
]

-- The state of a node, with fuel for loops around loops. A loop is younger than its body, so that
-- one round more than the handle is enough, see Plan/Next.antt.
unfoldable pub node_state_within : ℕ → ExecutionPlan → NodeId → StageState
node_state_within zero p i = pending
node_state_within (suc fuel) p i = elim (OrdMap.get i p.graph.nodes) [
  | none ↦ pending
  | some (stage j s ds) ↦ stage_node_state p s
  | some (loop j s body m x ds) ↦ loop_node_state p i m x (node_state_within fuel p body)
]

unfoldable pub node_state : ExecutionPlan → NodeId → StageState
node_state p i = node_state_within (suc i) p i

-- A loop runs through its body.
unfoldable pub resolve_runnable_stage_id : WorkflowGraph → Node → StageId
resolve_runnable_stage_id g (stage i s ds) = s
resolve_runnable_stage_id g (loop i s body m x ds) = elim (OrdMap.get body g.nodes) [
  | none ↦ s
  | some n ↦ stage_id n
]

abbrev pub is_complete_node : ExecutionPlan → NodeId → Bool
is_complete_node p i = is_complete_state (node_state p i)

-- A pending node whose dependencies are complete.
abbrev pub is_runnable : ExecutionPlan → NodeId → Node → Bool
is_runnable p i n = is_pending_state (node_state p i) && all (is_complete_node p) (dependencies n)

-- A handle without a node ends the search.
abbrev pub next_from : ExecutionPlan → List NodeId → Option StageId
next_from p [] = none
next_from p (i ∷ is) =
    let rest = next_from p is in
    elim (OrdMap.get i p.graph.nodes) [
      | none ↦ none
      | some n ↦ if is_runnable p i n then some (resolve_runnable_stage_id p.graph n) else rest
    ]

unfoldable pub next_stage : ExecutionPlan → Option StageId
next_stage p = next_from p (plan_order p.graph)

abbrev pub is_complete_group : StageGroup → Bool
is_complete_group group = is_complete_state group.state

unfoldable pub is_complete : ExecutionPlan → Bool
is_complete p = elim p.graph.nodes [
  | [] ↦ all is_complete_group p.groups
  | _ ∷ _ ↦ all (is_complete_node p) (plan_order p.graph)
]

unfoldable pub should_reset_body_for_loop_iteration : ExecutionPlan → StageId → Bool
should_reset_body_for_loop_iteration p s = elim (node_id_for_stage s p.graph) [
  | none ↦ false
  | some b ↦ elim (enclosing_loop p.graph b) [
    | none ↦ false
    | some l ↦
        ltb 0 (iterations_of p (Graph.id l))
        && not (OrdMap.contains_key (Graph.id l) p.loop_outcome)
  ]
]
