-- ===== src/Plan/Update.antt =====
-- crates/zerochain-core/src/plan.rs: `mark_complete`, `mark_error` and `record_control_outcome`.
use zerochain.Prelude.{
  ℕ, ◌+◌, Bool, true, false, Option, none, some, List, [], ◌∷◌, if◌then◌else◌, Text, text_ord,
  nat_ord, nat_eq, leb, any, all,
}
use zerochain.OrdMap
use zerochain.OrdMap.{OrdMap}
use zerochain.Stage.{StageId, stage_id_eq}
use zerochain.Graph
use zerochain.Graph.{WorkflowGraph, NodeId, Node, stage, loop, stage_id, node_id_for_stage}
use zerochain.Graph.Control.{ControlOutcome}
use zerochain.Plan.Types.{
  StageState, pending, complete, error, StageNode, StageGroup, ExecutionPlan, is_complete_state,
}
use zerochain.Plan.FromGraph.{has_state}
use zerochain.Plan.State.{iterations_of, enclosing_loop}

-- `entry(id).and_modify(|c| *c += 1).or_insert(1)`
abbrev pub count_iteration : NodeId → OrdMap NodeId ℕ → OrdMap NodeId ℕ
count_iteration i m = OrdMap.insert i (elim (OrdMap.get i m) [ none ↦ 1 | some n ↦ n + 1 ]) m

abbrev pub set_state : StageState → StageNode → StageNode
set_state x n = record n { state = x }

-- The node of a stage is a loop node.
abbrev pub loop_node_of : WorkflowGraph → StageId → Option NodeId
loop_node_of g s = elim (node_id_for_stage s g) [
  | none ↦ none
  | some i ↦ elim (OrdMap.get i g.nodes) [
    | none ↦ none
    | some (stage j t ds) ↦ none
    | some (loop j t b m x ds) ↦ some i
  ]
]

abbrev pub contains_stage : StageId → StageGroup → Bool
contains_stage s group = any (λ x. stage_id_eq x s) group.stages

-- A group whose stages are all complete becomes complete.
abbrev pub refresh_group : OrdMap Text StageNode → StageId → StageGroup → StageGroup
refresh_group m s group =
    if contains_stage s group
    then (if all (has_state is_complete_state m) group.stages
        then record group { state = complete }
        else group)
    else group

abbrev pub refresh_groups : OrdMap Text StageNode → StageId → List StageGroup → List StageGroup
refresh_groups m s [] = []
refresh_groups m s (group ∷ groups) = refresh_group m s group ∷ refresh_groups m s groups

abbrev pub fail_group : StageId → StageGroup → StageGroup
fail_group s group = if contains_stage s group then record group { state = error } else group

abbrev pub fail_groups : StageId → List StageGroup → List StageGroup
fail_groups s [] = []
fail_groups s (group ∷ groups) = fail_group s group ∷ fail_groups s groups

-- Another iteration of the loop, with its body to be run again.
abbrev pub next_iteration : NodeId → NodeId → ExecutionPlan → ExecutionPlan
next_iteration i body p = record p {
  loop_iterations = OrdMap.insert i (iterations_of p i + 1) p.loop_iterations;
  stage_map = elim (OrdMap.get body p.graph.nodes) [
    | none ↦ p.stage_map
    | some n ↦ OrdMap.update (stage_id n).raw (set_state pending) p.stage_map
  ];
}

-- One round of the loop over the nodes; `completed` is the node that was run.
abbrev pub propagate_node : NodeId → Node → ExecutionPlan → ExecutionPlan
propagate_node completed (stage i s ds) p = p
propagate_node completed (loop i s body m x ds) p =
    if nat_eq body completed
    then (if OrdMap.contains_key i p.loop_outcome
        then p
        else if leb m (iterations_of p i)
        then p
        else next_iteration i body p)
    else p

abbrev pub propagate_nodes : NodeId → List Node → ExecutionPlan → ExecutionPlan
propagate_nodes completed [] p = p
propagate_nodes completed (n ∷ ns) p = propagate_nodes completed ns (propagate_node completed n p)

unfoldable pub propagate_loop_completion : StageId → ExecutionPlan → ExecutionPlan
propagate_loop_completion s p = elim (node_id_for_stage s p.graph) [
  | none ↦ p
  | some i ↦ propagate_nodes i (OrdMap.values p.graph.nodes) p
]

abbrev pub completed : StageId → ExecutionPlan → ExecutionPlan
completed s p =
    let m = OrdMap.update s.raw (set_state complete) p.stage_map in
    record p { stage_map = m; groups = refresh_groups m s p.groups }

unfoldable pub mark_complete : StageId → ExecutionPlan → ExecutionPlan
mark_complete s p = elim (loop_node_of p.graph s) [
  | some i ↦ record p { loop_iterations = count_iteration i p.loop_iterations }
  | none ↦ propagate_loop_completion s (completed s p)
]

abbrev pub failed : StageId → ExecutionPlan → ExecutionPlan
failed s p = record p {
  stage_map = OrdMap.update s.raw (set_state error) p.stage_map;
  groups = fail_groups s p.groups;
}

unfoldable pub mark_error : StageId → ExecutionPlan → ExecutionPlan
mark_error s p = elim (loop_node_of p.graph s) [
  | some i ↦ record p { loop_outcome = OrdMap.insert i ControlOutcome.fail p.loop_outcome }
  | none ↦ propagate_loop_completion s (failed s p)
]

-- `Continue` does not count an iteration.
abbrev pub counts_iteration : ControlOutcome → Bool
counts_iteration ControlOutcome.cont = false
counts_iteration _ = true

unfoldable pub record_control_outcome : StageId → ControlOutcome → ExecutionPlan → ExecutionPlan
record_control_outcome s outcome p = elim (node_id_for_stage s p.graph) [
  | none ↦ p
  | some b ↦ elim (enclosing_loop p.graph b) [
    | none ↦ p
    | some l ↦ record p {
      loop_outcome = OrdMap.insert (Graph.id l) outcome p.loop_outcome;
      loop_iterations =
          if counts_iteration outcome
          then count_iteration (Graph.id l) p.loop_iterations
          else p.loop_iterations;
    }
  ]
]
