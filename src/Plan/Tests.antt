-- ===== src/Plan/Tests.antt =====
-- Plans of three stages, and of a stage in a loop.
use zerochain.Prelude.{
  ℕ, nat_ord, text_ord, zero, suc, ◌<◌, ◌≤◌, ◌≡◌, ◌≢◌, refl, Option, none, some, [], ◌∷◌, false,
  true, arith, Text,
}
use zerochain.OrdMap
use zerochain.Stage.{Stage, StageId, stage_id_eq, parallel_group}
use zerochain.Graph.{
  Node, NodeId, add_stage, add_dependency, visit, deps_of, topological_order, stage,
  node_id_for_stage,
}
use zerochain.Graph.Tests.{draft_id, again_id, looped, looped-IsWellFormed, three}
use zerochain.Graph.Builder as Builder
use zerochain.Plan.{
  mark_error, ExecutionPlan, StageState, StageNode, pending, complete, from_graph, from_stages,
  load_nodes, load_control, plan_order, group_key_of, next_stage, node_state, node_state_within,
  enclosing_loop_state, enclosing_loop, is_complete, mark_complete, loop_node_of, iterations_of,
  resolve_runnable_stage_id,
}
use zerochain.Plan.Next.{Picks, next_stage-Picks}
use zerochain.Plan.Marks.{IsLoopFree}
use zerochain.Plan.Run.{incomplete, incomplete-mark_complete}
use zerochain.Plan.Loops.{IsBounded, limit_of, marks-IsBounded}
use zerochain.Plan.Loaded.{from_stages-IsLoopFree, from_stages-IsLoaded}
use zerochain.Plan.Finish.{run, run-is_complete}

abbrev no_control : Stage → Option Text
no_control s = none

abbrev planned : ExecutionPlan
planned = from_stages no_control three

planned_next : next_stage planned ≡ some draft_id
unfolding next_stage from_stages from_graph Builder.from_stages add_stage add_dependency visit
    deps_of topological_order plan_order load_nodes load_control group_key_of parallel_group
    node_state node_state_within enclosing_loop_state enclosing_loop stage_id_eq node_id_for_stage
    resolve_runnable_stage_id
planned_next = refl

planned_graph : planned.graph ≡ Builder.from_stages three
unfolding from_stages from_graph
planned_graph = refl

next_stage-Picks_example : Picks planned (plan_order planned.graph) draft_id
next_stage-Picks_example = next_stage-Picks planned draft_id planned_next

planned-IsLoopFree : IsLoopFree planned.graph
unfolding from_stages from_graph
planned-IsLoopFree = from_stages-IsLoopFree three

incomplete-mark_complete_example :
    incomplete (mark_complete draft_id planned) (OrdMap.keys planned.graph.nodes)
    < incomplete planned (OrdMap.keys planned.graph.nodes)
incomplete-mark_complete_example =
    incomplete-mark_complete planned draft_id planned-IsLoopFree
      (from_stages-IsLoaded no_control three) planned_next

three_some : three ≢ []
three_some e = absurd cc

run-is_complete_example : is_complete (run 3 (from_stages no_control three)) ≡ true
run-is_complete_example = run-is_complete no_control three three_some (refl, (refl, (refl, tt)))

planned_first : OrdMap.get 0 planned.graph.nodes ≡ some (stage 0 draft_id [])
unfolding from_stages from_graph Builder.from_stages add_stage add_dependency
planned_first = refl

abbrev node_in : StageState → StageId → Text × StageNode
node_in x s = (s.raw, record { id = s; dependencies = []; state = x; human_gate = false })

-- One stage that is done.
abbrev finished : ExecutionPlan
finished = record {
  groups = [];
  stage_map = node_in complete draft_id ∷ [];
  graph = record {
    next_id = 1;
    nodes = (0, stage 0 draft_id []) ∷ [];
    stage_to_node = (draft_id, 0) ∷ [];
  };
  loop_iterations = [];
  loop_outcome = [];
}

-- A loop of three iterations around a stage, of which so many are used up.
abbrev in_loop : ℕ → ExecutionPlan
in_loop n = record {
  groups = [];
  stage_map = node_in pending draft_id ∷ node_in pending again_id ∷ [];
  graph = looped;
  loop_iterations = (1, n) ∷ [];
  loop_outcome = [];
}

in_loop-IsBounded : IsBounded (in_loop 2)
in_loop-IsBounded = record { at = within }
  where
    within :
        (i : NodeId) (n : Node) (limit : ℕ)
        → OrdMap.get i looped.nodes ≡ some n
        → limit_of n ≡ some limit
        → iterations_of (in_loop 2) i ≤ limit
    within zero n limit e l = ground arith
    within (suc zero) n limit e l = ground (arith, e, l)
    within (suc (suc i)) n limit e l = ground arith

draft_no_loop : loop_node_of looped draft_id ≡ none
unfolding node_id_for_stage stage_id_eq
draft_no_loop = refl

marks-IsBounded_example :
    IsBounded (mark_complete draft_id (in_loop 2)) × IsBounded (mark_error draft_id (in_loop 2))
marks-IsBounded_example =
    marks-IsBounded draft_id (in_loop 2) looped-IsWellFormed draft_no_loop in_loop-IsBounded
