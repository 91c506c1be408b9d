-- ===== src/Graph/Tests.antt =====
-- Small graphs that are built by the methods of the graph, and control records.
use zerochain.Prelude.{
  ℕ, ◌≡◌, ◌≢◌, ◌↔◌, refl, ok, some, none, List, [], ◌∷◌, ◌++◌, bytes, Text, false,
}
use zerochain.OrdMap
use zerochain.OrdMap.{OrdMap}
use zerochain.Stage.{Stage, StageId, stage_id_eq}
use zerochain.Text.{trim}
use zerochain.Graph.{
  WorkflowGraph, NodeId, LoopExhaustion, stage, loop, new, add_stage, add_loop, add_dependency,
  topological_order,
}
use zerochain.Graph.Control
use zerochain.Graph.Control.{as_record, parse_record, parse_record-eq_some_iff}
use zerochain.Graph.WellFormed.{
  IsWellFormed, new-IsWellFormed, add_stage-IsWellFormed, add_loop-IsWellFormed,
}
use zerochain.Graph.Builder.{from_stages}
use zerochain.Graph.Builder.Layout.{layout}
use zerochain.Graph.Builder.Groups.{IsGrouping}
use zerochain.Graph.Builder.Grouped.{
  from_stages-IsGrouping, topological_order-IsGrouping, named_by, joined,
}

abbrev pub draft_id : StageId
draft_id = record { sequence = 1; name = bytes "draft"; raw = bytes "01_draft" }

abbrev pub review_id : StageId
review_id = record { sequence = 2; name = bytes "areview"; raw = bytes "02a_review" }

abbrev pub again_id : StageId
again_id = record { sequence = 3; name = bytes "again"; raw = bytes "03_again" }

abbrev one_stage : WorkflowGraph
one_stage = record {
  next_id = 1;
  nodes = (0, stage 0 draft_id []) ∷ [];
  stage_to_node = (draft_id, 0) ∷ [];
}

one_stage-IsWellFormed : IsWellFormed one_stage
unfolding add_stage
one_stage-IsWellFormed = add_stage-IsWellFormed draft_id new new-IsWellFormed

abbrev pub looped : WorkflowGraph
looped = record {
  next_id = 2;
  nodes = (0, stage 0 draft_id []) ∷ (1, loop 1 again_id 0 3 LoopExhaustion.succeed []) ∷ [];
  stage_to_node = (draft_id, 0) ∷ (again_id, 1) ∷ [];
}

add_loop_given : add_loop again_id 0 3 LoopExhaustion.succeed one_stage ≡ ok (looped, 1)
unfolding add_loop stage_id_eq
add_loop_given = refl

pub looped-IsWellFormed : IsWellFormed looped
looped-IsWellFormed =
    add_loop-IsWellFormed again_id 0 3 LoopExhaustion.succeed one_stage one_stage-IsWellFormed
      add_loop_given

abbrev linked : WorkflowGraph
linked = record {
  next_id = 2;
  nodes = (0, stage 0 draft_id []) ∷ (1, loop 1 again_id 0 3 LoopExhaustion.succeed (0 ∷ [])) ∷ [];
  stage_to_node = (draft_id, 0) ∷ (again_id, 1) ∷ [];
}

add_dependency_given : add_dependency 1 0 looped ≡ ok linked
unfolding add_dependency
add_dependency_given = refl

abbrev padded_return : Text
padded_return = bytes " " ++ as_record Control.ret ++ bytes " "

parse_record-eq_some_iff_example :
    (parse_record padded_return ≡ some Control.ret)
    ↔ ((trim padded_return ≡ as_record Control.ret) × (Control.ret ≢ Control.cont))
parse_record-eq_some_iff_example = parse_record-eq_some_iff padded_return Control.ret

abbrev pub stage_of : StageId → Stage
stage_of s = record {
  id = s;
  path = s.raw;
  is_complete = false;
  is_error = false;
  context_path = s.raw;
  input_path = s.raw;
  output_path = s.raw;
  human_gate = false;
  container_image = none;
  command = none;
}

abbrev pub three : List Stage
three = stage_of draft_id ∷ stage_of review_id ∷ stage_of again_id ∷ []

from_stages-IsGrouping_example :
    (groups : OrdMap ℕ (List StageId)) × IsGrouping three groups
    × ((from_stages three).nodes ≡ layout 0 [] (OrdMap.values groups))
from_stages-IsGrouping_example = from_stages-IsGrouping three

topological_order-IsGrouping_example :
    (order : List NodeId) × (groups : OrdMap ℕ (List StageId)) × (topological_order
        (from_stages three)
      ≡ ok order)
    × IsGrouping three groups
    × (named_by (from_stages three).nodes order ≡ joined (OrdMap.values groups))
topological_order-IsGrouping_example = topological_order-IsGrouping three
