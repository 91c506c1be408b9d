-- ===== src/Plan/Types.antt =====
-- crates/zerochain-core/src/plan.rs: the data of a plan. A loop's counter is a number without bound:
-- it is raised once for a stage that was run, and cannot reach the 2 ^ 64 of `usize`.
use zerochain.Prelude.{ℕ, Bool, true, false, List, Text}
use zerochain.OrdMap.{OrdMap}
use zerochain.Stage.{StageId}
use zerochain.Graph.{WorkflowGraph, NodeId}
use zerochain.Graph.Control.{ControlOutcome}

pub data StageState : Type 0 where
  pending ready running complete error : StageState

pub record StageNode : Type 0 where
  pub id : StageId
  pub dependencies : List StageId
  pub state : StageState
  pub human_gate : Bool

pub record StageGroup : Type 0 where
  pub group_key : Text
  pub stages : List StageId
  pub state : StageState

pub record ExecutionPlan : Type 0 where
  pub groups : List StageGroup
  pub stage_map : OrdMap Text StageNode
  pub graph : WorkflowGraph
  pub loop_iterations : OrdMap NodeId ℕ
  pub loop_outcome : OrdMap NodeId ControlOutcome

-- `matches!(state, StageState::Complete)` and the like
abbrev pub is_complete_state : StageState → Bool
is_complete_state complete = true
is_complete_state _ = false

abbrev pub is_error_state : StageState → Bool
is_error_state error = true
is_error_state _ = false

abbrev pub is_pending_state : StageState → Bool
is_pending_state pending = true
is_pending_state _ = false
