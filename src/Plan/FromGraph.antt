-- ===== src/Plan/FromGraph.antt =====
-- crates/zerochain-core/src/plan.rs: `from_graph` and `from_stages`.
use zerochain.Prelude.{
  or_default, ℕ, Bool, false, Option, none, some, List, [], ◌∷◌, ◌++◌, if◌then◌else◌, Text, bytes,
  text_ord, nat_ord, nat_eq_instance, Result, ok, err, find, any, all, sort_by, Ordering, find,
}
use zerochain.OrdMap
use zerochain.OrdMap.{OrdMap}
use zerochain.Text.{take_while, is_digit, parse_uint}
use zerochain.Stage.{Stage, StageId, stage_id_eq, parallel_group, u32_mod, key_cmp}
use zerochain.Graph.{
  WorkflowGraph, NodeId, Node, stage_id, dependencies, Stop, topological_order, loops_for_body,
}
use zerochain.Graph.Control.{ControlOutcome, parse_record}
use zerochain.Graph.Builder.{push_group}
use zerochain.Graph.Builder as Builder
use zerochain.Plan.Types.{
  StageState, pending, complete, error, StageNode, StageGroup, ExecutionPlan, is_complete_state,
  is_error_state,
}

-- `topological_order().unwrap_or_else(|_| nodes().keys())`
abbrev pub order_or_keys : WorkflowGraph → Result Stop (List NodeId) → List NodeId
order_or_keys g (ok order) = order
order_or_keys g (err e) = OrdMap.keys g.nodes

unfoldable pub plan_order : WorkflowGraph → List NodeId
plan_order g = order_or_keys g (topological_order g)

abbrev pub find_stage : StageId → List Stage → Option Stage
find_stage s stages = find (λ (x : Stage). stage_id_eq x.id s) stages

-- The state of a stage by its marker files; an error marker comes first.
abbrev pub marker_state : Option Stage → StageState
marker_state none = pending
marker_state (some s) = if s.is_error then error else if s.is_complete then complete else pending

abbrev pub gate_of : Option Stage → Bool
gate_of none = false
gate_of (some s) = s.human_gate

-- The stages of those dependencies that have a node.
abbrev pub dependency_stages : WorkflowGraph → List NodeId → List StageId
dependency_stages g [] = []
dependency_stages g (d ∷ ds) =
    let rest = dependency_stages g ds in
    elim (OrdMap.get d g.nodes) [ none ↦ rest | some n ↦ stage_id n ∷ rest ]

-- Members of a parallel group share a key, every other stage has its own.
unfoldable pub group_key_of : StageId → Text
group_key_of s = elim (parallel_group s) [
  | none ↦ s.raw
  | some letter ↦ take_while is_digit s.raw ++ bytes "_parallel"
]

-- What the loop over the nodes builds up.
pub record Loading : Type 0 where
  pub stage_map : OrdMap Text StageNode
  pub groups : OrdMap Text (List StageId)
  pub loop_outcome : OrdMap NodeId ControlOutcome

abbrev pub insert_outcomes :
    List NodeId → ControlOutcome → OrdMap NodeId ControlOutcome → OrdMap NodeId ControlOutcome
insert_outcomes [] o m = m
insert_outcomes (l ∷ ls) o m = insert_outcomes ls o (OrdMap.insert l o m)

module _ (read_control : Stage → Option Text) (stages : List Stage) (g : WorkflowGraph) where
  -- The outcome in the stage's `.control` file counts for every loop around the stage.
  unfoldable pub load_control :
      Option Stage → OrdMap NodeId ControlOutcome → OrdMap NodeId ControlOutcome
  load_control none m = m
  load_control (some s) m = elim (read_control s) [
    | none ↦ m
    | some content ↦ elim (parse_record content) [
      | none ↦ m
      | some outcome ↦ insert_outcomes (loops_for_body s.id g) outcome m
    ]
  ]

  abbrev pub plan_node : Node → StageNode
  plan_node n =
      let found = find_stage (stage_id n) stages in
      record {
        id = stage_id n;
        dependencies = dependency_stages g (dependencies n);
        state = marker_state found;
        human_gate = gate_of found;
      }

  abbrev pub load_node : Node → Loading → Loading
  load_node n l =
      let s = stage_id n in
      record {
        stage_map = OrdMap.insert s.raw (plan_node n) l.stage_map;
        groups = push_group (group_key_of s) s l.groups;
        loop_outcome = load_control (find_stage s stages) l.loop_outcome;
      }

  unfoldable pub load_nodes : List NodeId → Loading → Loading
  load_nodes [] l = l
  load_nodes (i ∷ is) l = elim (OrdMap.get i g.nodes) [
    | none ↦ load_nodes is l
    | some n ↦ load_nodes is (load_node n l)
  ]

abbrev pub nothing_loaded : Loading
nothing_loaded = record { stage_map = []; groups = []; loop_outcome = [] }

-- Group keys are ordered by their leading number, 0 if there is none, and then as texts.
abbrev pub group_sort_key : Text → ℕ × Text
group_sort_key k = (elim (parse_uint u32_mod (take_while is_digit k)) [ none ↦ 0 | some n ↦ n ], k)

abbrev pub compare_group_keys : Text → Text → Ordering
compare_group_keys a b = key_cmp (group_sort_key a) (group_sort_key b)

-- `stage_map[&raw].state`. The source panics on a missing key; here such a stage has no state, and no
-- test holds of it.
abbrev pub state_in : OrdMap Text StageNode → StageId → Option StageState
state_in m s = elim (OrdMap.get s.raw m) [ none ↦ none | some n ↦ some n.state ]

abbrev pub has_state : (StageState → Bool) → OrdMap Text StageNode → StageId → Bool
has_state p m s = elim (state_in m s) [ none ↦ false | some x ↦ p x ]

abbrev pub group_state : OrdMap Text StageNode → List StageId → StageState
group_state m ids =
    if any (has_state is_error_state m) ids
    then error
    else if all (has_state is_complete_state m) ids
    then complete
    else pending

abbrev pub make_group : Loading → Text → StageGroup
make_group l key =
    let ids = or_default (OrdMap.get key l.groups) in
    record { group_key = key; stages = ids; state = group_state l.stage_map ids }

abbrev pub make_groups : Loading → List Text → List StageGroup
make_groups l [] = []
make_groups l (key ∷ keys) = make_group l key ∷ make_groups l keys

-- `read_control` gives the content of the file `.control` in a stage's directory, if it can be read.
unfoldable pub from_graph : (Stage → Option Text) → List Stage → WorkflowGraph → ExecutionPlan
from_graph read_control stages g =
    let l = load_nodes read_control stages g (plan_order g) nothing_loaded in
    record {
      groups = make_groups l (sort_by compare_group_keys (OrdMap.keys l.groups));
      stage_map = l.stage_map;
      graph = g;
      loop_iterations = [];
      loop_outcome = l.loop_outcome;
    }

unfoldable pub from_stages : (Stage → Option Text) → List Stage → ExecutionPlan
from_stages read_control stages = from_graph read_control stages (Builder.from_stages stages)
