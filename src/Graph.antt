-- ===== src/Graph.antt =====
-- crates/zerochain-core/src/graph.rs: control outcomes, nodes and the workflow graph.
pub mod Control
pub mod WellFormed
pub mod Order
pub mod Builder
pub mod Tests
use mathlib.Core.Option
use zerochain.Prelude.{
  ℕ, zero, suc, ◌+◌, Bool, true, false, Option, none, some, List, [], ◌∷◌, ◌++◌, nat_eq,
  if◌then◌else◌, Result, ok, err, ◌>>=◌, Eq, nat_ord, nat_eq_instance, arith, ◌≡◌, length,
}
use zerochain.OrdMap
use zerochain.OrdMap.{OrdMap}
use zerochain.HashMap
use zerochain.HashMap.{HashMap, contains, remove}
use zerochain.Errors.{Error, plan_error, PlanReason, cycle_detected, body_missing, node_missing}
use zerochain.Stage.{StageId, stage_id_eq_instance}

abbrev pub NodeId : Type 0
NodeId = ℕ

-- What a loop does at its iteration limit.
pub data LoopExhaustion : Type 0 where
  fail succeed : LoopExhaustion

pub data Node : Type 0 where
  stage : (id : NodeId) (stage_id : StageId) (dependencies : List NodeId) → Node
  loop :
      (id : NodeId) (stage_id : StageId) (body : NodeId) (max_iterations : ℕ)
      (on_exhausted : LoopExhaustion) (dependencies : List NodeId)
      → Node

abbrev pub id : Node → NodeId
id (stage i s ds) = i
id (loop i s b m x ds) = i

abbrev pub stage_id : Node → StageId
stage_id (stage i s ds) = s
stage_id (loop i s b m x ds) = s

abbrev pub dependencies : Node → List NodeId
dependencies (stage i s ds) = ds
dependencies (loop i s b m x ds) = ds

pub record WorkflowGraph : Type 0 where
  pub next_id : ℕ
  pub nodes : OrdMap NodeId Node
  pub stage_to_node : HashMap StageId NodeId

abbrev pub new : WorkflowGraph
new = record { next_id = 0; nodes = []; stage_to_node = [] }

-- A node enters under the handle that `alloc_id` gives out.
abbrev pub push_node : StageId → Node → WorkflowGraph → WorkflowGraph
push_node s n g = record {
  next_id = suc g.next_id;
  nodes = OrdMap.insert g.next_id n g.nodes;
  stage_to_node = HashMap.insert s g.next_id g.stage_to_node;
}

unfoldable pub add_stage : StageId → WorkflowGraph → WorkflowGraph × NodeId
add_stage s g = (push_node s (stage g.next_id s []) g, g.next_id)

unfoldable pub add_loop :
    StageId → NodeId → ℕ → LoopExhaustion → WorkflowGraph → Result Error (WorkflowGraph × NodeId)
add_loop s body max_iterations on_exhausted g =
    if OrdMap.contains_key body g.nodes
    then ok (push_node s (loop g.next_id s body max_iterations on_exhausted []) g, g.next_id)
    else err (plan_error (body_missing body))

-- A dependency is pushed once.
abbrev pub push_dependency : List NodeId → NodeId → List NodeId
push_dependency ds d = if contains d ds then ds else ds ++ d ∷ []

abbrev pub with_dependency : NodeId → Node → Node
with_dependency d (stage i s ds) = stage i s (push_dependency ds d)
with_dependency d (loop i s b m x ds) = loop i s b m x (push_dependency ds d)

-- Nothing checks that the dependency itself exists.
unfoldable pub add_dependency : NodeId → NodeId → WorkflowGraph → Result Error WorkflowGraph
add_dependency node dependency g =
    if OrdMap.contains_key node g.nodes
    then ok (record g { nodes = OrdMap.update node (with_dependency dependency) g.nodes })
    else err (plan_error (node_missing node))

unfoldable pub get : NodeId → WorkflowGraph → Option Node
get i g = OrdMap.get i g.nodes

unfoldable pub node_id_for_stage : StageId → WorkflowGraph → Option NodeId
node_id_for_stage s g = HashMap.get s g.stage_to_node

unfoldable pub get_by_stage : StageId → WorkflowGraph → Option Node
get_by_stage s g = elim (HashMap.get s g.stage_to_node) [
  | none ↦ none
  | some i ↦ OrdMap.get i g.nodes
]

-- The loops among the nodes that wrap the given body.
abbrev pub loops_of : NodeId → List Node → List NodeId
loops_of b [] = []
loops_of b (stage i s ds ∷ ns) = loops_of b ns
loops_of b (loop i s body m x ds ∷ ns) =
    let rest = loops_of b ns in if nat_eq body b then i ∷ rest else rest

unfoldable pub loops_for_body : StageId → WorkflowGraph → List NodeId
loops_for_body s g = elim (HashMap.get s g.stage_to_node) [
  | none ↦ []
  | some b ↦ loops_of b (OrdMap.values g.nodes)
]

-- The dependencies that `visit` walks: none for a handle without a node.
unfoldable pub deps_of : WorkflowGraph → NodeId → List NodeId
deps_of g i = elim (OrdMap.get i g.nodes) [ none ↦ [] | some n ↦ dependencies n ]

-- The local state of `topological_order`. A set is the list of its members.
pub record Visit : Type 0 where
  pub visited : List NodeId
  pub temp : List NodeId
  pub order : List NodeId

-- `out_of_fuel` is the model's own: it is never returned, see Graph/Order/Fuel.antt.
pub data Stop : Type 0 where
  failed : Error → Stop
  out_of_fuel : Stop

-- A `for` loop whose body may return early.
abbrev pub for_each : (NodeId → Visit → Result Stop Visit) → List NodeId → Visit → Result Stop Visit
for_each body [] s = ok s
for_each body (i ∷ is) s = body i s >>= for_each body is

abbrev pub enter : NodeId → Visit → Visit
enter i s = record s { temp = i ∷ s.temp }

abbrev pub leave : NodeId → Visit → Visit
leave i s = record {
  visited = s.visited ++ i ∷ [];
  temp = remove i s.temp;
  order = s.order ++ i ∷ [];
}

unfoldable pub visit : ℕ → WorkflowGraph → NodeId → Visit → Result Stop Visit
visit zero g i s = err out_of_fuel
visit (suc fuel) g i s =
    let walk = for_each (visit fuel g) (deps_of g i) (enter i s) in
    if contains i s.visited
    then ok s
    else if contains i s.temp
    then err (failed (plan_error (cycle_detected i)))
    else (do s' ← walk; ok (leave i s'))

abbrev pub fresh : Visit
fresh = record { visited = []; temp = []; order = [] }

-- One round of recursion for each node, one for a dependency without a node, and one to stop.
unfoldable pub topological_order : WorkflowGraph → Result Stop (List NodeId)
unfolding visit
topological_order g = do
  s ← for_each (visit (length g.nodes + 2) g) (OrdMap.keys g.nodes) fresh
  ok s.order
