-- ===== src/Graph/Builder.antt =====
-- crates/zerochain-core/src/graph.rs: `StageGraphBuilder::from_stages`.
pub mod Ranges
pub mod Layout
pub mod Built
pub mod Groups
pub mod Grouped
use mathlib.Core.Option
use zerochain.Prelude.{
  or_default, ℕ, Option, none, some, List, [], ◌∷◌, ◌++◌, Result, ok, err, nat_ord, Ord,
}
use zerochain.OrdMap
use zerochain.OrdMap.{OrdMap}
use zerochain.Errors.{Error}
use zerochain.Stage.{Stage, StageId}
use zerochain.Graph.{WorkflowGraph, NodeId, new, add_stage, add_dependency}

-- `entry(key).or_default().push(value)`
abbrev pub push_group {ℓ κ} :
    {K : Type ℓ} {V : Type κ} ⦃o : Ord K⦄ → K → V → OrdMap K (List V) → OrdMap K (List V)
push_group k v m = OrdMap.insert k (or_default (OrdMap.get k m) ++ v ∷ []) m

-- The stages by their sequence numbers.
abbrev pub group_stages : List Stage → OrdMap ℕ (List StageId) → OrdMap ℕ (List StageId)
group_stages [] groups = groups
group_stages (s ∷ ss) groups = group_stages ss (push_group s.id.sequence s.id groups)

abbrev pub add_stages : List StageId → WorkflowGraph → WorkflowGraph × List NodeId
add_stages [] g = (g, [])
add_stages (s ∷ ss) g =
    let (g', node) = add_stage s g in let (g'', nodes) = add_stages ss g' in (g'', node ∷ nodes)

-- `let _ =` drops an error.
abbrev pub or_keep : WorkflowGraph → Result Error WorkflowGraph → WorkflowGraph
or_keep g (ok h) = h
or_keep g (err e) = g

abbrev pub link_node : NodeId → List NodeId → WorkflowGraph → WorkflowGraph
link_node node [] g = g
link_node node (dep ∷ deps) g = link_node node deps (or_keep g (add_dependency node dep g))

abbrev pub link_nodes : List NodeId → List NodeId → WorkflowGraph → WorkflowGraph
link_nodes [] prev g = g
link_nodes (node ∷ nodes) prev g = link_nodes nodes prev (link_node node prev g)

-- One round of the loop over the groups in ascending order.
abbrev pub add_groups : List (List StageId) → List NodeId → WorkflowGraph → WorkflowGraph
add_groups [] prev g = g
add_groups (stage_ids ∷ rest) prev g =
    let (g', current) = add_stages stage_ids g in
    add_groups rest current (link_nodes current prev g')

unfoldable pub from_stages : List Stage → WorkflowGraph
from_stages stages = add_groups (OrdMap.values (group_stages stages [])) [] new
