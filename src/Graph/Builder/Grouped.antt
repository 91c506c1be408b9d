-- ===== src/Graph/Builder/Grouped.antt =====
-- crates/zerochain-core/src/graph.rs: the graph of a workflow and its order, by the groups of the stages.
use zerochain.Prelude.{
  ℕ, suc, ◌+◌, ◌≡◌, refl, sym, ◌∙◌, ap, none, some, List, [], ◌∷◌, ◌++◌, arith, nat_ord, length, ok,
  All, map,
}
use zerochain.OrdMap
use zerochain.OrdMap.{OrdMap}
use zerochain.OrdMap.Sorted.{entries-get}
use zerochain.Stage.{Stage, StageId}
use zerochain.Graph.{NodeId, Node, stage_id, topological_order}
use zerochain.Graph.WellFormed.{range_from}
use zerochain.Graph.Builder.{from_stages, group_stages}
use zerochain.Graph.Builder.Layout.{layout, layout_group, from_stages-nodes}
use zerochain.Graph.Builder.Ranges.{range-IsSorted}
use zerochain.Graph.Builder.Groups.{IsGrouping, group_stages-IsGrouping}
use zerochain.Graph.Builder.Built.{keys-from_stages, topological_order-from_stages}

-- The built graph has a node for each stage, with consecutive handles, group by group in ascending
-- order of the sequence numbers; a group is the stages with one number, in the order given, and each
-- of its nodes depends on all nodes of the group before it.
pub from_stages-IsGrouping :
    (stages : List Stage)
    → (groups : OrdMap ℕ (List StageId)) × IsGrouping stages groups
      × ((from_stages stages).nodes ≡ layout 0 [] (OrdMap.values groups))
from_stages-IsGrouping stages =
    (group_stages stages [], group_stages-IsGrouping stages, from_stages-nodes stages)

-- The stages that the nodes of some handles name.
abbrev pub named_by : OrdMap NodeId Node → List NodeId → List StageId
named_by nodes [] = []
named_by nodes (i ∷ is) =
    let rest = named_by nodes is in
    elim (OrdMap.get i nodes) [ none ↦ rest | some n ↦ stage_id n ∷ rest ]

abbrev pub joined : List (List StageId) → List StageId
joined [] = []
joined (ids ∷ rest) = ids ++ joined rest

named_by-keys :
    (nodes m : OrdMap NodeId Node)
    → All (λ e. OrdMap.get e.0 nodes ≡ some e.1) m
    → named_by nodes (OrdMap.keys m) ≡ map stage_id (OrdMap.values m)
named_by-keys nodes [] h = refl
named_by-keys nodes ((i, n) ∷ m) h = ground (arith, h.0, named_by-keys nodes m h.1)

stages-layout_group :
    (next : NodeId) (prev : List NodeId) (ids : List StageId) (rest : OrdMap NodeId Node)
    → map stage_id (OrdMap.values (layout_group next prev ids ++ rest))
      ≡ ids ++ map stage_id (OrdMap.values rest)
stages-layout_group next prev [] rest = refl
stages-layout_group next prev (s ∷ ss) rest =
    ap (λ l. s ∷ l) (stages-layout_group (suc next) prev ss rest)

stages-layout :
    (next : NodeId) (prev : List NodeId) (groups : List (List StageId))
    → map stage_id (OrdMap.values (layout next prev groups)) ≡ joined groups
stages-layout next prev [] = refl
stages-layout next prev (ids ∷ rest) =
    let current = range_from next (length ids) in
    stages-layout_group next prev ids (layout (next + length ids) current rest)
    ∙ ap (λ l. ids ++ l) (stages-layout (next + length ids) current rest)

-- The built graph has no cycle, and its order names the stages group by group, in ascending order of
-- the sequence numbers; a group is the stages with one number, in the order given.
pub topological_order-IsGrouping :
    (stages : List Stage)
    → (order : List NodeId) × (groups : OrdMap ℕ (List StageId)) × (topological_order
          (from_stages stages)
        ≡ ok order)
      × IsGrouping stages groups
      × (named_by (from_stages stages).nodes order ≡ joined (OrdMap.values groups))
topological_order-IsGrouping stages =
    let nodes = (from_stages stages).nodes in
    let groups = group_stages stages [] in
    let keys = keys-from_stages stages in
    let found = entries-get nodes (range-IsSorted 0 (length stages) nodes keys) in
    (
      range_from 0 (length stages),
      groups,
      topological_order-from_stages stages,
      group_stages-IsGrouping stages,
      ap (named_by nodes) (sym keys)
          ∙ named_by-keys nodes nodes found
          ∙ ap (λ m. map stage_id (OrdMap.values m)) (from_stages-nodes stages)
          ∙ stages-layout 0 [] (OrdMap.values groups),
    )
