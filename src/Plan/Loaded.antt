-- ===== src/Plan/Loaded.antt =====
-- The plan that is built from the stages: it has no loop, and it knows the stage of every node.
use zerochain.Prelude.{
  suc, ◌+◌, ◌≡◌, ◌⊎◌, inl, inr, refl, sym, ap, ◌∙◌, subst, true, false, Option, some, List, [], ◌∷◌,
  ◌++◌, arith, nat_ord, nat_eq_instance, nat_eq, nat_eq_iff, ok, All, Bool-cases, Option-cases,
  text_ord, length, Text,
}
use zerochain.OrdMap
use zerochain.OrdMap.{OrdMap}
use zerochain.HashMap.{contains}
use zerochain.Stage.{Stage, StageId, stage_id_eq}
use zerochain.Graph.{WorkflowGraph, NodeId, Node, stage_id, topological_order}
use zerochain.Graph.WellFormed.{range_from}
use zerochain.Graph.Order.Fuel.{contains-keys}
use zerochain.Graph.Builder as Builder
use zerochain.Graph.Builder.{group_stages}
use zerochain.Graph.Builder.Layout.{layout, layout_group, from_stages-nodes}
use zerochain.Graph.Builder.Built.{keys-from_stages, topological_order-from_stages}
use zerochain.Plan.Types.{pending, complete, StageNode}
use zerochain.Plan.FromGraph.{
  plan_order, Loading, load_nodes, load_node, plan_node, nothing_loaded, from_graph, from_stages,
  marker_state, find_stage,
}
use zerochain.Plan.Marks.{IsStageNode, IsLoopFree}
use zerochain.Plan.Run.{IsLoaded}
use zerochain.Plan.Progress.{plan_order-ok}

stages-append :
    (m r : OrdMap NodeId Node)
    → All IsStageNode (OrdMap.values m)
    → All IsStageNode (OrdMap.values r)
    → All IsStageNode (OrdMap.values (m ++ r))
stages-append [] r a b = b
stages-append (e ∷ m) r a b = (a.0, stages-append m r a.1 b)

stages-layout_group :
    (next : NodeId) (prev : List NodeId) (ids : List StageId)
    → All IsStageNode (OrdMap.values (layout_group next prev ids))
stages-layout_group next prev [] = tt
stages-layout_group next prev (s ∷ ss) = (tt, stages-layout_group (suc next) prev ss)

stages-layout :
    (next : NodeId) (prev : List NodeId) (groups : List (List StageId))
    → All IsStageNode (OrdMap.values (layout next prev groups))
stages-layout next prev [] = tt
stages-layout next prev (ids ∷ rest) =
    stages-append (layout_group next prev ids) _ (stages-layout_group next prev ids)
      (stages-layout (next + length ids) (range_from next (length ids)) rest)

pub from_stages-IsLoopFree : (stages : List Stage) → IsLoopFree (Builder.from_stages stages)
from_stages-IsLoopFree stages = record {
  only_stages =
      subst (λ (m : OrdMap NodeId Node). All IsStageNode (OrdMap.values m))
        (sym (from_stages-nodes stages))
        (stages-layout 0 [] (OrdMap.values (group_stages stages [])));
}

-- What the table says of a stage is pending or complete.
abbrev pub NoError : OrdMap Text StageNode → Type 0
NoError m =
    (k : Text) (n : StageNode)
    → OrdMap.get k m ≡ some n
    → (n.state ≡ pending) ⊎ (n.state ≡ complete)

module _ (read_control : Stage → Option Text) (stages : List Stage) (g : WorkflowGraph) where
  load_node-keeps :
      (n : Node) (k : Text) (l : Loading)
      → OrdMap.contains_key k l.stage_map ≡ true
      → OrdMap.contains_key k (load_node read_control stages g n l).stage_map ≡ true
  load_node-keeps n k l h =
      ground (
        arith,
        OrdMap.get-insert k (stage_id n).raw (plan_node read_control stages g n) l.stage_map,
      )

  load_nodes-keeps :
      (is : List NodeId) (k : Text) (l : Loading)
      → OrdMap.contains_key k l.stage_map ≡ true
      → OrdMap.contains_key k (load_nodes read_control stages g is l).stage_map ≡ true
  unfolding load_nodes
  load_nodes-keeps [] k l h = h
  load_nodes-keeps (i ∷ is) k l h = elim (Option-cases (OrdMap.get i g.nodes)) [
    | inl e ↦ ground (arith, e, load_nodes-keeps is k l h)
    | inr (n, e) ↦ ground (
      arith,
      e,
      load_nodes-keeps is k (load_node read_control stages g n l) (load_node-keeps n k l h),
    )
  ]

  -- A node that the loop comes by is in the table.
  load_nodes-knows :
      (is : List NodeId) (i : NodeId) (n : Node) (l : Loading)
      → contains i is ≡ true
      → OrdMap.get i g.nodes ≡ some n
      → OrdMap.contains_key (stage_id n).raw (load_nodes read_control stages g is l).stage_map
        ≡ true
  unfolding load_nodes
  load_nodes-knows [] i n l h e = absurd cc
  load_nodes-knows (j ∷ is) i n l h e = elim (Bool-cases (nat_eq j i)) [
    | inl same ↦
        let here : OrdMap.get j g.nodes ≡ some n =
          ap (λ k. OrdMap.get k g.nodes) ((nat_eq_iff j i).0 same) ∙ e in
        let own : OrdMap.contains_key (stage_id n).raw
              (load_node read_control stages g n l).stage_map
            ≡ true =
          ground (
            arith,
            OrdMap.get-insert_self (stage_id n).raw (plan_node read_control stages g n) l.stage_map,
          ) in
        ground (
          arith,
          here,
          load_nodes-keeps is (stage_id n).raw (load_node read_control stages g n l) own,
        )
    | inr other ↦ elim (Option-cases (OrdMap.get j g.nodes)) [
      | inl f ↦ ground (arith, f, load_nodes-knows is i n l (ground arith) e)
      | inr (m, f) ↦
          ground (
            arith,
            f,
            load_nodes-knows is i n (load_node read_control stages g m l) (ground arith) e,
          )
    ]
  ]

  load_nodes-NoError :
      ((s : StageId)
        → (marker_state (find_stage s stages) ≡ pending)
          ⊎ (marker_state (find_stage s stages) ≡ complete))
      → (is : List NodeId) (l : Loading) → NoError l.stage_map
      → NoError (load_nodes read_control stages g is l).stage_map
  unfolding load_nodes
  load_nodes-NoError fine [] l h = h
  load_nodes-NoError fine (i ∷ is) l h = elim (Option-cases (OrdMap.get i g.nodes)) [
    | inl e ↦ rw (e, load_nodes) (load_nodes-NoError fine is l h)
    | inr (n, e) ↦
        rw (e, load_nodes)
          (load_nodes-NoError fine is (load_node read_control stages g n l) (λ k m f.
            elim (OrdMap.get-insert_cases k (stage_id n).raw (plan_node read_control stages g n) m
              l.stage_map f) [
                | inl (same, made) ↦ rw made (fine (stage_id n))
                | inr (other, old) ↦ h k m old
              ]))
  ]

-- The markers of the stages that were read say nothing of an error.
abbrev pub NoMarker : List Stage → Type 0
NoMarker = All (λ (s : Stage). s.is_error ≡ false)

marker_state-cases :
    (stages : List Stage) (s : StageId)
    → NoMarker stages
    → (marker_state (find_stage s stages) ≡ pending)
      ⊎ (marker_state (find_stage s stages) ≡ complete)
marker_state-cases [] s h = inl refl
marker_state-cases (x ∷ xs) s h = elim (Bool-cases (stage_id_eq x.id s)) [
  | inl here ↦ elim (Bool-cases x.is_complete) [
    | inl done ↦ inr (ground (arith, here, done, h.0))
    | inr left ↦ inl (ground (arith, here, left, h.0))
  ]
  | inr later ↦ rw later (marker_state-cases xs s h.1)
]

module _ (read_control : Stage → Option Text) (stages : List Stage) where
  pub order-from_stages :
      topological_order (Builder.from_stages stages)
      ≡ ok (OrdMap.keys (Builder.from_stages stages).nodes)
  order-from_stages = topological_order-from_stages stages ∙ ap ok (sym (keys-from_stages stages))

  -- The plan of the stages knows the stage of each of its nodes.
  pub from_stages-IsLoaded : IsLoaded (from_stages read_control stages)
  unfolding from_stages from_graph
  from_stages-IsLoaded i n e =
      let g = Builder.from_stages stages in
      load_nodes-knows read_control stages g (plan_order g) i n nothing_loaded
        (ap (contains i) (plan_order-ok g (OrdMap.keys g.nodes) order-from_stages)
          ∙ contains-keys i g.nodes n e)
        e

  pub from_stages-NoError : NoMarker stages → NoError (from_stages read_control stages).stage_map
  unfolding from_stages from_graph
  from_stages-NoError h =
      load_nodes-NoError read_control stages (Builder.from_stages stages)
        (λ s. marker_state-cases stages s h) _ nothing_loaded (λ k n e. absurd cc)
