-- ===== src/Graph/Order/Tests.antt =====
-- Small graphs: a chain of two stages, and two stages that depend on one another.
use zerochain.Prelude.{
  ◌≡◌, ◌≢◌, ◌↔◌, refl, ok, err, List, [], ◌∷◌, true, All, bytes, nat_eq_instance,
}
use zerochain.OrdMap
use zerochain.HashMap.{contains}
use zerochain.Errors.{plan_error, cycle_detected}
use zerochain.Stage.{StageId}
use zerochain.Graph.{
  WorkflowGraph, NodeId, stage, topological_order, deps_of, visit, failed, out_of_fuel,
}
use zerochain.Graph.Order.Spec.{IsOrdered, Distinct, Leads}
use zerochain.Graph.Order.Sound.{topological_order-IsOrdered}
use zerochain.Graph.Order.Fuel.{topological_order-ends}
use zerochain.Graph.Order.Cycle.{topological_order-err, topological_order-ok_iff}
use zerochain.Graph.Order.Ascending.{topological_order-keys}

abbrev first_id : StageId
first_id = record { sequence = 1; name = bytes "first"; raw = bytes "01_first" }

abbrev second_id : StageId
second_id = record { sequence = 2; name = bytes "second"; raw = bytes "02_second" }

abbrev chain : WorkflowGraph
chain = record {
  next_id = 2;
  nodes = (0, stage 0 first_id []) ∷ (1, stage 1 second_id (0 ∷ [])) ∷ [];
  stage_to_node = (first_id, 0) ∷ (second_id, 1) ∷ [];
}

abbrev knot : WorkflowGraph
knot = record {
  next_id = 2;
  nodes = (0, stage 0 first_id (1 ∷ [])) ∷ (1, stage 1 second_id (0 ∷ [])) ∷ [];
  stage_to_node = (first_id, 0) ∷ (second_id, 1) ∷ [];
}

order_of_chain : topological_order chain ≡ ok (0 ∷ 1 ∷ [])
unfolding topological_order visit deps_of
order_of_chain = refl

order_of_knot : topological_order knot ≡ err (failed (plan_error (cycle_detected 0)))
unfolding topological_order visit deps_of
order_of_knot = refl

chain-IsOrdered : IsOrdered chain [] (0 ∷ 1 ∷ [])
unfolding deps_of
chain-IsOrdered = (tt, ((refl, tt), tt))

topological_order-IsOrdered_example :
    IsOrdered chain [] (0 ∷ 1 ∷ [])
    × Distinct (0 ∷ 1 ∷ [])
    × All (λ k. contains k (0 ∷ 1 ∷ []) ≡ true) (OrdMap.keys chain.nodes)
topological_order-IsOrdered_example = topological_order-IsOrdered chain (0 ∷ 1 ∷ []) order_of_chain

topological_order-ends_example : topological_order knot ≢ err out_of_fuel
topological_order-ends_example = topological_order-ends knot

topological_order-err_example :
    (k : NodeId) × (failed (plan_error (cycle_detected 0)) ≡ failed (plan_error (cycle_detected k)))
    × Leads knot k k
topological_order-err_example =
    topological_order-err knot (failed (plan_error (cycle_detected 0))) order_of_knot

topological_order-ok_iff_example :
    ((order : List NodeId) × (topological_order chain ≡ ok order))
    ↔ ((k : NodeId) → ¬ Leads chain k k)
topological_order-ok_iff_example = topological_order-ok_iff chain

topological_order-keys_example : topological_order chain ≡ ok (OrdMap.keys chain.nodes)
topological_order-keys_example = topological_order-keys chain (refl, (refl, tt)) chain-IsOrdered
