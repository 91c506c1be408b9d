-- ===== src/Graph/Order/Sound.antt =====
-- A returned order lists every node once, each behind all of its dependencies.
use zerochain.Prelude.{
  ◌+◌, ◌≡◌, refl, true, List, [], All, ok, >>=-eq-ok, nat_eq_instance, length, subst,
}
use zerochain.OrdMap
use zerochain.HashMap.{contains}
use zerochain.Graph.{WorkflowGraph, NodeId, topological_order, visit, for_each, fresh, Visit}
use zerochain.Graph.Order.Spec.{Distinct, IsOrdered}
use zerochain.Graph.Order.Walk.{Post, visit-Post, for_each-Post}

run-Post :
    (g : WorkflowGraph) (order : List NodeId)
    → topological_order g ≡ ok order
    → (t : Visit) × Post g (OrdMap.keys g.nodes) fresh t × (t.order ≡ order)
unfolding topological_order
run-Post g order h =
    let (t, walked, last) =
      >>=-eq-ok (for_each (visit (length g.nodes + 2) g) (OrdMap.keys g.nodes) fresh)
        (λ s. ok s.order) h in
    let p =
      for_each-Post g (visit (length g.nodes + 2) g) (visit-Post g (length g.nodes + 2))
        (OrdMap.keys g.nodes) fresh t (record { same = refl; ordered = tt; distinct = tt })
        walked in
    (t, p, cc)

-- A returned order has no node twice, has every node of the graph, and puts every dependency
-- before the nodes that depend on it.
pub topological_order-IsOrdered :
    (g : WorkflowGraph) (order : List NodeId)
    → topological_order g ≡ ok order
    → IsOrdered g [] order
      × Distinct order
      × All (λ k. contains k order ≡ true) (OrdMap.keys g.nodes)
topological_order-IsOrdered g order h =
    let (t, p, e) = run-Post g order h in
    subst
      (λ l. IsOrdered g [] l × Distinct l × All (λ k. contains k l ≡ true) (OrdMap.keys g.nodes)) e
      (p.inv.ordered, p.inv.distinct, p.done)
