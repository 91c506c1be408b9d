-- ===== src/Graph/Order/Ascending.antt =====
-- Graphs whose nodes come after their dependencies already: the order is that of the handles.
use mathlib.Core.List.{append_assoc, append-nil}
use zerochain.Prelude.{
  ℕ, suc, ◌+◌, ◌≡◌, refl, ◌∙◌, ap, true, false, List, [], ◌∷◌, ◌++◌, arith, nat_eq_instance, ok,
  length, All,
}
use zerochain.OrdMap
use zerochain.HashMap.{contains, contains-append, remove}
use zerochain.Graph.{
  WorkflowGraph, NodeId, deps_of, Visit, visit, for_each, enter, topological_order,
}
use zerochain.Graph.Order.Spec.{IsOrdered, Distinct}

remove_self : (i : NodeId) → remove i (i ∷ []) ≡ []
remove_self i = ground arith

add-two : (n : ℕ) → n + 2 ≡ suc (suc n)
add-two n = omega arith

away_nil : (is : List NodeId) → All (λ i. contains i [] ≡ false) is
away_nil [] = tt
away_nil (i ∷ is) = (refl, away_nil is)

away_snoc :
    (seen : List NodeId) (i : NodeId) (is : List NodeId)
    → All (λ j. contains j seen ≡ false) is
    → contains i is ≡ false
    → All (λ j. contains j (seen ++ i ∷ []) ≡ false) is
away_snoc seen i [] h k = tt
away_snoc seen i (j ∷ is) h k =
    (ground (arith, contains-append j seen (i ∷ []), h.0), away_snoc seen i is h.1 (ground arith))

module _ (g : WorkflowGraph) where
  -- All of `is` have been visited before.
  walk_visited :
      (fuel : ℕ) (is : List NodeId) (s : Visit)
      → All (λ i. contains i s.visited ≡ true) is
      → for_each (visit (suc fuel) g) is s ≡ ok s
  unfolding visit
  walk_visited fuel [] s h = refl
  walk_visited fuel (i ∷ is) s h = rw h.0 (walk_visited fuel is s h.1)

  abbrev at : List NodeId → Visit
  at seen = record { visited = seen; temp = []; order = seen }

  visit_next :
      (fuel : ℕ) (i : NodeId) (seen : List NodeId)
      → contains i seen ≡ false
      → All (λ d. contains d seen ≡ true) (deps_of g i)
      → visit (suc (suc fuel)) g i (at seen) ≡ ok (at (seen ++ i ∷ []))
  unfolding visit
  visit_next fuel i seen absent deps =
      rw absent
        (rw (walk_visited fuel (deps_of g i) (enter i (at seen)) deps) (rw (remove_self i) refl))

  visit_rest :
      (fuel : ℕ) (seen is : List NodeId)
      → All (λ i. contains i seen ≡ false) is
      → Distinct is
      → IsOrdered g seen is
      → for_each (visit (suc (suc fuel)) g) is (at seen) ≡ ok (at (seen ++ is))
  visit_rest fuel seen [] away d o = rw append-nil refl
  visit_rest fuel seen (i ∷ is) away d o = rw (visit_next fuel i seen away.0 o.0) (
      visit_rest fuel (seen ++ i ∷ []) is (away_snoc seen i is away.1 d.0) d.1 o.1
      ∙ ap (λ l. ok (at l)) (append_assoc seen (i ∷ []) is))

-- If the handles, in ascending order, come after their dependencies, they are the order.
pub topological_order-keys :
    (g : WorkflowGraph)
    → Distinct (OrdMap.keys g.nodes)
    → IsOrdered g [] (OrdMap.keys g.nodes)
    → topological_order g ≡ ok (OrdMap.keys g.nodes)
unfolding topological_order
topological_order-keys g d o = rw (add-two (length g.nodes)) (
    rw (visit_rest g (length g.nodes) [] (OrdMap.keys g.nodes) (away_nil (OrdMap.keys g.nodes)) d o)
      refl)
