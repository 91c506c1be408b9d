-- ===== src/Plan/Progress.antt =====
-- A plan offers a stage as long as one is left to run.
use zerochain.Prelude.{
  ◌≡◌, ◌≢◌, ◌↔◌, ◌⊎◌, inl, inr, refl, sym, ap, ◌∙◌, true, none, some, List, [], ◌∷◌, ◌++◌, arith,
  nat_ord, nat_eq_iff, nat_eq_instance, ok, all, All, Bool-cases,
}
use zerochain.OrdMap
use zerochain.HashMap.{contains, contains-append}
use zerochain.Graph.{WorkflowGraph, NodeId, Node, dependencies, deps_of, topological_order}
use zerochain.Graph.Order.Spec.{IsOrdered}
use zerochain.Graph.Order.Sound.{topological_order-IsOrdered}
use zerochain.Plan.Types.{pending, complete, ExecutionPlan}
use zerochain.Plan.FromGraph.{plan_order, order_or_keys}
use zerochain.Plan.State.{node_state, next_stage, next_from, is_complete, is_complete_node}

-- Every member has a node, and is either still to be run or complete: none has failed or waits for
-- the end of a loop.
abbrev pub IsSettled : ExecutionPlan → NodeId → Type 0
IsSettled p i =
    ((n : Node) × (OrdMap.get i p.graph.nodes ≡ some n))
    × ((node_state p i ≡ pending) ⊎ (node_state p i ≡ complete))

-- What is visited so far is complete.
abbrev AllDone : ExecutionPlan → List NodeId → Type 0
AllDone p seen = (d : NodeId) → contains d seen ≡ true → node_state p d ≡ complete

deps_done :
    (p : ExecutionPlan) (seen ds : List NodeId)
    → AllDone p seen
    → All (λ d. contains d seen ≡ true) ds
    → all (is_complete_node p) ds ≡ true
deps_done p seen [] done h = refl
deps_done p seen (d ∷ ds) done h = ground (arith, done d h.0, deps_done p seen ds done h.1)

deps_of-some :
    (g : WorkflowGraph) (i : NodeId) (n : Node)
    → OrdMap.get i g.nodes ≡ some n
    → deps_of g i ≡ dependencies n
unfolding deps_of
deps_of-some g i n e = rw (e, deps_of)

AllDone-snoc :
    (p : ExecutionPlan) (seen : List NodeId) (i : NodeId)
    → AllDone p seen
    → node_state p i ≡ complete
    → AllDone p (seen ++ i ∷ [])
AllDone-snoc p seen i done h d k = elim (Bool-cases (contains d seen)) [
  | inl old ↦ done d old
  | inr new ↦
      let same : i ≡ d = (nat_eq_iff i d).0 (ground (arith, contains-append d seen (i ∷ []))) in
      rw (← same) h
]

module _ (p : ExecutionPlan) where
  all_complete :
      (seen order : List NodeId)
      → IsOrdered p.graph seen order
      → AllDone p seen
      → All (IsSettled p) order
      → next_from p order ≡ none
      → all (is_complete_node p) order ≡ true
  all_complete seen [] o done settled h = refl
  all_complete seen (i ∷ is) o done settled h =
      let ((n, e), state) = settled.0 in
      let deps = deps_done p seen (dependencies n) done (rw (deps_of-some p.graph i n e) at o.0) in
      elim state [
        | inl waits ↦ absurd (ground (arith, e, waits, deps))
        | inr is_done ↦
            let rest =
              all_complete (seen ++ i ∷ []) is o.1 (AllDone-snoc p seen i done is_done) settled.1
                (ground (arith, e, is_done)) in
            ground (arith, is_done, rest)
      ]

  none_offered :
      (order : List NodeId)
      → All (IsSettled p) order
      → all (is_complete_node p) order ≡ true
      → next_from p order ≡ none
  none_offered [] settled h = refl
  none_offered (i ∷ is) settled h =
      let ((n, e), state) = settled.0 in
      elim state [
        | inl waits ↦ absurd (ground (arith, waits))
        | inr is_done ↦ ground (arith, e, is_done, none_offered is settled.1 (ground arith))
      ]

pub plan_order-ok :
    (g : WorkflowGraph) (order : List NodeId)
    → topological_order g ≡ ok order
    → plan_order g ≡ order
unfolding plan_order
plan_order-ok g order e = ap (order_or_keys g) e

is_complete-nodes :
    (p : ExecutionPlan)
    → p.graph.nodes ≢ []
    → is_complete p ≡ all (is_complete_node p) (plan_order p.graph)
unfolding is_complete
is_complete-nodes p h = ground (arith, h)

next_stage-order :
    (p : ExecutionPlan) (order : List NodeId)
    → topological_order p.graph ≡ ok order
    → next_stage p ≡ next_from p order
unfolding next_stage
next_stage-order p order e = ap (next_from p) (plan_order-ok p.graph order e)

pub next_stage-none_iff :
    (p : ExecutionPlan) (order : List NodeId)
    → topological_order p.graph ≡ ok order
    → p.graph.nodes ≢ []
    → All (IsSettled p) order
    → (next_stage p ≡ none) ↔ (is_complete p ≡ true)
next_stage-none_iff p order e some_node settled =
    let ordered = (topological_order-IsOrdered p.graph order e).0 in
    let offered = next_stage-order p order e in
    let completes =
      is_complete-nodes p some_node
      ∙ ap (all (is_complete_node p)) (plan_order-ok p.graph order e) in
    (
      λ h. completes ∙ all_complete p [] order ordered (λ d k. absurd cc) settled (sym offered ∙ h),
      λ h. offered ∙ none_offered p order settled (sym completes ∙ h),
    )
