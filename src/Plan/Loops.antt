-- ===== src/Plan/Loops.antt =====
-- The counters of loops: marking the stages that are run never takes one past its limit.
use zerochain.Prelude.{
  ℕ, ◌+◌, ◌<◌, ◌≤◌, ◌≡◌, inl, inr, refl, sym, ap, ◌∙◌, subst, Option, none, some, List, [], ◌∷◌,
  arith, nat_ord, nat_eq, nat_eq_instance, Bool-cases, Option-cases, Ordering-cases, some-inj, leb,
  All, compare, text_ord,
}
use zerochain.OrdMap
use zerochain.OrdMap.{OrdMap}
use zerochain.OrdMap.Sorted.{entries-get}
use zerochain.Stage.{StageId}
use zerochain.Graph.{WorkflowGraph, NodeId, Node, stage, loop, id, node_id_for_stage}
use zerochain.Graph.WellFormed.{IsWellFormed}
use zerochain.Graph.Builder.Ranges.{range-IsSorted}
use zerochain.Plan.Types.{ExecutionPlan}
use zerochain.Plan.State.{iterations_of}
use zerochain.Plan.Update.{
  mark_complete, mark_error, completed, failed, loop_node_of, propagate_loop_completion,
  propagate_nodes, propagate_node, next_iteration,
}

abbrev pub limit_of : Node → Option ℕ
limit_of (stage i s ds) = none
limit_of (loop i s b m x ds) = some m

-- Every loop has run at most as often as its limit says.
pub record IsBounded (p : ExecutionPlan) : Type 0 where
  pub at :
      (i : NodeId) (n : Node) (limit : ℕ)
      → OrdMap.get i p.graph.nodes ≡ some n
      → limit_of n ≡ some limit
      → iterations_of p i ≤ limit

-- A node stands in the graph under its own handle.
abbrev Own : WorkflowGraph → Node → Type 0
Own g n = OrdMap.get (id n) g.nodes ≡ some n

next_iteration-IsBounded :
    (j : NodeId) (body limit : ℕ) (n : Node) (p : ExecutionPlan)
    → OrdMap.get j p.graph.nodes ≡ some n
    → limit_of n ≡ some limit
    → iterations_of p j < limit
    → IsBounded p
    → IsBounded (next_iteration j body p)
next_iteration-IsBounded j body limit n p e l below b = record {
  at = λ i k bound f g. elim (Ordering-cases (compare i j)) [
    | inl lt ↦
        ground (
          arith,
          OrdMap.get-insert i j (iterations_of p j + 1) p.loop_iterations,
          b.at i k bound f g,
        )
    | inr (inl same) ↦
        let same' : i ≡ j = ground (arith, same) in
        let node : n ≡ k =
          some-inj (sym e ∙ ap (λ h. OrdMap.get h p.graph.nodes) (sym same') ∙ f) in
        let limits : limit ≡ bound = some-inj (sym l ∙ ap limit_of node ∙ g) in
        ground (arith, OrdMap.get-insert i j (iterations_of p j + 1) p.loop_iterations, limits)
    | inr (inr gt) ↦
        ground (
          arith,
          OrdMap.get-insert i j (iterations_of p j + 1) p.loop_iterations,
          b.at i k bound f g,
        )
  ];
}

propagate_node-IsBounded :
    (c : NodeId) (n : Node) (p : ExecutionPlan)
    → Own p.graph n
    → IsBounded p
    → IsBounded (propagate_node c n p)
propagate_node-IsBounded c (stage j t ds) p own b = b
propagate_node-IsBounded c (loop j t body m x ds) p own b = elim (Bool-cases (nat_eq body c)) [
  | inr other ↦ rw (other, propagate_node) b
  | inl mine ↦ elim (Bool-cases (OrdMap.contains_key j p.loop_outcome)) [
    | inl ended ↦ rw (mine, ended) b
    | inr open_loop ↦ elim (Bool-cases (leb m (iterations_of p j))) [
      | inl full ↦ rw (mine, open_loop, full) b
      | inr room ↦
          rw (mine, open_loop, room)
            (next_iteration-IsBounded j body m (loop j t body m x ds) p own refl (ground arith) b)
    ]
  ]
]

propagate_node-graph :
    (c : NodeId) (n : Node) (p : ExecutionPlan) → (propagate_node c n p).graph ≡ p.graph
propagate_node-graph c (stage j t ds) p = refl
propagate_node-graph c (loop j t body m x ds) p = ground arith

propagate_nodes-IsBounded :
    (c : NodeId) (ns : List Node) (p : ExecutionPlan)
    → All (Own p.graph) ns
    → IsBounded p
    → IsBounded (propagate_nodes c ns p)
propagate_nodes-IsBounded c [] p own b = b
propagate_nodes-IsBounded c (n ∷ ns) p own b =
    propagate_nodes-IsBounded c ns (propagate_node c n p)
      (subst (λ (g : WorkflowGraph). All (Own g) ns) (sym (propagate_node-graph c n p)) own.1)
      (propagate_node-IsBounded c n p own.0 b)

nodes-Own :
    (g : WorkflowGraph) (m : OrdMap NodeId Node)
    → IsWellFormed g
    → All (λ e. OrdMap.get e.0 g.nodes ≡ some e.1) m
    → All (Own g) (OrdMap.values m)
nodes-Own g [] w h = tt
nodes-Own g ((i, n) ∷ m) w h =
    let same : id n ≡ i = w.own_id i n h.0 in (rw same h.0, nodes-Own g m w h.1)

-- Marking changes neither the graph nor, before the loops are looked at, the counters.
propagate-IsBounded :
    (s : StageId) (p : ExecutionPlan)
    → IsWellFormed p.graph
    → IsBounded p
    → IsBounded (propagate_loop_completion s p)
unfolding propagate_loop_completion
propagate-IsBounded s p w b = elim (Option-cases (node_id_for_stage s p.graph)) [
  | inl e ↦ rw (e, propagate_loop_completion) b
  | inr (i, e) ↦
      rw (e, propagate_loop_completion)
        (propagate_nodes-IsBounded i (OrdMap.values p.graph.nodes) p
          (nodes-Own p.graph p.graph.nodes w
            (entries-get p.graph.nodes (range-IsSorted 0 p.graph.next_id p.graph.nodes w.handles)))
          b)
]

-- In a plan over a well-formed graph, marking a stage that is not itself a loop, as complete or as
-- failed, keeps the counter of every loop within the limit of the loop.
pub marks-IsBounded :
    (s : StageId) (p : ExecutionPlan)
    → IsWellFormed p.graph
    → loop_node_of p.graph s ≡ none
    → IsBounded p
    → IsBounded (mark_complete s p) × IsBounded (mark_error s p)
unfolding mark_complete mark_error
marks-IsBounded s p w no_loop b = (
  rw (no_loop, mark_complete) (propagate-IsBounded s (completed s p) w (record { at = b.at })),
  rw (no_loop, mark_error) (propagate-IsBounded s (failed s p) w (record { at = b.at })),
)
