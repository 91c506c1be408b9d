-- ===== src/Plan/Marks.antt =====
-- What `mark_complete` and `mark_error` do to the states of the stages.
use zerochain.Prelude.{
  ◌≡◌, inl, inr, refl, sym, ap, ◌∙◌, subst, ◌&&◌, Option, none, some, List, [], ◌∷◌, if◌then◌else◌,
  arith, nat_ord, nat_eq, nat_eq_instance, All, Bool-cases, Option-cases, text_ord, text_cmp_eq,
  Text, find, text_eq, text_eq_iff,
}
use zerochain.OrdMap
use zerochain.OrdMap.{OrdMap}
use zerochain.Stage.{StageId}
use zerochain.Graph.{WorkflowGraph, NodeId, Node, stage, loop, stage_id, node_id_for_stage}
use zerochain.Plan.Types.{StageState, pending, complete, error, StageNode, ExecutionPlan}
use zerochain.Plan.State.{
  node_state, node_state_within, own_state, enclosing_loop, enclosing_loop_state, has_body,
}
use zerochain.Plan.Update.{
  mark_complete, mark_error, completed, failed, set_state, loop_node_of, propagate_loop_completion,
  propagate_nodes,
}

abbrev pub IsStageNode : Node → Type 0
IsStageNode (stage i s ds) = Unit
IsStageNode (loop i s b m x ds) = ⊥

-- The graph has no loop, like every graph that is built from stages.
pub record IsLoopFree (g : WorkflowGraph) : Type 0 where
  pub only_stages : All IsStageNode (OrdMap.values g.nodes)

find_no_body : (b : NodeId) (ns : List Node) → All IsStageNode ns → find (has_body b) ns ≡ none
find_no_body b [] h = refl
find_no_body b (stage i s ds ∷ ns) h = find_no_body b ns h.1
find_no_body b (loop i s c m x ds ∷ ns) h = absurd h.0

pub value_of_get :
    (i : NodeId) (n : Node) (m : OrdMap NodeId Node)
    → All IsStageNode (OrdMap.values m)
    → OrdMap.get i m ≡ some n
    → IsStageNode n
value_of_get i n [] h e = absurd cc
value_of_get i n ((j, w) ∷ m) h e = elim (Bool-cases (nat_eq i j)) [
  | inl same ↦ subst IsStageNode (ground (arith, same, e)) h.0
  | inr other ↦ value_of_get i n m h.1 (ground arith)
]

propagate_none :
    (c : NodeId) (ns : List Node) (p : ExecutionPlan)
    → All IsStageNode ns
    → propagate_nodes c ns p ≡ p
propagate_none c [] p h = refl
propagate_none c (stage i s ds ∷ ns) p h = propagate_none c ns p h.1
propagate_none c (loop i s b m x ds ∷ ns) p h = absurd h.0

-- The state that a plan has for a stage after one stage was given the state `x`.
abbrev pub state_after : StageState → StageId → StageId → ExecutionPlan → StageState
state_after x s t p =
    if text_eq s.raw t.raw && OrdMap.contains_key s.raw p.stage_map then x else own_state p t

module _ (p : ExecutionPlan) (free : IsLoopFree p.graph) where
  no_loop_node : (s : StageId) → loop_node_of p.graph s ≡ none
  no_loop_node s = elim (Option-cases (node_id_for_stage s p.graph)) [
    | inl e ↦ ground (arith, e)
    | inr (i, e) ↦ by_node i e (OrdMap.get i p.graph.nodes) refl
  ]
    where
      by_node :
          (i : NodeId)
          → node_id_for_stage s p.graph ≡ some i
          → (o : Option Node) → OrdMap.get i p.graph.nodes ≡ o
          → loop_node_of p.graph s ≡ none
      by_node i e none f = ground (arith, e, f)
      by_node i e (some (stage j t ds)) f = ground (arith, e, f)
      by_node i e (some (loop j t b m x ds)) f =
          absurd (value_of_get i (loop j t b m x ds) p.graph.nodes free.only_stages f)

  propagate_same :
      (s : StageId) (q : ExecutionPlan) → q.graph ≡ p.graph → propagate_loop_completion s q ≡ q
  unfolding propagate_loop_completion
  propagate_same s q same = elim (Option-cases (node_id_for_stage s q.graph)) [
    | inl e ↦ ground (arith, e)
    | inr (i, e) ↦
        let nothing = propagate_none i (OrdMap.values q.graph.nodes) q (
          subst (λ (g : WorkflowGraph). All IsStageNode (OrdMap.values g.nodes)) (sym same)
            free.only_stages) in
        ground (arith, e, nothing)
  ]

  pub mark_complete-completed : (s : StageId) → mark_complete s p ≡ completed s p
  unfolding mark_complete
  mark_complete-completed s = ground (arith, no_loop_node s, propagate_same s (completed s p) refl)

  mark_error-failed : (s : StageId) → mark_error s p ≡ failed s p
  unfolding mark_error
  mark_error-failed s = ground (arith, no_loop_node s, propagate_same s (failed s p) refl)

update_state :
    (x : StageState) (a b : Text) (m : OrdMap Text StageNode)
    → elim (OrdMap.get b (OrdMap.update a (set_state x) m)) [ none ↦ pending | some n ↦ n.state ]
      ≡ (if text_eq a b && OrdMap.contains_key a m
          then x
          else elim (OrdMap.get b m) [ none ↦ pending | some n ↦ n.state ])
update_state x a b m = elim (Bool-cases (text_eq a b)) [
  | inl same ↦
      let e : a ≡ b = (text_eq_iff a b).0 same in
      ground (arith, OrdMap.get-update b a (set_state x) m, (text_cmp_eq b a).1 (sym e), e)
  | inr other ↦
      ground (arith, OrdMap.get-update b a (set_state x) m, text_cmp_eq b a, text_eq_iff a b)
]

-- In a plan without loops, marking a stage as complete gives it that state, if the plan knows it, and
-- no other stage another state; marking an error does the same with the error state.
pub marks-own_state :
    (p : ExecutionPlan) (s t : StageId)
    → IsLoopFree p.graph
    → (own_state (mark_complete s p) t ≡ state_after complete s t p)
      × (own_state (mark_error s p) t ≡ state_after error s t p)
marks-own_state p s t free = (
  ap (λ q. own_state q t) (mark_complete-completed p free s)
      ∙ update_state complete s.raw t.raw p.stage_map,
  ap (λ q. own_state q t) (mark_error-failed p free s) ∙ update_state error s.raw t.raw p.stage_map,
)

-- In a plan without loops a node has the state that the plan has for the stage of the node.
pub node_state-own_state :
    (p : ExecutionPlan) (i : NodeId) (n : Node)
    → IsLoopFree p.graph
    → OrdMap.get i p.graph.nodes ≡ some n
    → node_state p i ≡ own_state p (stage_id n)
unfolding node_state node_state_within enclosing_loop_state enclosing_loop
node_state-own_state p i (loop j s b m x ds) free e =
    absurd (value_of_get i (loop j s b m x ds) p.graph.nodes free.only_stages e)
node_state-own_state p i (stage j s ds) free e =
    let outside : enclosing_loop_state p s ≡ none =
      elim (Option-cases (node_id_for_stage s p.graph)) [
        | inl none_found ↦ ground (arith, none_found)
        | inr (b, found) ↦
            ground (arith, found, find_no_body b (OrdMap.values p.graph.nodes) free.only_stages)
      ] in
    ground (arith, e, outside)
