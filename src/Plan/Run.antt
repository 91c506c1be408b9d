-- ===== src/Plan/Run.antt =====
-- Running the offered stage makes progress.
use zerochain.Prelude.{
  ℕ, ◌+◌, ◌<◌, ◌≤◌, ◌≡◌, inl, inr, sym, ap, ◌∙◌, subst, true, false, none, some, List, [], ◌∷◌,
  if◌then◌else◌, arith, nat_ord, nat_eq, nat_eq_iff, nat_eq_instance, Bool-cases, Option-cases,
  text_ord, text_eq, text_eq_iff,
}
use zerochain.OrdMap
use zerochain.HashMap.{contains}
use zerochain.Stage.{StageId}
use zerochain.Graph.{WorkflowGraph, NodeId, Node, stage, loop, stage_id}
use zerochain.Graph.Order.Fuel.{contains-keys}
use zerochain.Plan.Types.{pending, complete, ExecutionPlan}
use zerochain.Plan.State.{node_state, node_state_within, next_stage, is_complete_node}
use zerochain.Plan.Update.{mark_complete}
use zerochain.Plan.Marks.{
  IsLoopFree, value_of_get, state_after, marks-own_state, node_state-own_state,
  mark_complete-completed,
}
use zerochain.Plan.Next.{Runs, next_stage-Picks}

-- The nodes among `is` that are not complete.
abbrev pub incomplete : ExecutionPlan → List NodeId → ℕ
incomplete p [] = 0
incomplete p (i ∷ is) = (if is_complete_node p i then 0 else 1) + incomplete p is

-- The plan knows the stage of every node.
abbrev pub IsLoaded : ExecutionPlan → Type 0
IsLoaded p =
    (i : NodeId) (n : Node)
    → OrdMap.get i p.graph.nodes ≡ some n
    → OrdMap.contains_key (stage_id n).raw p.stage_map ≡ true

node_state-none :
    (p : ExecutionPlan) (i : NodeId) → OrdMap.get i p.graph.nodes ≡ none → node_state p i ≡ pending
unfolding node_state node_state_within
node_state-none p i e = ground (arith, e)

module _ (p : ExecutionPlan) (s : StageId) (free : IsLoopFree p.graph) where
  pub same_graph : (mark_complete s p).graph ≡ p.graph
  same_graph = ap (λ (q : ExecutionPlan). q.graph) (mark_complete-completed p free s)

  state_of_node :
      (i : NodeId) (n : Node)
      → OrdMap.get i p.graph.nodes ≡ some n
      → node_state (mark_complete s p) i ≡ state_after complete s (stage_id n) p
  state_of_node i n e =
      node_state-own_state (mark_complete s p) i n (subst IsLoopFree (sym same_graph) free)
        (ap (λ (g : WorkflowGraph). OrdMap.get i g.nodes) same_graph ∙ e)
      ∙ (marks-own_state p s (stage_id n) free).0

  -- A node that is complete stays complete.
  stays_complete :
      (i : NodeId) → is_complete_node p i ≡ true → is_complete_node (mark_complete s p) i ≡ true
  stays_complete i h = elim (Option-cases (OrdMap.get i p.graph.nodes)) [
    | inl e ↦ ground (arith, node_state-none p i e)
    | inr (n, e) ↦ ground (arith, state_of_node i n e, node_state-own_state p i n free e)
  ]

  incomplete-le : (is : List NodeId) → incomplete (mark_complete s p) is ≤ incomplete p is
  incomplete-le [] = omega arith
  incomplete-le (i ∷ is) = elim (Bool-cases (is_complete_node p i)) [
    | inl e ↦ ground (arith, e, stays_complete i e, incomplete-le is)
    | inr e ↦ ground (arith, e, incomplete-le is)
  ]

  incomplete-lt :
      (i : NodeId) (is : List NodeId)
      → contains i is ≡ true
      → is_complete_node p i ≡ false
      → is_complete_node (mark_complete s p) i ≡ true
      → incomplete (mark_complete s p) is < incomplete p is
  incomplete-lt i [] h before later = absurd cc
  incomplete-lt i (j ∷ is) h before later = elim (Bool-cases (nat_eq j i)) [
    | inl e ↦
        let same : j ≡ i = (nat_eq_iff j i).0 e in
        rw same (ground (arith, before, later, incomplete-le is))
    | inr e ↦
        let rest = incomplete-lt i is (ground arith) before later in
        elim (Bool-cases (is_complete_node p j)) [
          | inl f ↦ ground (arith, f, stays_complete j f, rest)
          | inr f ↦ ground (arith, f, rest)
        ]
  ]

  picked_stage :
      (n : Node) (i : NodeId)
      → OrdMap.get i p.graph.nodes ≡ some n
      → Runs p.graph.nodes n s
      → s ≡ stage_id n
  picked_stage (stage j t ds) i e r = r
  picked_stage (loop j t b m x ds) i e r =
      absurd (value_of_get i (loop j t b m x ds) p.graph.nodes free.only_stages e)

  picked_complete :
      (i : NodeId) (n : Node)
      → OrdMap.get i p.graph.nodes ≡ some n
      → s ≡ stage_id n
      → OrdMap.contains_key (stage_id n).raw p.stage_map ≡ true
      → is_complete_node (mark_complete s p) i ≡ true
  picked_complete i n e same known =
      let self : text_eq s.raw (stage_id n).raw ≡ true =
        (text_eq_iff s.raw (stage_id n).raw).1 (ap (λ (t : StageId). t.raw) same) in
      let key : OrdMap.contains_key s.raw p.stage_map ≡ true =
        ap (λ (t : StageId). OrdMap.contains_key t.raw p.stage_map) same ∙ known in
      ground (arith, state_of_node i n e, self, key)

-- In a plan without loops that knows its stages, marking the offered stage as complete leaves fewer
-- nodes that are not complete, so a run that marks each offered stage ends.
pub incomplete-mark_complete :
    (p : ExecutionPlan) (s : StageId)
    → IsLoopFree p.graph
    → IsLoaded p
    → next_stage p ≡ some s
    → incomplete (mark_complete s p) (OrdMap.keys p.graph.nodes)
      < incomplete p (OrdMap.keys p.graph.nodes)
incomplete-mark_complete p s free loaded h =
    let k = next_stage-Picks p s h in
    incomplete-lt p s free k.picked (OrdMap.keys p.graph.nodes)
      (contains-keys k.picked p.graph.nodes k.node k.found) (ground (arith, k.ready.0))
      (picked_complete p s free k.picked k.node k.found
        (picked_stage p s free k.node k.picked k.found k.run_for) (loaded k.picked k.node k.found))
