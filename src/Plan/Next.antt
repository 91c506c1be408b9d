-- ===== src/Plan/Next.antt =====
-- Which stage `next_stage` offers, and when it offers none.
use zerochain.Prelude.{
  ℕ, zero, suc, ◌<◌, ◌≡◌, inl, inr, refl, ap, subst, ◌⊎◌, true, false, Option, none, some, List, [],
  ◌∷◌, ◌++◌, arith, nat_ord, nat_eq_instance, all, All, Bool-cases, Option-cases, none-ne-some,
}
use zerochain.OrdMap
use zerochain.OrdMap.{OrdMap}
use zerochain.Stage.{StageId}
use zerochain.Graph.{WorkflowGraph, NodeId, Node, stage, loop, stage_id, dependencies}
use zerochain.Graph.WellFormed.{IsWellFormed}
use zerochain.Plan.Types.{
  StageState, pending, complete, ExecutionPlan, is_complete_state, is_pending_state,
}
use zerochain.Plan.FromGraph.{plan_order}
use zerochain.Plan.State.{
  node_state, node_state_within, next_stage, next_from, is_complete_node, is_runnable,
  resolve_runnable_stage_id,
}

module _ (p : ExecutionPlan) (w : IsWellFormed p.graph) where
  -- Two amounts of fuel above the handle agree.
  within_agree :
      (f k : ℕ) (i : NodeId) → i < f → i < k → node_state_within f p i ≡ node_state_within k p i
  unfolding node_state_within
  within_agree zero k i h l = absurd (omega arith)
  within_agree (suc f) zero i h l = absurd (omega arith)
  within_agree (suc f) (suc k) i h l = by_node (within_agree f k) (OrdMap.get i p.graph.nodes) refl
    where
      by_node :
          ((b : NodeId) → b < f → b < k → node_state_within f p b ≡ node_state_within k p b)
          → (o : Option Node) → OrdMap.get i p.graph.nodes ≡ o
          → node_state_within (suc f) p i ≡ node_state_within (suc k) p i
      by_node agree none e = ground (arith, e)
      by_node agree (some (stage j s ds)) e = ground (arith, e)
      by_node agree (some (loop j s b m x ds)) e =
          let below : b < i = w.body_below i (loop j s b m x ds) e in
          ground (arith, e, agree b (omega arith) (omega arith))

-- In a plan over a well-formed graph, any fuel above the handle of a node gives the state that
-- `node_state` gives: a loop is younger than its body.
pub node_state_within-node_state :
    (p : ExecutionPlan) (fuel : ℕ) (i : NodeId)
    → IsWellFormed p.graph
    → i < fuel
    → node_state_within fuel p i ≡ node_state p i
unfolding node_state
node_state_within-node_state p fuel i w h = within_agree p w fuel (suc i) i h (omega arith)

-- The stage that a node names.
abbrev pub Names : Node → StageId → Type 0
Names (stage i t ds) s = s ≡ t
Names (loop i t body m x ds) s = s ≡ t

-- The stage that is run for a node: its own, and for a loop around a node that is there, the one that
-- this node names.
abbrev pub Runs : OrdMap NodeId Node → Node → StageId → Type 0
Runs nodes (stage i t ds) s = s ≡ t
Runs nodes (loop i t body m x ds) s =
    ((n : Node) × (OrdMap.get body nodes ≡ some n) × Names n s)
    ⊎ ((OrdMap.get body nodes ≡ none) × (s ≡ t))

-- A node of the graph that is pending, with all of its dependencies complete.
abbrev pub IsReady : ExecutionPlan → NodeId → Node → Type 0
IsReady p j n = (node_state p j ≡ pending) × All (λ d. node_state p d ≡ complete) (dependencies n)

-- The node that `next_stage` picks: the first pending node of the order whose dependencies are all
-- complete.
pub record Picks (p : ExecutionPlan) (order : List NodeId) (s : StageId) : Type 0 where
  pub before : List NodeId
  pub picked : NodeId
  pub after : List NodeId
  pub node : Node
  pub split : order ≡ before ++ picked ∷ after
  pub found : OrdMap.get picked p.graph.nodes ≡ some node
  pub ready : IsReady p picked node
  pub run_for : Runs p.graph.nodes node s
  pub earlier :
      All (λ j. (n : Node) × (OrdMap.get j p.graph.nodes ≡ some n) × (IsReady p j n → ⊥)) before

pub is_pending_of : (x : StageState) → is_pending_state x ≡ true → x ≡ pending
is_pending_of pending h = refl
is_pending_of x h = absurd cc

pub is_complete_of : (x : StageState) → is_complete_state x ≡ true → x ≡ complete
is_complete_of complete h = refl
is_complete_of x h = absurd cc

all-complete_of :
    (p : ExecutionPlan) (ds : List NodeId)
    → all (is_complete_node p) ds ≡ true
    → All (λ d. node_state p d ≡ complete) ds
all-complete_of p [] h = tt
all-complete_of p (d ∷ ds) h =
    (is_complete_of (node_state p d) (ground arith), all-complete_of p ds (ground arith))

complete-all_of :
    (p : ExecutionPlan) (ds : List NodeId)
    → All (λ d. node_state p d ≡ complete) ds
    → all (is_complete_node p) ds ≡ true
complete-all_of p [] h = refl
complete-all_of p (d ∷ ds) h = ground (arith, h.0, complete-all_of p ds h.1)

not_ready :
    (p : ExecutionPlan) (i : NodeId) (n : Node) → is_runnable p i n ≡ false → IsReady p i n → ⊥
not_ready p i n r ready = ground (arith, r, ready.0, complete-all_of p (dependencies n) ready.1)

Names-stage_id : (n : Node) → Names n (stage_id n)
Names-stage_id (stage i t ds) = refl
Names-stage_id (loop i t body m x ds) = refl

resolve-Runs : (g : WorkflowGraph) (n : Node) → Runs g.nodes n (resolve_runnable_stage_id g n)
unfolding resolve_runnable_stage_id
resolve-Runs g (stage i t ds) = refl
resolve-Runs g (loop i t body m x ds) = elim (Option-cases (OrdMap.get body g.nodes)) [
  | inl e ↦ rw (e, resolve_runnable_stage_id) (inr (refl, refl))
  | inr (n, e) ↦ rw (e, resolve_runnable_stage_id) (inl (n, refl, Names-stage_id n))
]

next_from-Picks :
    (p : ExecutionPlan) (order : List NodeId) (s : StageId)
    → next_from p order ≡ some s
    → Picks p order s
next_from-Picks p [] s h = absurd (none-ne-some h)
next_from-Picks p (i ∷ is) s h = elim (Option-cases (OrdMap.get i p.graph.nodes)) [
  | inl e ↦ absurd (ground (arith, e))
  | inr (n, e) ↦ elim (Bool-cases (is_runnable p i n)) [
    | inl r ↦ record {
      before = [];
      picked = i;
      after = is;
      node = n;
      split = refl;
      found = e;
      ready = (
        is_pending_of (node_state p i) (ground (arith, r)),
        all-complete_of p (dependencies n) (ground (arith, r)),
      );
      run_for = subst (Runs p.graph.nodes n) (ground (arith, e, r, h)) (resolve-Runs p.graph n);
      earlier = tt;
    }
    | inr r ↦
        let later = next_from-Picks p is s (ground (arith, e, r, h)) in
        record {
          before = i ∷ later.before;
          picked = later.picked;
          after = later.after;
          node = later.node;
          split = ap (λ l. i ∷ l) later.split;
          found = later.found;
          ready = later.ready;
          run_for = later.run_for;
          earlier = ((n, e, not_ready p i n r), later.earlier);
        }
  ]
]

-- The stage that is offered comes from the first node of the order that is pending with all of its
-- dependencies complete; it is the node's own stage, or for a loop the stage that its body
-- names, and the one that the loop itself names if its body is not in the graph.
pub next_stage-Picks :
    (p : ExecutionPlan) (s : StageId) → next_stage p ≡ some s → Picks p (plan_order p.graph) s
unfolding next_stage
next_stage-Picks p s h = next_from-Picks p (plan_order p.graph) s h
