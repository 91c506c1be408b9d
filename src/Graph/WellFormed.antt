-- ===== src/Graph/WellFormed.antt =====
-- The invariant of a graph that is built by its methods.
use zerochain.Prelude.{
  ℕ, zero, suc, ◌+◌, ◌<◌, ◌≤◌, ◌≡◌, refl, ◌∙◌, ap, none, some, List, [], ◌∷◌, ◌++◌, arith, nat_ord,
  nat_eq_instance, ok, compare, inl, inr, Option-cases, Ordering-cases, subst, dec_lt,
}
use zerochain.OrdMap
use zerochain.OrdMap.{OrdMap}
use zerochain.HashMap
use zerochain.Stage.{StageId, stage_id_eq_instance}
use zerochain.Graph.{
  WorkflowGraph, NodeId, Node, stage, loop, LoopExhaustion, id, stage_id, new, add_stage, add_loop,
  add_dependency, with_dependency, push_node,
}

-- 0, 1, … below `n`.
abbrev pub range_from : ℕ → ℕ → List ℕ
range_from lo zero = []
range_from lo (suc n) = lo ∷ range_from (suc lo) n

-- A loop wraps a node that is older than itself.
abbrev pub BodyBelow : NodeId → Node → Type 0
BodyBelow i (stage j s ds) = Unit
BodyBelow i (loop j s b m x ds) = b < i

-- The handles are 0, 1, … below `next_id`; each node has its own handle; each loop is younger than
-- its body; and each entry of the stage table names a node with that stage.
pub record IsWellFormed (g : WorkflowGraph) : Type 0 where
  pub handles : OrdMap.keys g.nodes ≡ range_from 0 g.next_id
  pub own_id : (i : NodeId) (n : Node) → OrdMap.get i g.nodes ≡ some n → id n ≡ i
  pub body_below : (i : NodeId) (n : Node) → OrdMap.get i g.nodes ≡ some n → BodyBelow i n
  pub named :
      (s : StageId) (i : NodeId)
      → HashMap.get s g.stage_to_node ≡ some i
      → (n : Node) × (OrdMap.get i g.nodes ≡ some n) × (stage_id n ≡ s)

pub new-IsWellFormed : IsWellFormed new
new-IsWellFormed = record {
  handles = refl;
  own_id = λ i n h. cc;
  body_below = λ i n h. absurd cc;
  named = λ s i h. absurd cc;
}

pub range_from-snoc : (lo n : ℕ) → range_from lo (suc n) ≡ range_from lo n ++ (lo + n) ∷ []
range_from-snoc lo zero = ap (λ k. k ∷ []) (omega arith)
range_from-snoc lo (suc n) =
    ap (λ l. lo ∷ l)
      (range_from-snoc (suc lo) n ∙ ap (λ k. range_from (suc lo) n ++ k ∷ []) (omega arith))

-- A key above all others comes last.
keys-insert_last {ℓ} :
    {V : Type ℓ} (lo n k : ℕ) (v : V) (m : OrdMap ℕ V)
    → k ≡ lo + n
    → OrdMap.keys m ≡ range_from lo n
    → OrdMap.keys (OrdMap.insert k v m) ≡ range_from lo (suc n)
keys-insert_last lo zero k v [] e h = ap (λ j. j ∷ []) (omega arith)
keys-insert_last lo zero k v ((j, w) ∷ m) e h = absurd cc
keys-insert_last lo (suc n) k v [] e h = absurd cc
keys-insert_last lo (suc n) k v ((j, w) ∷ m) e h =
    ground (arith, keys-insert_last (suc lo) n k v m (omega arith))

-- No node has the next handle yet.
pub get-range {ℓ} :
    {V : Type ℓ} (lo n k : ℕ) (m : OrdMap ℕ V)
    → OrdMap.keys m ≡ range_from lo n
    → lo + n ≤ k
    → OrdMap.get k m ≡ none
get-range lo zero k [] h l = refl
get-range lo zero k ((j, w) ∷ m) h l = absurd cc
get-range lo (suc n) k [] h l = refl
get-range lo (suc n) k ((j, w) ∷ m) h l = ground (arith, get-range (suc lo) n k m)

-- A new youngest node keeps the invariant.
push-IsWellFormed :
    (s : StageId) (n : Node) (g : WorkflowGraph)
    → IsWellFormed g
    → id n ≡ g.next_id
    → stage_id n ≡ s
    → BodyBelow g.next_id n
    → IsWellFormed (push_node s n g)
push-IsWellFormed s n g w own same below = record {
  handles = keys-insert_last 0 g.next_id g.next_id n g.nodes (omega arith) w.handles;
  own_id = λ i m h. ground (arith, OrdMap.get-insert i g.next_id n g.nodes, w.own_id i m);
  body_below = λ i m h. elim (OrdMap.get-insert_cases i g.next_id n m g.nodes h) [
    | inl (e, f) ↦ rw (e, f) below
    | inr (_, old) ↦ w.body_below i m old
  ];
  named = λ t i h. elim (HashMap.get-insert_cases t s g.next_id i g.stage_to_node h) [
    | inl (e, f) ↦ (n, rw f (OrdMap.get-insert_self g.next_id n g.nodes), same ∙ e)
    | inr (_, old) ↦
        let (m, found, of_t) = w.named t i old in
        (m, OrdMap.get-insert_ne i g.next_id n g.nodes (λ e. absent (rw e at found)) ∙ found, of_t)
  ];
}
  where
    absent : {m : Node} → OrdMap.get g.next_id g.nodes ≡ some m → ⊥
    absent found = ground (arith, get-range 0 g.next_id g.next_id g.nodes w.handles (omega arith))

-- Adding a stage to a well-formed graph gives a well-formed graph.
pub add_stage-IsWellFormed :
    (s : StageId) (g : WorkflowGraph) → IsWellFormed g → IsWellFormed (add_stage s g).0
unfolding add_stage
add_stage-IsWellFormed s g w = push-IsWellFormed s (stage g.next_id s []) g w refl refl tt

below_next :
    (g : WorkflowGraph) (i : NodeId) (n : Node)
    → IsWellFormed g
    → OrdMap.get i g.nodes ≡ some n
    → i < g.next_id
below_next g i n w h = elim (dec_lt i g.next_id) [
  | yes l ↦ l
  | no l ↦ absurd (ground (arith, get-range 0 g.next_id i g.nodes w.handles (omega arith)))
]

-- Adding a loop to a well-formed graph, where it succeeds, gives a well-formed graph: the body of
-- the new loop is older than the loop.
pub add_loop-IsWellFormed :
    (s : StageId) (body max_iterations : ℕ) (x : LoopExhaustion) (g : WorkflowGraph)
    {r : WorkflowGraph × NodeId}
    → IsWellFormed g
    → add_loop s body max_iterations x g ≡ ok r
    → IsWellFormed r.0
unfolding add_loop
add_loop-IsWellFormed s body m x g {r} w h = elim (Option-cases (OrdMap.get body g.nodes)) [
  | inl e ↦ absurd (ground (arith, e))
  | inr (n, e) ↦
      let made : ◌≡◌ {A = WorkflowGraph × NodeId}
          (push_node s (loop g.next_id s body m x []) g, g.next_id) r =
        ground (arith, e, h) in
      subst (λ (q : WorkflowGraph × NodeId). IsWellFormed q.0) made
        (push-IsWellFormed s (loop g.next_id s body m x []) g w refl refl (below_next g body n w e))
]

with_dependency-kept :
    (d i : NodeId) (n : Node)
    → (id (with_dependency d n) ≡ id n)
      × (stage_id (with_dependency d n) ≡ stage_id n)
      × (BodyBelow i n → BodyBelow i (with_dependency d n))
with_dependency-kept d i (stage j s ds) = (refl, refl, λ h. h)
with_dependency-kept d i (loop j s b m x ds) = (refl, refl, λ h. h)

-- Adding a dependency to a well-formed graph, where it succeeds, gives a well-formed graph.
pub add_dependency-IsWellFormed :
    (node dependency : NodeId) (g h : WorkflowGraph)
    → IsWellFormed g
    → add_dependency node dependency g ≡ ok h
    → IsWellFormed h
unfolding add_dependency
add_dependency-IsWellFormed node d g h w e = elim (Option-cases (OrdMap.get node g.nodes)) [
  | inl missing ↦ absurd (ground (arith, missing))
  | inr (n, found) ↦
      let made : record g { nodes = OrdMap.update node (with_dependency d) g.nodes } ≡ h =
        ground (arith, found, e) in
      subst IsWellFormed made kept
]
  where
    kept : IsWellFormed (record g { nodes = OrdMap.update node (with_dependency d) g.nodes })
    kept = record {
      handles = rw (OrdMap.keys-update node (with_dependency d) g.nodes) w.handles;
      own_id = λ i m p.
          let (y, old, which) = OrdMap.get-update_cases i node (with_dependency d) m g.nodes p in
          ground (arith, w.own_id i y, with_dependency-kept d i y);
      body_below = λ i m p.
          let (y, old, which) = OrdMap.get-update_cases i node (with_dependency d) m g.nodes p in
          elim which [
            | inl (_, f) ↦ rw f ((with_dependency-kept d i y).2 (w.body_below i y old))
            | inr (_, f) ↦ rw f (w.body_below i y old)
          ];
      named = λ t i p.
          let (m, found, of_t) = w.named t i p in
          elim (Ordering-cases (compare i node)) [
            | inl l ↦
                (m, ground (arith, OrdMap.get-update i node (with_dependency d) g.nodes), of_t)
            | inr (inl l) ↦ (
              with_dependency d m,
              ground (arith, OrdMap.get-update i node (with_dependency d) g.nodes),
              (with_dependency-kept d i m).1 ∙ of_t,
            )
            | inr (inr l) ↦
                (m, ground (arith, OrdMap.get-update i node (with_dependency d) g.nodes), of_t)
          ];
    }
