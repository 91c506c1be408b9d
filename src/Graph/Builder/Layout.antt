-- ===== src/Graph/Builder/Layout.antt =====
-- What the builder makes, written down node by node: each group of stages has consecutive handles
-- and depends on all nodes of the group before it.
use mathlib.Core.List.{append_assoc, append-nil}
use zerochain.Prelude.{
  suc, ◌+◌, ◌≡◌, refl, sym, ◌∙◌, ap, false, some, List, [], ◌∷◌, ◌++◌, arith, nat_ord,
  nat_eq_instance, length, All,
}
use zerochain.OrdMap
use zerochain.OrdMap.{OrdMap}
use zerochain.HashMap.{contains, contains-append}
use zerochain.Stage.{Stage, StageId}
use zerochain.Graph.{
  WorkflowGraph, NodeId, Node, stage, new, add_stage, add_dependency, with_dependency,
  push_dependency, push_node,
}
use zerochain.Graph.WellFormed.{range_from}
use zerochain.Graph.Order.Spec.{Distinct}
use zerochain.Graph.Builder.{
  add_stages, or_keep, link_node, link_nodes, add_groups, group_stages, from_stages,
}
use zerochain.Graph.Builder.Ranges.{
  insert_last, update_last, keys-append, get_last, range_from-Distinct, range_from-append,
  keys-snoc,
}

-- The nodes of a group: consecutive handles, each of them with all nodes of the group before it as its
-- dependencies.
abbrev pub layout_group : NodeId → List NodeId → List StageId → OrdMap NodeId Node
layout_group next prev [] = []
layout_group next prev (s ∷ ss) = (next, stage next s prev) ∷ layout_group (suc next) prev ss

-- The nodes of one group after the other.
abbrev pub layout : NodeId → List NodeId → List (List StageId) → OrdMap NodeId Node
layout next prev [] = []
layout next prev (ids ∷ rest) =
    layout_group next prev ids ++ layout (next + length ids) (range_from next (length ids)) rest

pub keys-layout_group :
    (next : NodeId) (prev : List NodeId) (ids : List StageId)
    → OrdMap.keys (layout_group next prev ids) ≡ range_from next (length ids)
keys-layout_group next prev [] = refl
keys-layout_group next prev (s ∷ ss) = ap (λ l. next ∷ l) (keys-layout_group (suc next) prev ss)

-- The handles so far are those below `next_id`.
abbrev Handles : WorkflowGraph → Type 0
Handles g = OrdMap.keys g.nodes ≡ range_from 0 g.next_id

record Added (ids : List StageId) (g : WorkflowGraph) (r : WorkflowGraph × List NodeId)
    : Type 0 where
  nodes : r.0.nodes ≡ g.nodes ++ layout_group g.next_id [] ids
  next_id : r.0.next_id ≡ g.next_id + length ids
  current : r.1 ≡ range_from g.next_id (length ids)

add_stages-Added :
    (ids : List StageId) (g : WorkflowGraph) → Handles g → Added ids g (add_stages ids g)
unfolding add_stage
add_stages-Added [] g h = record {
  nodes = sym (append-nil g.nodes);
  next_id = omega arith;
  current = refl;
}
add_stages-Added (s ∷ ss) g h =
    let pushed = insert_last 0 g.next_id g.next_id (stage g.next_id s []) g.nodes (omega arith) h in
    let rest =
      add_stages-Added ss (push_node s (stage g.next_id s []) g)
        (ap OrdMap.keys pushed ∙ keys-snoc g.nodes g.next_id (stage g.next_id s []) h) in
    record {
      nodes =
          rest.nodes
          ∙ ap (λ m. m ++ layout_group (suc g.next_id) [] ss) pushed
          ∙ append_assoc g.nodes ((g.next_id, stage g.next_id s []) ∷ []) _;
      next_id = omega (arith, rest.next_id);
      current = ap (λ l. g.next_id ∷ l) rest.current;
    }

away_snoc :
    (d : NodeId) (es ds : List NodeId)
    → All (λ x. contains x es ≡ false) ds
    → contains d ds ≡ false
    → All (λ x. contains x (es ++ d ∷ []) ≡ false) ds
away_snoc d es [] h k = tt
away_snoc d es (x ∷ ds) h k =
    (ground (arith, contains-append x es (d ∷ []), h.0), away_snoc d es ds h.1 (ground arith))

add_dependency_at :
    (k d : NodeId) (s : StageId) (es : List NodeId) (m rest : OrdMap NodeId Node)
    (g : WorkflowGraph)
    → OrdMap.keys m ≡ range_from 0 k
    → g.nodes ≡ m ++ (k, stage k s es) ∷ rest
    → contains d es ≡ false
    → (or_keep g (add_dependency k d g)).nodes ≡ m ++ (k, stage k s (es ++ d ∷ [])) ∷ rest
unfolding add_dependency
add_dependency_at k d s es m rest g h e away =
    let here : OrdMap.get k g.nodes ≡ some (stage k s es) =
      rw e (get_last 0 k k (stage k s es) m rest (omega arith) h) in
    let kept = update_last 0 k k (with_dependency d) (stage k s es) m rest (omega arith) h in
    let pushed : push_dependency es d ≡ es ++ d ∷ [] = rw away in
    let opened : (or_keep g (add_dependency k d g)).nodes
        ≡ OrdMap.update k (with_dependency d) g.nodes =
      ground (arith, here) in
    opened
    ∙ ap (OrdMap.update k (with_dependency d)) e
    ∙ kept
    ∙ ap (λ l. m ++ (k, stage k s l) ∷ rest) pushed

link_node-nodes :
    (k : NodeId) (s : StageId) (es prev : List NodeId) (m rest : OrdMap NodeId Node)
    (g : WorkflowGraph)
    → OrdMap.keys m ≡ range_from 0 k
    → g.nodes ≡ m ++ (k, stage k s es) ∷ rest
    → Distinct prev
    → All (λ x. contains x es ≡ false) prev
    → (link_node k prev g).nodes ≡ m ++ (k, stage k s (es ++ prev)) ∷ rest
link_node-nodes k s es [] m rest g h e d away = rw append-nil e
link_node-nodes k s es (x ∷ prev) m rest g h e d away =
    link_node-nodes k s (es ++ x ∷ []) prev m rest (or_keep g (add_dependency k x g)) h
      (add_dependency_at k x s es m rest g h e away.0) d.1 (away_snoc x es prev away.1 d.0)
    ∙ ap (λ l. m ++ (k, stage k s l) ∷ rest) (append_assoc es (x ∷ []) prev)

away_nil : (ds : List NodeId) → All (λ x. contains x [] ≡ false) ds
away_nil [] = tt
away_nil (d ∷ ds) = (refl, away_nil ds)

link_nodes-nodes :
    (n : NodeId) (ids : List StageId) (prev : List NodeId) (m : OrdMap NodeId Node)
    (g : WorkflowGraph)
    → OrdMap.keys m ≡ range_from 0 n
    → g.nodes ≡ m ++ layout_group n [] ids
    → Distinct prev
    → (link_nodes (range_from n (length ids)) prev g).nodes ≡ m ++ layout_group n prev ids
link_nodes-nodes n [] prev m g h e d = e
link_nodes-nodes n (s ∷ ss) prev m g h e d =
    let linked =
      link_node-nodes n s [] prev m (layout_group (suc n) [] ss) g h e d (away_nil prev) in
    link_nodes-nodes (suc n) ss prev (m ++ (n, stage n s prev) ∷ []) (link_node n prev g)
      (keys-snoc m n (stage n s prev) h)
      (linked ∙ sym (append_assoc m ((n, stage n s prev) ∷ []) (layout_group (suc n) [] ss))) d
    ∙ append_assoc m ((n, stage n s prev) ∷ []) (layout_group (suc n) prev ss)

add_dependency-next_id :
    (n d : NodeId) (g : WorkflowGraph) → (or_keep g (add_dependency n d g)).next_id ≡ g.next_id
unfolding add_dependency
add_dependency-next_id n d g = ground arith

link_node-next_id :
    (n : NodeId) (prev : List NodeId) (g : WorkflowGraph) → (link_node n prev g).next_id ≡ g.next_id
link_node-next_id n [] g = refl
link_node-next_id n (d ∷ ds) g =
    link_node-next_id n ds (or_keep g (add_dependency n d g)) ∙ add_dependency-next_id n d g

link_nodes-next_id :
    (ns prev : List NodeId) (g : WorkflowGraph) → (link_nodes ns prev g).next_id ≡ g.next_id
link_nodes-next_id [] prev g = refl
link_nodes-next_id (n ∷ ns) prev g =
    link_nodes-next_id ns prev (link_node n prev g) ∙ link_node-next_id n prev g

-- One round of the builder adds one group of the layout.
add_groups-nodes :
    (groups : List (List StageId)) (prev : List NodeId) (g : WorkflowGraph)
    → Handles g
    → Distinct prev
    → (add_groups groups prev g).nodes ≡ g.nodes ++ layout g.next_id prev groups
add_groups-nodes [] prev g h d = sym (append-nil g.nodes)
add_groups-nodes (ids ∷ rest) prev g h d =
    let a = add_stages-Added ids g h in
    let current = range_from g.next_id (length ids) in
    let g' = link_nodes current prev (add_stages ids g).0 in
    let linked = link_nodes-nodes g.next_id ids prev g.nodes (add_stages ids g).0 h a.nodes d in
    let count : g'.next_id ≡ g.next_id + length ids =
      link_nodes-next_id current prev (add_stages ids g).0 ∙ a.next_id in
    let handles : Handles g' =
      ap OrdMap.keys linked
      ∙ keys-append g.nodes (layout_group g.next_id prev ids)
      ∙ ap (λ l. l ++ OrdMap.keys (layout_group g.next_id prev ids)) h
      ∙ ap (λ l. range_from 0 g.next_id ++ l) (keys-layout_group g.next_id prev ids)
      ∙ range_from-append 0 g.next_id g.next_id (length ids) (omega arith)
      ∙ ap (range_from 0) (sym count) in
    ap (λ l. (add_groups rest l (link_nodes l prev (add_stages ids g).0)).nodes) a.current
    ∙ add_groups-nodes rest current g' handles (range_from-Distinct g.next_id (length ids))
    ∙ ap (λ n. g'.nodes ++ layout n current rest) count
    ∙ ap (λ m. m ++ layout (g.next_id + length ids) current rest) linked
    ∙ append_assoc g.nodes (layout_group g.next_id prev ids) _

-- The built graph is the layout of the groups that the builder makes.
pub from_stages-nodes :
    (stages : List Stage)
    → (from_stages stages).nodes ≡ layout 0 [] (OrdMap.values (group_stages stages []))
unfolding from_stages
from_stages-nodes stages = add_groups-nodes (OrdMap.values (group_stages stages [])) [] new refl tt
