-- ===== src/Graph/Builder/Built.antt =====
-- The built graph: its size, its order, and the dependencies of its nodes.
use mathlib.Core.List.{append_assoc, append-nil}
use zerochain.Prelude.{
  or_default, ℕ, suc, ◌+◌, ◌≡◌, refl, sym, ◌∙◌, ap, true, some, List, [], ◌∷◌, ◌++◌, arith, nat_ord,
  nat_eq_instance, ok, length, All, inl, inr, length-append, subst, compare, Ordering-cases,
}
use zerochain.OrdMap
use zerochain.OrdMap.{OrdMap}
use zerochain.OrdMap.Sorted.{IsSorted, insert-IsSorted, get-AllAbove}
use zerochain.HashMap.{contains, contains-append}
use zerochain.Stage.{Stage, StageId}
use zerochain.Graph.{WorkflowGraph, NodeId, Node, stage, deps_of, topological_order}
use zerochain.Graph.WellFormed.{range_from}
use zerochain.Graph.Order.Spec.{IsOrdered}
use zerochain.Graph.Order.Ascending.{topological_order-keys}
use zerochain.Graph.Builder.{from_stages, group_stages, push_group}
use zerochain.Graph.Builder.Layout.{layout, layout_group, keys-layout_group, from_stages-nodes}
use zerochain.Graph.Builder.Ranges.{
  range_from-Distinct, range_from-append, keys-append, get_last, keys-snoc,
}

-- The stages in all groups.
abbrev total : List (List StageId) → ℕ
total [] = 0
total (ids ∷ rest) = length ids + total rest

keys-layout :
    (next : NodeId) (prev : List NodeId) (groups : List (List StageId))
    → OrdMap.keys (layout next prev groups) ≡ range_from next (total groups)
keys-layout next prev [] = refl
keys-layout next prev (ids ∷ rest) =
    let current = range_from next (length ids) in
    keys-append (layout_group next prev ids) (layout (next + length ids) current rest)
    ∙ ap (λ l. l ++ OrdMap.keys (layout (next + length ids) current rest))
        (keys-layout_group next prev ids)
    ∙ ap (λ l. current ++ l) (keys-layout (next + length ids) current rest)
    ∙ range_from-append next (length ids) (next + length ids) (total rest) refl

-- An insertion puts a list in the place of the one with the same key, if there is one.
total-insert :
    (k : ℕ) (v : List StageId) (m : OrdMap ℕ (List StageId))
    → IsSorted m
    → total (OrdMap.values (OrdMap.insert k v m)) + length (or_default (OrdMap.get k m))
      ≡ total (OrdMap.values m) + length v
total-insert k v [] s = omega arith
total-insert k v ((j, ids) ∷ m) s = elim (Ordering-cases (compare k j)) [
  | inl e ↦ ground (arith, e, get-AllAbove k j m s.0 e)
  | inr (inl e) ↦ ground (arith, e)
  | inr (inr e) ↦ ground (arith, e, total-insert k v m s.1)
]

total-push :
    (k : ℕ) (s : StageId) (m : OrdMap ℕ (List StageId))
    → IsSorted m
    → total (OrdMap.values (push_group k s m)) ≡ suc (total (OrdMap.values m))
total-push k s m sorted =
    let ids = or_default (OrdMap.get k m) in
    omega (arith, total-insert k (ids ++ s ∷ []) m sorted, length-append ids (s ∷ []))

total-group_stages :
    (stages : List Stage) (m : OrdMap ℕ (List StageId))
    → IsSorted m
    → total (OrdMap.values (group_stages stages m)) ≡ total (OrdMap.values m) + length stages
total-group_stages [] m h = omega arith
total-group_stages (s ∷ ss) m h =
    let next =
      total-group_stages ss (push_group s.id.sequence s.id m) (
        insert-IsSorted s.id.sequence (or_default (OrdMap.get s.id.sequence m) ++ s.id ∷ []) m h) in
    omega (arith, total-push s.id.sequence s.id m h, next)

total-stages :
    (stages : List Stage) → total (OrdMap.values (group_stages stages [])) ≡ length stages
total-stages stages = omega (arith, total-group_stages stages [] tt)

-- One handle for each stage.
pub keys-from_stages :
    (stages : List Stage) → OrdMap.keys (from_stages stages).nodes ≡ range_from 0 (length stages)
keys-from_stages stages =
    ap OrdMap.keys (from_stages-nodes stages)
    ∙ keys-layout 0 [] (OrdMap.values (group_stages stages []))
    ∙ ap (range_from 0) (total-stages stages)

All-seen_snoc :
    (x : NodeId) (seen ds : List NodeId)
    → All (λ d. contains d seen ≡ true) ds
    → All (λ d. contains d (seen ++ x ∷ []) ≡ true) ds
All-seen_snoc x seen [] h = tt
All-seen_snoc x seen (d ∷ ds) h =
    (ground (arith, contains-append d seen (x ∷ []), h.0), All-seen_snoc x seen ds h.1)

All-seen : (seen ds : List NodeId) → All (λ d. contains d (seen ++ ds) ≡ true) ds
All-seen seen [] = tt
All-seen seen (d ∷ ds) = (
  ground (arith, contains-append d seen (d ∷ ds)),
  subst (λ (l : List NodeId). All (λ x. contains x l ≡ true) ds) (append_assoc seen (d ∷ []) ds)
      (All-seen (seen ++ d ∷ []) ds),
)

module _ (g : WorkflowGraph) where
  deps_of-last :
      (k : NodeId) (s : StageId) (prev : List NodeId) (m rest : OrdMap NodeId Node)
      → OrdMap.keys m ≡ range_from 0 k
      → g.nodes ≡ m ++ (k, stage k s prev) ∷ rest
      → deps_of g k ≡ prev
  unfolding deps_of
  deps_of-last k s prev m rest h e =
      let here : OrdMap.get k g.nodes ≡ some (stage k s prev) =
        rw e (get_last 0 k k (stage k s prev) m rest (omega arith) h) in
      rw (here, deps_of)

  group-IsOrdered :
      (next : NodeId) (prev : List NodeId) (ids : List StageId) (m rest : OrdMap NodeId Node)
      (seen later : List NodeId)
      → OrdMap.keys m ≡ range_from 0 next
      → g.nodes ≡ m ++ (layout_group next prev ids ++ rest)
      → All (λ d. contains d seen ≡ true) prev
      → IsOrdered g (seen ++ range_from next (length ids)) later
      → IsOrdered g seen (range_from next (length ids) ++ later)
  group-IsOrdered next prev [] m rest seen later h e a o = rw append-nil at o
  group-IsOrdered next prev (s ∷ ss) m rest seen later h e a o =
      let deps = deps_of-last next s prev m (layout_group (suc next) prev ss ++ rest) h e in
      (
        subst (All (λ d. contains d seen ≡ true)) (sym deps) a,
        group-IsOrdered (suc next) prev ss (m ++ (next, stage next s prev) ∷ []) rest
            (seen ++ next ∷ []) later (keys-snoc m next (stage next s prev) h)
            (e ∙ sym (append_assoc m ((next, stage next s prev) ∷ []) _))
            (All-seen_snoc next seen prev a) (rw append_assoc o),
      )

  layout-IsOrdered :
      (next : NodeId) (prev : List NodeId) (groups : List (List StageId)) (m : OrdMap NodeId Node)
      (seen : List NodeId)
      → OrdMap.keys m ≡ range_from 0 next
      → g.nodes ≡ m ++ layout next prev groups
      → All (λ d. contains d seen ≡ true) prev
      → IsOrdered g seen (range_from next (total groups))
  layout-IsOrdered next prev [] m seen h e a = tt
  layout-IsOrdered next prev (ids ∷ rest) m seen h e a =
      let current = range_from next (length ids) in
      let m' = m ++ layout_group next prev ids in
      let handles : OrdMap.keys m' ≡ range_from 0 (next + length ids) =
        keys-append m (layout_group next prev ids)
        ∙ ap (λ l. l ++ OrdMap.keys (layout_group next prev ids)) h
        ∙ ap (λ l. range_from 0 next ++ l) (keys-layout_group next prev ids)
        ∙ range_from-append 0 next next (length ids) (omega arith) in
      let later =
        layout-IsOrdered (next + length ids) current rest m' (seen ++ current) handles
          (e ∙ sym (append_assoc m (layout_group next prev ids) _)) (All-seen seen current) in
      subst (IsOrdered g seen)
        (range_from-append next (length ids) (next + length ids) (total rest) refl)
        (group-IsOrdered next prev ids m (layout (next + length ids) current rest) seen
          (range_from (next + length ids) (total rest)) h e a later)

-- The built graph has no cycle, and its order is that in which the nodes were made.
pub topological_order-from_stages :
    (stages : List Stage)
    → topological_order (from_stages stages) ≡ ok (range_from 0 (length stages))
topological_order-from_stages stages =
    let g = from_stages stages in
    let keys = keys-from_stages stages in
    let groups = OrdMap.values (group_stages stages []) in
    let ordered = layout-IsOrdered g 0 [] groups [] [] refl (from_stages-nodes stages) tt in
    topological_order-keys g (rw keys (range_from-Distinct 0 (length stages)))
      (rw keys (rw total-stages at ordered))
    ∙ ap ok keys
