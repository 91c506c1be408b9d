-- ===== src/Graph/Order/Cycle.antt =====
-- A cycle is reported only where there is one, and an order is returned only where there is none.
use zerochain.Prelude.{
  ℕ, zero, suc, ◌+◌, ◌<◌, ◌≡◌, refl, sym, ◌∙◌, ap, Bool, true, false, List, [], ◌∷◌, ◌++◌, arith,
  nat_eq, nat_eq_iff, nat_eq_instance, nat_ord, Result, ok, err, ◌>>=◌, Result-cases, Bool-cases,
  Option-cases, inl, inr, ◌⊎◌, ◌↔◌, if◌then◌else◌, length, All,
}
use zerochain.OrdMap
use zerochain.HashMap.{contains, contains-append}
use zerochain.Errors.{Error, plan_error, cycle_detected}
use zerochain.Graph.{
  WorkflowGraph, NodeId, deps_of, Visit, Stop, visit, for_each, enter, leave, fresh, out_of_fuel,
  failed, topological_order,
}
use zerochain.Graph.Order.Spec.{Leads, edge, next, IsOrdered}
use zerochain.Graph.Order.Walk.{Inv, Post, visit-Post}
use zerochain.Graph.Order.Sound.{topological_order-IsOrdered}
use zerochain.Graph.Order.Fuel.{contains-keys, topological_order-ends}

module _ (g : WorkflowGraph) where
  -- The error names a node that leads back to itself.
  abbrev pub IsCycle : Error → Type 0
  IsCycle x = (k : NodeId) × (x ≡ plan_error (cycle_detected k)) × Leads g k k

  abbrev Above : List NodeId → NodeId → Type 0
  Above t i = (x : NodeId) → contains x t ≡ true → Leads g x i

  Above-enter :
      (i d : NodeId) (t : List NodeId)
      → Above t i
      → contains d (deps_of g i) ≡ true
      → Above (i ∷ t) d
  Above-enter i d t above h x k = elim (Bool-cases (nat_eq i x)) [
    | inl e ↦ rw (sym ((nat_eq_iff i x).0 e)) (edge h)
    | inr e ↦ next (above x (ground arith)) h
  ]

  for_each-IsCycle :
      (body : NodeId → Visit → Result Stop Visit) (t : List NodeId)
      → ((i : NodeId) (s u : Visit) → Inv g s → body i s ≡ ok u → Post g (i ∷ []) s u)
      → (is : List NodeId) {x : Error}
      → ((i : NodeId) (s : Visit)
          → contains i is ≡ true
          → Inv g s
          → s.temp ≡ t
          → body i s ≡ err (failed x)
          → IsCycle x)
      → (s : Visit) → Inv g s
      → s.temp ≡ t
      → for_each body is s ≡ err (failed x)
      → IsCycle x
  for_each-IsCycle body t step [] fails s inv same h = absurd cc
  for_each-IsCycle body t step (i ∷ is) fails s inv same h = elim (Result-cases (body i s)) [
    | inl (m, e) ↦
        let p = step i s m inv e in
        for_each-IsCycle body t step is (λ j u k. fails j u (ground arith)) m p.inv
          (p.temp_same ∙ same) (rw e at h)
    | inr (y, e) ↦ fails i s (ground arith) inv same (e ∙ (rw e at h))
  ]

  walk_fails :
      (i : NodeId) (m : Result Stop Visit) {x : Error}
      → (m >>= λ t. ok (leave i t)) ≡ err (failed x)
      → m ≡ err (failed x)
  walk_fails i (ok t) h = absurd cc
  walk_fails i (err y) h = h

  visit-IsCycle :
      (fuel : ℕ) (i : NodeId) (s : Visit) {x : Error}
      → Inv g s
      → Above s.temp i
      → visit fuel g i s ≡ err (failed x)
      → IsCycle x
  unfolding visit
  visit-IsCycle zero i s inv above h = absurd cc
  visit-IsCycle (suc fuel) i s {x} inv above h = elim (Bool-cases (contains i s.visited)) [
    | inl old ↦ absurd (ground arith)
    | inr unseen ↦ elim (Bool-cases (contains i s.temp)) [
      | inl cyclic ↦ (i, ground arith, above i cyclic)
      | inr absent ↦
          let h' = rw absent at (rw unseen at h) in
          let inside : Inv g (enter i s) = record {
            same = inv.same;
            ordered = inv.ordered;
            distinct = inv.distinct;
          } in
          for_each-IsCycle (visit fuel g) (i ∷ s.temp) (visit-Post g fuel) (deps_of g i)
            (λ j u d inv_u same.
              visit-IsCycle fuel j u inv_u (rw same (Above-enter i j s.temp above d)))
            (enter i s) inside refl
            (walk_fails i (for_each (visit fuel g) (deps_of g i) (enter i s)) h')
    ]
  ]

  run-IsCycle : (x : Error) → topological_order g ≡ err (failed x) → IsCycle x
  unfolding topological_order
  run-IsCycle x h =
      elim (Result-cases (for_each (visit (length g.nodes + 2) g) (OrdMap.keys g.nodes) fresh)) [
        | inl (t, e) ↦ absurd (ground arith)
        | inr (y, e) ↦
            for_each-IsCycle (visit (length g.nodes + 2) g) [] (visit-Post g (length g.nodes + 2))
              (OrdMap.keys g.nodes)
              (λ i s k inv same. visit-IsCycle (length g.nodes + 2) i s inv (rw same (λ y k. cc)))
              fresh (record { same = refl; ordered = tt; distinct = tt }) refl (e ∙ ground arith)
      ]

  -- The place of a node in an order.
  abbrev index : NodeId → List NodeId → ℕ
  index x [] = 0
  index x (y ∷ ys) = let rest = index x ys in if nat_eq y x then 0 else suc rest

  abbrev Before : NodeId → NodeId → List NodeId → Type 0
  Before d x xs = (contains d xs ≡ true) × (index d xs < index x xs)

  All-contains :
      (p : NodeId → Bool) (d : NodeId) (xs : List NodeId)
      → All (λ x. p x ≡ true) xs
      → contains d xs ≡ true
      → p d ≡ true
  All-contains p d [] h k = absurd cc
  All-contains p d (x ∷ xs) h k = elim (Bool-cases (nat_eq x d)) [
    | inl e ↦ rw (← (nat_eq_iff x d).0 e) h.0
    | inr e ↦ All-contains p d xs h.1 (ground arith)
  ]

  IsOrdered-Before :
      (seen xs : List NodeId) (x d : NodeId)
      → IsOrdered g seen xs
      → contains x xs ≡ true
      → contains d (deps_of g x) ≡ true
      → (contains d seen ≡ true) ⊎ Before d x xs
  IsOrdered-Before seen [] x d o h k = absurd cc
  IsOrdered-Before seen (y ∷ ys) x d o h k = elim (Bool-cases (nat_eq y x)) [
    | inl e ↦ inl (
        All-contains (λ z. contains z seen) d (deps_of g y) o.0
          (rw (sym ((nat_eq_iff y x).0 e)) at k))
    | inr e ↦ elim (IsOrdered-Before (seen ++ y ∷ []) ys x d o.1 (ground arith) k) [
      | inl old ↦ elim (Bool-cases (contains d seen)) [
        | inl older ↦ inl older
        | inr other ↦ inr (
          ground (arith, contains-append d seen (y ∷ [])),
          ground (arith, contains-append d seen (y ∷ [])),
        )
      ]
      | inr (c, l) ↦ inr (ground arith, ground arith)
    ]
  ]

  Leads-Before :
      (order : List NodeId) {a b : NodeId}
      → IsOrdered g [] order
      → contains a order ≡ true
      → Leads g a b
      → Before b a order
  Leads-Before order o h (edge {a} {b} k) = elim (IsOrdered-Before [] order a b o h k) [
    | inl e ↦ absurd cc
    | inr r ↦ r
  ]
  Leads-Before order o h (next {a} {b} {c} l k) =
      let (found, less) = Leads-Before order o h l in
      elim (IsOrdered-Before [] order b c o found k) [
        | inl e ↦ absurd cc
        | inr (f, m) ↦ (f, omega arith)
      ]

  no_deps : (i : NodeId) → contains i (OrdMap.keys g.nodes) ≡ false → deps_of g i ≡ []
  unfolding deps_of
  no_deps i h = elim (Option-cases (OrdMap.get i g.nodes)) [
    | inl e ↦ rw (e, deps_of)
    | inr (n, e) ↦ absurd (ground (arith, contains-keys i g.nodes n e))
  ]

  -- The first node of a path has a dependency, so it is a node of the graph.
  Leads-key : {a b : NodeId} → Leads g a b → contains a (OrdMap.keys g.nodes) ≡ true
  Leads-key (edge {a} {b} k) = elim (Bool-cases (contains a (OrdMap.keys g.nodes))) [
    | inl e ↦ e
    | inr e ↦ absurd (ground (arith, no_deps a e))
  ]
  Leads-key (next l k) = Leads-key l

  ordered_acyclic :
      (order : List NodeId) (k : NodeId) → topological_order g ≡ ok order → ¬ Leads g k k
  ordered_acyclic order k h l =
      let (o, d, all_keys) = topological_order-IsOrdered g order h in
      let here =
        All-contains (λ z. contains z order) k (OrdMap.keys g.nodes) all_keys (Leads-key l) in
      let (found, less) = Leads-Before order o here l in omega arith

-- An error of `topological_order` names a node that depends on itself, directly or not.
pub topological_order-err :
    (g : WorkflowGraph) (e : Stop)
    → topological_order g ≡ err e
    → (k : NodeId) × (e ≡ failed (plan_error (cycle_detected k))) × Leads g k k
topological_order-err g out_of_fuel h = absurd (topological_order-ends g h)
topological_order-err g (failed x) h = let (k, e, l) = run-IsCycle g x h in (k, ap failed e, l)

-- An order is returned exactly for the graphs in which no node depends on itself, directly or not.
pub topological_order-ok_iff :
    (g : WorkflowGraph)
    → ((order : List NodeId) × (topological_order g ≡ ok order)) ↔ ((k : NodeId) → ¬ Leads g k k)
topological_order-ok_iff g = (
  λ (order, h) k. ordered_acyclic g order k h,
  λ acyclic. elim (Result-cases (topological_order g)) [
    | inl r ↦ r
    | inr (e, h) ↦ let (k, x, l) = topological_order-err g e h in absurd (acyclic k l)
  ],
)
