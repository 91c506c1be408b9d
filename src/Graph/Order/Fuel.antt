-- ===== src/Graph/Order/Fuel.antt =====
-- `topological_order` never runs out of the fuel that it is given: each nested call adds a node to
-- `temp`, and only nodes have dependencies.
use zerochain.Prelude.{
  ℕ, zero, suc, ◌+◌, ◌≤◌, ◌<◌, ◌≡◌, ◌≢◌, refl, ◌∙◌, ap, true, false, not, none, some, List, [], ◌∷◌,
  arith, nat_eq, nat_eq_instance, nat_ord, Result, ok, err, ◌>>=◌, Result-cases, Bool-cases,
  Option-cases, inl, inr, length, select,
}
use zerochain.OrdMap
use zerochain.OrdMap.{OrdMap}
use zerochain.HashMap.{contains}
use zerochain.Graph.{
  WorkflowGraph, NodeId, deps_of, Visit, Stop, visit, for_each, enter, leave, fresh, out_of_fuel,
  topological_order,
}
use zerochain.Graph.Order.Walk.{Inv, Post, visit-Post}

-- The nodes among `ks` that are not being visited.
abbrev unvisited : List NodeId → List NodeId → ℕ
unvisited t ks = length (select (λ k. not (contains k t)) ks)

unvisited-le : (i : NodeId) (t ks : List NodeId) → unvisited (i ∷ t) ks ≤ unvisited t ks
unvisited-le i t [] = omega arith
unvisited-le i t (k ∷ ks) = ground (arith, unvisited-le i t ks)

unvisited-lt :
    (i : NodeId) (t ks : List NodeId)
    → contains i ks ≡ true
    → contains i t ≡ false
    → unvisited (i ∷ t) ks < unvisited t ks
unvisited-lt i t [] h k = cc
unvisited-lt i t (j ∷ ks) h k = elim (Bool-cases (nat_eq j i)) [
  | inl e ↦ ground (arith, unvisited-le i t ks)
  | inr e ↦ ground (arith, unvisited-lt i t ks)
]

pub contains-keys {ℓ} :
    {V : Type ℓ} (i : ℕ) (m : OrdMap ℕ V) (v : V)
    → OrdMap.get i m ≡ some v
    → contains i (OrdMap.keys m) ≡ true
contains-keys i [] v h = cc
contains-keys i ((j, w) ∷ m) v h = ground (arith, contains-keys i m v)

unvisited_none : (ks : List NodeId) → unvisited [] ks ≡ length ks
unvisited_none [] = refl
unvisited_none (k ∷ ks) = ap suc (unvisited_none ks)

length-keys {ℓ} : {V : Type ℓ} (m : OrdMap ℕ V) → length (OrdMap.keys m) ≡ length m
length-keys [] = refl
length-keys (e ∷ m) = ap suc (length-keys m)

module _ (g : WorkflowGraph) where
  abbrev room : List NodeId → ℕ
  room t = unvisited t (OrdMap.keys g.nodes)

  for_each-ends :
      (body : NodeId → Visit → Result Stop Visit) (t : List NodeId)
      → ((i : NodeId) (s u : Visit) → Inv g s → body i s ≡ ok u → Post g (i ∷ []) s u)
      → ((i : NodeId) (s : Visit) → Inv g s → s.temp ≡ t → body i s ≢ err out_of_fuel)
      → (is : List NodeId) (s : Visit) → Inv g s
      → s.temp ≡ t
      → for_each body is s ≢ err out_of_fuel
  for_each-ends body t step ends [] s inv same h = cc
  for_each-ends body t step ends (i ∷ is) s inv same h = elim (Result-cases (body i s)) [
    | inl (m, e) ↦
        let p = step i s m inv e in
        for_each-ends body t step ends is m p.inv (p.temp_same ∙ same) (rw e at h)
    | inr (x, e) ↦ ends i s inv same (e ∙ (rw e at h))
  ]

  deps_of-none : (i : NodeId) → OrdMap.get i g.nodes ≡ none → deps_of g i ≡ []
  unfolding deps_of
  deps_of-none i h = rw (h, deps_of)

  walk_ends :
      (i : NodeId) (s : Visit) {m : Result Stop Visit}
      → m ≢ err out_of_fuel
      → (m >>= λ t. ok (leave i t)) ≢ err out_of_fuel
  walk_ends i s {m = ok t} h e = cc
  walk_ends i s {m = err x} h e = h e

  pub visit-ends :
      (fuel : ℕ) (i : NodeId) (s : Visit)
      → Inv g s
      → room s.temp + 2 ≤ fuel
      → visit fuel g i s ≢ err out_of_fuel
  unfolding visit
  visit-ends zero i s inv k h = omega arith
  visit-ends (suc fuel) i s inv k h = elim (Bool-cases (contains i s.visited)) [
    | inl old ↦ ground arith
    | inr unseen ↦ elim (Bool-cases (contains i s.temp)) [
      | inl cyclic ↦ ground arith
      | inr absent ↦
          let h' = rw absent at (rw unseen at h) in
          let inside : Inv g (enter i s) = record {
            same = inv.same;
            ordered = inv.ordered;
            distinct = inv.distinct;
          } in
          elim (Option-cases (OrdMap.get i g.nodes)) [
            | inl e ↦ walk_ends i s (rw (deps_of-none i e) (λ x. cc)) h'
            | inr (n, e) ↦
                walk_ends i s
                  (for_each-ends (visit fuel g) (i ∷ s.temp) (visit-Post g fuel)
                    (λ j u inv_u same. visit-ends fuel j u inv_u (
                      rw same (
                        omega (
                          arith,
                          unvisited-lt i s.temp (OrdMap.keys g.nodes) (contains-keys i g.nodes n e)
                              absent,
                        ))))
                    (deps_of g i) (enter i s) inside refl)
                  h'
          ]
    ]
  ]

  run-ends : topological_order g ≢ err out_of_fuel
  unfolding topological_order
  run-ends h =
      elim (Result-cases (for_each (visit (length g.nodes + 2) g) (OrdMap.keys g.nodes) fresh)) [
        | inl (t, e) ↦ ground arith
        | inr (x, e) ↦
            for_each-ends (visit (length g.nodes + 2) g) [] (visit-Post g (length g.nodes + 2))
              (λ i s inv same. visit-ends (length g.nodes + 2) i s inv (
                rw same (omega (arith, unvisited_none (OrdMap.keys g.nodes), length-keys g.nodes))))
              (OrdMap.keys g.nodes) fresh (record { same = refl; ordered = tt; distinct = tt }) refl
              (e ∙ ground arith)
      ]

-- The traversal of any graph ends by itself: the fuel that it is given is enough.
pub topological_order-ends : (g : WorkflowGraph) → topological_order g ≢ err out_of_fuel
topological_order-ends g = run-ends g
