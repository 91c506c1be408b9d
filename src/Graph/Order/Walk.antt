-- ===== src/Graph/Order/Walk.antt =====
-- What one call of `visit` leaves behind when it succeeds.
use zerochain.Prelude.{
  ℕ, zero, suc, ◌≡◌, refl, ap, ◌∙◌, subst, true, false, List, [], ◌∷◌, ◌++◌, All, arith,
  nat_eq_instance, Result, ok, >>=-eq-ok, ok-injective, Bool-cases, inl, inr, ◌⊎◌,
}
use zerochain.HashMap.{contains, contains-append, remove-absent}
use zerochain.Graph.{WorkflowGraph, NodeId, deps_of, Visit, Stop, visit, for_each, enter, leave}
use zerochain.Graph.Order.Spec.{Distinct, IsOrdered, Distinct-snoc, IsOrdered-snoc}

module _ (g : WorkflowGraph) where
  pub record Inv (s : Visit) : Type 0 where
    pub same : s.visited ≡ s.order
    pub ordered : IsOrdered g [] s.order
    pub distinct : Distinct s.order

  -- From `s` to `t`, after the nodes `is` have been visited.
  pub record Post (is : List NodeId) (s t : Visit) : Type 0 where
    pub inv : Inv t
    pub temp_same : t.temp ≡ s.temp
    pub grows : (x : NodeId) → contains x s.order ≡ true → contains x t.order ≡ true
    pub new :
        (x : NodeId)
        → contains x t.order ≡ true
        → (contains x s.order ≡ true) ⊎ (contains x s.temp ≡ false)
    pub done : All (λ i. contains i t.order ≡ true) is

  Post-refl :
      (s : Visit) (is : List NodeId) → Inv s → All (λ i. contains i s.order ≡ true) is → Post is s s
  Post-refl s is inv h = record {
    inv = inv;
    temp_same = refl;
    grows = λ x k. k;
    new = λ x k. inl k;
    done = h;
  }

  Post-cons :
      (i : NodeId) (is : List NodeId) (s t u : Visit)
      → Post (i ∷ []) s t
      → Post is t u
      → Post (i ∷ is) s u
  Post-cons i is s t u p q = record {
    inv = q.inv;
    temp_same = q.temp_same ∙ p.temp_same;
    grows = λ x k. q.grows x (p.grows x k);
    new = λ x k. elim (q.new x k) [
      | inl old ↦ p.new x old
      | inr away ↦ inr (rw (← p.temp_same) away)
    ];
    done = (q.grows i p.done.0, q.done);
  }

  pub for_each-Post :
      (body : NodeId → Visit → Result Stop Visit)
      → ((i : NodeId) (s t : Visit) → Inv s → body i s ≡ ok t → Post (i ∷ []) s t)
      → (is : List NodeId) (s t : Visit) → Inv s
      → for_each body is s ≡ ok t
      → Post is s t
  for_each-Post body step [] s t inv h = subst (Post [] s) (ok-injective h) (Post-refl s [] inv tt)
  for_each-Post body step (i ∷ is) s t inv h =
      let (m, first, rest) = >>=-eq-ok (body i s) (for_each body is) h in
      let p = step i s m inv first in
      Post-cons i is s m t p (for_each-Post body step is m t p.inv rest)

  leave-Post :
      (i : NodeId) (s m : Visit)
      → Inv s
      → contains i s.visited ≡ false
      → contains i s.temp ≡ false
      → Post (deps_of g i) (enter i s) m
      → Post (i ∷ []) s (leave i m)
  leave-Post i s m inv unvisited absent q =
      let unordered = rw inv.same at unvisited in
      let fresh_i : contains i m.order ≡ false = elim (Bool-cases (contains i m.order)) [
        | inl old ↦ ground (arith, q.new i old)
        | inr e ↦ e
      ] in
      record {
        inv = record {
          same = ap (λ l. l ++ i ∷ []) q.inv.same;
          ordered = IsOrdered-snoc g [] m.order i q.inv.ordered q.done;
          distinct = Distinct-snoc m.order i q.inv.distinct fresh_i;
        };
        temp_same = rw q.temp_same (ground (arith, remove-absent i s.temp absent));
        grows = λ x k. ground (arith, contains-append x m.order (i ∷ []), q.grows x k);
        new = λ x k. elim (Bool-cases (contains x m.order)) [
          | inl old ↦ ground (arith, q.new x old)
          | inr e ↦ inr (ground (arith, contains-append x m.order (i ∷ [])))
        ];
        done = (ground (arith, contains-append i m.order (i ∷ [])), tt);
      }

  pub visit-Post :
      (fuel : ℕ) (i : NodeId) (s t : Visit) → Inv s → visit fuel g i s ≡ ok t → Post (i ∷ []) s t
  unfolding visit
  visit-Post zero i s t inv h = cc
  visit-Post (suc fuel) i s t inv h = elim (Bool-cases (contains i s.visited)) [
    | inl old ↦
        subst (Post (i ∷ []) s) (ok-injective (rw old at h))
          (Post-refl s (i ∷ []) inv (rw (← inv.same) old, tt))
    | inr unvisited ↦ elim (Bool-cases (contains i s.temp)) [
      | inl cyclic ↦ ground arith
      | inr absent ↦
          let h' = rw absent at (rw unvisited at h) in
          let (m, walked, left) =
            >>=-eq-ok (for_each (visit fuel g) (deps_of g i) (enter i s)) (λ m. ok (leave i m))
              h' in
          let inside : Inv (enter i s) = record {
            same = inv.same;
            ordered = inv.ordered;
            distinct = inv.distinct;
          } in
          subst (Post (i ∷ []) s) (ok-injective left) (
            leave-Post i s m inv unvisited absent (
              for_each-Post (visit fuel g) (visit-Post fuel) (deps_of g i) (enter i s) m inside
                walked))
    ]
  ]
