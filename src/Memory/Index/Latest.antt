-- ===== src/Memory/Index/Latest.antt =====
-- The most recent record of a workflow, to which the next result is chained.
use zerochain.Prelude.{
  ◌≡◌, ◌≢◌, ◌↔◌, refl, sym, ◌∙◌, ap, Bool, true, false, none, some, List, [], ◌∷◌, Text, text_ord,
  text_cmp, text_cmp_eq, text_cmp-flip, text_cmp_trans, Ordering, flip, any, select, All, arith,
  Bool-cases, Ordering-cases, inl, inr, some-inj, subst, none-ne-some,
}
use zerochain.OrdMap
use zerochain.OrdMap.{OrdMap}
use zerochain.OrdMap.Sorted.{entries-get}
use zerochain.Memory.Record.{ContributionRecord}
use zerochain.Memory.Index.{GraphIndex, latest_in_workflow, in_workflow, age_cmp, max_by, max_from}
use zerochain.Memory.Index.Invariant.{IsIndexed}

text_le_trans :
    (s t u : Text)
    → text_cmp s t ≢ Ordering.gt
    → text_cmp t u ≢ Ordering.gt
    → text_cmp s u ≢ Ordering.gt
text_le_trans s t u h k = ground (arith, text_cmp_trans s t u, text_cmp_eq s t, text_cmp_eq t u)

module _ {F : Type 0} where
  pub age_cmp-flip : (a b : ContributionRecord F) → age_cmp b a ≡ flip (age_cmp a b)
  unfolding age_cmp
  age_cmp-flip a b = ground (arith, text_cmp-flip a.id b.id)

  -- No older than.
  abbrev pub AtMost : ContributionRecord F → ContributionRecord F → Type 0
  AtMost a b = age_cmp a b ≢ Ordering.gt

  pub AtMost-trans : (a b c : ContributionRecord F) → AtMost a b → AtMost b c → AtMost a c
  unfolding age_cmp
  AtMost-trans a b c h k = ground (arith, text_le_trans a.id b.id c.id)

  AtMost-self : (a : ContributionRecord F) → AtMost a a
  unfolding age_cmp
  AtMost-self a = ground (arith, text_cmp_eq a.id a.id)

  abbrev next_best : ContributionRecord F → ContributionRecord F → ContributionRecord F
  next_best best x = elim (age_cmp best x) [ Ordering.gt ↦ best | _ ↦ x ]

  next_best-AtMost :
      (best x : ContributionRecord F) → AtMost best (next_best best x) × AtMost x (next_best best x)
  next_best-AtMost best x = elim (Ordering-cases (age_cmp best x)) [
    | inl e ↦ rw (e, next_best) ((λ f. cc), AtMost-self x)
    | inr (inl e) ↦ rw (e, next_best) ((λ f. cc), AtMost-self x)
    | inr (inr e) ↦ rw (e, next_best) (AtMost-self best, (λ f. ground (arith, age_cmp-flip best x)))
  ]

  max_from-AtMost :
      (best : ContributionRecord F) (xs : List (ContributionRecord F))
      → AtMost best (max_from age_cmp best xs) × All (λ x. AtMost x (max_from age_cmp best xs)) xs
  max_from-AtMost best [] = (AtMost-self best, tt)
  max_from-AtMost best (x ∷ xs) =
      let (held, rest) = max_from-AtMost (next_best best x) xs in
      let (from_best, from_x) = next_best-AtMost best x in
      let m = max_from age_cmp (next_best best x) xs in
      (
        AtMost-trans best (next_best best x) m from_best held,
        (AtMost-trans x (next_best best x) m from_x held, rest),
      )

  max_from-member :
      (P : ContributionRecord F → Type 0) (best : ContributionRecord F)
      (xs : List (ContributionRecord F))
      → P best
      → All P xs
      → P (max_from age_cmp best xs)
  max_from-member P best [] h a = h
  max_from-member P best (x ∷ xs) h a =
      max_from-member P (next_best best x) xs (by_cmp (age_cmp best x)) a.1
    where
      by_cmp : (o : Ordering) → P (elim o [ Ordering.gt ↦ best | _ ↦ x ])
      by_cmp Ordering.lt = a.0
      by_cmp Ordering.eq = a.0
      by_cmp Ordering.gt = h

  All-select :
      (P : ContributionRecord F → Type 0) (q : ContributionRecord F → Bool)
      (xs : List (ContributionRecord F))
      → All P xs
      → All (λ x. (q x ≡ true) × P x) (select q xs)
  All-select P q [] a = tt
  All-select P q (x ∷ xs) a = elim (Bool-cases (q x)) [
    | inl e ↦ rw e ((e, a.0), All-select P q xs a.1)
    | inr e ↦ rw e (All-select P q xs a.1)
  ]

  All-of_select :
      (P : ContributionRecord F → Type 0) (q : ContributionRecord F → Bool)
      (xs : List (ContributionRecord F))
      → All P (select q xs)
      → All (λ x. q x ≡ true → P x) xs
  All-of_select P q [] a = tt
  All-of_select P q (x ∷ xs) a = elim (Bool-cases (q x)) [
    | inl e ↦ let b = rw e at a in ((λ h. b.0), All-of_select P q xs b.1)
    | inr e ↦ ((λ h. absurd cc), All-of_select P q xs (rw e at a))
  ]

  select-none :
      (q : ContributionRecord F → Bool) (xs : List (ContributionRecord F))
      → (max_by age_cmp (select q xs) ≡ none) ↔ (any q xs ≡ false)
  select-none q [] = ground arith
  select-none q (x ∷ xs) = elim (Bool-cases (q x)) [
    | inl e ↦ ground (arith, e)
    | inr e ↦ ground (arith, e, select-none q xs)
  ]

  own_values :
      (ix : GraphIndex F) (m : OrdMap Text (ContributionRecord F))
      → IsIndexed ix
      → All (λ e. OrdMap.get e.0 ix.records ≡ some e.1) m
      → All (λ x. OrdMap.get x.id ix.records ≡ some x) (OrdMap.values m)
  own_values ix [] w a = tt
  own_values ix ((i, r) ∷ m) w a =
      (ap (λ k. OrdMap.get k ix.records) (w.own_id i r a.0) ∙ a.0, own_values ix m w a.1)

  -- What the latest record of a workflow is: it is in the index and in the workflow, and no record of
  -- the workflow comes after it, by the time and then by the id.
  pub record IsLatest (w : Text) (ix : GraphIndex F) (r : ContributionRecord F) : Type 0 where
    pub stored : OrdMap.get r.id ix.records ≡ some r
    pub inside : in_workflow w r ≡ true
    pub youngest : All (λ x. in_workflow w x ≡ true → AtMost x r) (OrdMap.values ix.records)

  max_by-IsLatest :
      (w : Text) (ix : GraphIndex F) (r : ContributionRecord F) (xs : List (ContributionRecord F))
      → select (in_workflow w) (OrdMap.values ix.records) ≡ xs
      → All (λ x. (in_workflow w x ≡ true) × (OrdMap.get x.id ix.records ≡ some x)) xs
      → max_by age_cmp xs ≡ some r
      → IsLatest w ix r
  max_by-IsLatest w ix r [] e a h = absurd (none-ne-some h)
  max_by-IsLatest w ix r (x ∷ xs) e a h =
      let same : max_from age_cmp x xs ≡ r = some-inj h in
      let member =
        max_from-member (λ y. (in_workflow w y ≡ true) × (OrdMap.get y.id ix.records ≡ some y)) x xs
          a.0 a.1 in
      subst (IsLatest w ix) same (record {
        stored = member.1;
        inside = member.0;
        youngest =
            All-of_select (λ y. AtMost y (max_from age_cmp x xs)) (in_workflow w)
              (OrdMap.values ix.records)
              (subst (All (λ y. AtMost y (max_from age_cmp x xs))) (sym e) (max_from-AtMost x xs));
      })

  -- In a consistent index the record that is offered as the latest of a workflow is one, and none is
  -- offered exactly if the workflow has no record.
  pub latest_in_workflow-IsLatest :
      (w : Text) (ix : GraphIndex F)
      → IsIndexed ix
      → ((r : ContributionRecord F) → latest_in_workflow w ix ≡ some r → IsLatest w ix r)
        × ((latest_in_workflow w ix ≡ none)
            ↔ (any (in_workflow w) (OrdMap.values ix.records) ≡ false))
  unfolding latest_in_workflow
  latest_in_workflow-IsLatest w ix h = (
    λ r e.
        max_by-IsLatest w ix r (select (in_workflow w) (OrdMap.values ix.records)) refl
          (All-select (λ x. OrdMap.get x.id ix.records ≡ some x) (in_workflow w)
            (OrdMap.values ix.records)
            (own_values ix ix.records h (entries-get ix.records h.sorted)))
          e,
    select-none (in_workflow w) (OrdMap.values ix.records),
  )
