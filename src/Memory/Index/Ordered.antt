-- ===== src/Memory/Index/Ordered.antt =====
-- The list of all records, oldest first.
use zerochain.Prelude.{
  ◌≡◌, refl, Bool, ◌||◌, List, [], ◌∷◌, any, All, insert_by, sort_by, arith, Ordering-cases, inl,
  inr, text_ord,
}
use zerochain.OrdMap
use zerochain.Memory.Record.{ContributionRecord}
use zerochain.Memory.Index.{GraphIndex, age_cmp, all_records}
use zerochain.Memory.Index.Latest.{AtMost, AtMost-trans, age_cmp-flip}

module _ {F : Type 0} where
  -- Each is at most as young as all that follow it.
  abbrev pub IsAscending : List (ContributionRecord F) → Type 0
  IsAscending [] = Unit
  IsAscending (x ∷ xs) = All (AtMost x) xs × IsAscending xs

  All-insert_by :
      (P : ContributionRecord F → Type 0) (x : ContributionRecord F)
      (ys : List (ContributionRecord F))
      → P x
      → All P ys
      → All P (insert_by age_cmp x ys)
  All-insert_by P x [] h a = (h, tt)
  All-insert_by P x (y ∷ ys) h a = elim (Ordering-cases (age_cmp y x)) [
    | inl e ↦ rw (e, insert_by) (a.0, All-insert_by P x ys h a.1)
    | inr (inl e) ↦ rw (e, insert_by) (h, a)
    | inr (inr e) ↦ rw (e, insert_by) (h, a)
  ]

  below-All :
      (x y : ContributionRecord F) (ys : List (ContributionRecord F))
      → AtMost x y
      → All (AtMost y) ys
      → All (AtMost x) ys
  below-All x y [] h a = tt
  below-All x y (z ∷ ys) h a = (AtMost-trans x y z h a.0, below-All x y ys h a.1)

  insert_by-IsAscending :
      (x : ContributionRecord F) (ys : List (ContributionRecord F))
      → IsAscending ys
      → IsAscending (insert_by age_cmp x ys)
  insert_by-IsAscending x [] a = (tt, tt)
  insert_by-IsAscending x (y ∷ ys) a = elim (Ordering-cases (age_cmp y x)) [
    | inl e ↦
        let first : AtMost y x = λ f. ground (arith, e, f) in
        rw (e, insert_by) (All-insert_by (AtMost y) x ys first a.0, insert_by-IsAscending x ys a.1)
    | inr (inl e) ↦
        let first : AtMost x y = λ f. ground (arith, e, f, age_cmp-flip y x) in
        rw (e, insert_by) ((first, below-All x y ys first a.0), a)
    | inr (inr e) ↦
        let first : AtMost x y = λ f. ground (arith, e, f, age_cmp-flip y x) in
        rw (e, insert_by) ((first, below-All x y ys first a.0), a)
  ]

  sort_by-IsAscending : (xs : List (ContributionRecord F)) → IsAscending (sort_by age_cmp xs)
  sort_by-IsAscending [] = tt
  sort_by-IsAscending (x ∷ xs) =
      insert_by-IsAscending x (sort_by age_cmp xs) (sort_by-IsAscending xs)

  any-insert_by :
      (p : ContributionRecord F → Bool) (x : ContributionRecord F)
      (ys : List (ContributionRecord F))
      → any p (insert_by age_cmp x ys) ≡ (p x || any p ys)
  any-insert_by p x [] = refl
  any-insert_by p x (y ∷ ys) = ground (arith, any-insert_by p x ys)

  any-sort_by :
      (p : ContributionRecord F → Bool) (xs : List (ContributionRecord F))
      → any p (sort_by age_cmp xs) ≡ any p xs
  any-sort_by p [] = refl
  any-sort_by p (x ∷ xs) = ground (arith, any-insert_by p x (sort_by age_cmp xs), any-sort_by p xs)

  -- All records are listed in the order of their times, and of their ids where the times are equal;
  -- whatever test some record of the index meets, some listed record meets, and the other way round.
  pub all_records-IsAscending :
      (ix : GraphIndex F)
      → IsAscending (all_records ix)
        × ((p : ContributionRecord F → Bool)
            → any p (all_records ix) ≡ any p (OrdMap.values ix.records))
  unfolding all_records
  all_records-IsAscending ix = (
    sort_by-IsAscending (OrdMap.values ix.records),
    λ p. any-sort_by p (OrdMap.values ix.records),
  )
