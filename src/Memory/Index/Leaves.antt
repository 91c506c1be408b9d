-- ===== src/Memory/Index/Leaves.antt =====
-- The frontier of the graph: the records that can still be built on.
use mathlib.Core.Path.{ap₂}
use zerochain.Prelude.{
  ◌≡◌, refl, Bool, true, false, not, ◌&&◌, List, [], ◌∷◌, text_ord, text_eq_instance, any, select,
  arith, Option, Ordering,
}
use zerochain.OrdMap
use zerochain.HashMap.{contains}
use zerochain.Memory.Record.{ContributionRecord, ContributionType, verification, type_eq}
use zerochain.Memory.Index.{GraphIndex, view, leaves, is_leaf, from_records}
use zerochain.Memory.Index.Invariant.{from_records-IsIndexed}

pub select-same {ℓ} :
    {A : Type ℓ} (p q : A → Bool) (xs : List A) → ((x : A) → p x ≡ q x) → select p xs ≡ select q xs
select-same p q [] h = refl
select-same p q (x ∷ xs) h = ground (arith, h x, select-same p q xs h)

-- What can be built on.
abbrev pub is_work : ContributionType → Bool
is_work verification = false
is_work _ = true

is_work-type_eq : (t : ContributionType) → not (type_eq t verification) ≡ is_work t
is_work-type_eq t = ground arith

-- No record names this one as a parent, and it is no verification.
abbrev pub is_open : {F : Type 0} → GraphIndex F → ContributionRecord F → Bool
is_open ix r =
    is_work r.record_type && not (any (λ x. contains r.id x.parents) (OrdMap.values ix.records))

-- In an index that was built from records, the view of the leaves holds, in the order of the ids, the
-- records that are no verification and that no record of the index, be it a verification, names as a
-- parent.
pub view-leaves :
    {F : Type 0} (is_finite : F → Bool) (partial_cmp : F → F → Option Ordering)
    (rs : List (ContributionRecord F))
    → view is_finite partial_cmp leaves (from_records rs)
      ≡ select (is_open (from_records rs)) (OrdMap.values (from_records rs).records)
unfolding view
view-leaves is_finite partial_cmp rs =
    let ix = from_records rs in
    let w = from_records-IsIndexed rs in
    select-same (is_leaf ix) (is_open ix) (OrdMap.values ix.records)
      (λ r. ap₂ (λ a b. a && not b) (is_work-type_eq r.record_type) (w.occupied r.id))
