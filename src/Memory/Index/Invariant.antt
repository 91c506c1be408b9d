-- ===== src/Memory/Index/Invariant.antt =====
-- What the index keeps: the table of children says exactly which records name which parents.
use zerochain.Prelude.{
  ◌≡◌, refl, sym, Bool, false, ◌&&◌, ◌||◌, some, List, [], ◌∷◌, ◌++◌, Text, text_eq, text_eq_iff,
  text_ord, text_eq_instance, any, arith, Bool-cases, inl, inr, or_default, Ord,
}
use zerochain.OrdMap
use zerochain.OrdMap.{OrdMap}
use zerochain.OrdMap.Sorted.{IsSorted, insert-IsSorted}
use zerochain.HashMap
use zerochain.HashMap.{HashMap, contains, contains-append}
use zerochain.Memory.Record.{ContributionRecord}
use zerochain.Memory.Index.{GraphIndex, empty, add, add_all, from_records, push_children}

abbrev pub children_of : {F : Type 0} → Text → GraphIndex F → List Text
children_of p ix = or_default (HashMap.get p ix.children)

-- The children of `p` are the ids of the records that name `p` as a parent, and only such a `p` has an
-- entry. The records are in the order of their ids, each under its own id.
pub record IsIndexed {F : Type 0} (ix : GraphIndex F) : Type 0 where
  pub linked :
      (p c : Text)
      → contains c (children_of p ix)
        ≡ any (λ r. text_eq r.id c && contains p r.parents) (OrdMap.values ix.records)
  pub occupied :
      (p : Text)
      → HashMap.contains_key p ix.children
        ≡ any (λ r. contains p r.parents) (OrdMap.values ix.records)
  pub sorted : IsSorted ix.records
  pub own_id : (i : Text) (r : ContributionRecord F) → OrdMap.get i ix.records ≡ some r → r.id ≡ i

contains-push_children :
    (p c : Text) (ps : List Text) (id : Text) (m : HashMap Text (List Text))
    → contains c (or_default (HashMap.get p (push_children ps id m)))
      ≡ (contains c (or_default (HashMap.get p m)) || (text_eq id c && contains p ps))
contains-push_children p c [] id m = ground arith
contains-push_children p c (q ∷ ps) id m =
    let old = or_default (HashMap.get q m) in
    ground (
      arith,
      contains-push_children p c ps id (HashMap.insert q (old ++ id ∷ []) m),
      HashMap.get-insert p q (old ++ id ∷ []) m,
      contains-append c old (id ∷ []),
      text_eq_iff q p,
    )

contains_key-push_children :
    (p : Text) (ps : List Text) (id : Text) (m : HashMap Text (List Text))
    → HashMap.contains_key p (push_children ps id m) ≡ (HashMap.contains_key p m || contains p ps)
contains_key-push_children p [] id m = ground arith
contains_key-push_children p (q ∷ ps) id m =
    let old = or_default (HashMap.get q m) in
    ground (
      arith,
      contains_key-push_children p ps id (HashMap.insert q (old ++ id ∷ []) m),
      HashMap.get-insert p q (old ++ id ∷ []) m,
    )

-- A new entry is one more for a search among the values.
pub any-insert {ℓ κ} :
    {K : Type ℓ} {V : Type κ} ⦃o : Ord K⦄ (p : V → Bool) (k : K) (v : V) (m : OrdMap K V)
    → OrdMap.contains_key k m ≡ false
    → any p (OrdMap.values (OrdMap.insert k v m)) ≡ (any p (OrdMap.values m) || p v)
any-insert p k v [] h = ground arith
any-insert ⦃o⦄ p k v ((j, w) ∷ m) h = ground (arith, any-insert p k v m)

module _ {F : Type 0} where
  pub empty-IsIndexed : IsIndexed (empty {F = F})
  empty-IsIndexed = record {
    linked = λ p c. refl;
    occupied = λ p. refl;
    sorted = tt;
    own_id = λ i r h. absurd cc;
  }

  -- Adding a record, new or known, to a consistent index gives a consistent index.
  pub add-IsIndexed :
      (r : ContributionRecord F) (ix : GraphIndex F) → IsIndexed ix → IsIndexed (add r ix)
  unfolding add
  add-IsIndexed r ix w = elim (Bool-cases (OrdMap.contains_key r.id ix.records)) [
    | inl known ↦ rw known w
    | inr new ↦ rw new (record {
      linked = λ p c. ground (
        arith,
        contains-push_children p c r.parents r.id ix.children,
        w.linked p c,
        any-insert (λ x. text_eq x.id c && contains p x.parents) r.id r ix.records new,
      );
      occupied = λ p. ground (
        arith,
        contains_key-push_children p r.parents r.id ix.children,
        w.occupied p,
        any-insert (λ x. contains p x.parents) r.id r ix.records new,
      );
      sorted = insert-IsSorted r.id r ix.records w.sorted;
      own_id = λ i x h. elim (OrdMap.get-insert_cases i r.id r x ix.records h) [
        | inl (e, f) ↦ rw f (sym e)
        | inr (other, old) ↦ w.own_id i x old
      ];
    })
  ]

  add_all-IsIndexed :
      (rs : List (ContributionRecord F)) (ix : GraphIndex F)
      → IsIndexed ix
      → IsIndexed (add_all rs ix)
  add_all-IsIndexed [] ix w = w
  add_all-IsIndexed (r ∷ rs) ix w = add_all-IsIndexed rs (add r ix) (add-IsIndexed r ix w)

  -- The index that is built from any records is consistent.
  pub from_records-IsIndexed : (rs : List (ContributionRecord F)) → IsIndexed (from_records rs)
  unfolding from_records
  from_records-IsIndexed rs = add_all-IsIndexed rs empty empty-IsIndexed
