-- ===== src/OrdMap/Sorted.antt =====
-- The invariant of a `BTreeMap`: its keys ascend.
use zerochain.Prelude.{
  ◌≡◌, refl, none, some, [], ◌∷◌, arith, Ordering, Ord, Ordering-cases, inl, inr, All,
}
use zerochain.OrdMap.{OrdMap, get, insert}

module _ {ℓ κ} {K : Type ℓ} {V : Type κ} ⦃o : Ord K⦄ where
  -- All keys lie above `j`.
  abbrev pub AllAbove : K → OrdMap K V → Type 0
  AllAbove j [] = Unit
  AllAbove j ((i, w) ∷ m) = (o.cmp j i ≡ Ordering.lt) × AllAbove j m

  abbrev pub IsSorted : OrdMap K V → Type 0
  IsSorted [] = Unit
  IsSorted ((j, v) ∷ m) = AllAbove j m × IsSorted m

  pub AllAbove-trans :
      (i j : K) (m : OrdMap K V) → o.cmp i j ≡ Ordering.lt → AllAbove j m → AllAbove i m
  AllAbove-trans i j [] h a = tt
  AllAbove-trans i j ((k, w) ∷ m) h a = (o.cmp_trans i j k h a.0, AllAbove-trans i j m h a.1)

  -- A key at or below all others is not there.
  pub get-AllAbove :
      (k j : K) (m : OrdMap K V) → AllAbove j m → (o.cmp k j ≡ Ordering.lt) → get k m ≡ none
  get-AllAbove k j [] a h = refl
  get-AllAbove k j ((i, w) ∷ m) a h =
      ground (arith, o.cmp_trans k j i h a.0, get-AllAbove k j m a.1 h)

  pub get-AllAbove_self : (j : K) (m : OrdMap K V) → AllAbove j m → get j m ≡ none
  get-AllAbove_self j [] a = refl
  get-AllAbove_self j ((i, w) ∷ m) a = ground (arith, a.0, get-AllAbove_self j m a.1)

  AllAbove-insert :
      (j k : K) (v : V) (m : OrdMap K V)
      → o.cmp j k ≡ Ordering.lt
      → AllAbove j m
      → AllAbove j (insert k v m)
  AllAbove-insert j k v [] h a = (h, tt)
  AllAbove-insert j k v ((i, w) ∷ m) h a = elim (Ordering-cases (o.cmp k i)) [
    | inl e ↦ ground (arith, h, a)
    | inr (inl e) ↦ ground (arith, h, a)
    | inr (inr e) ↦ ground (arith, a, AllAbove-insert j k v m h a.1)
  ]

  -- Insertion keeps the keys in order.
  pub insert-IsSorted : (k : K) (v : V) (m : OrdMap K V) → IsSorted m → IsSorted (insert k v m)
  insert-IsSorted k v [] s = (tt, tt)
  insert-IsSorted k v ((i, w) ∷ m) s = elim (Ordering-cases (o.cmp k i)) [
    | inl e ↦ ground (arith, e, AllAbove-trans k i m e s.0, s)
    | inr (inl e) ↦ ground (arith, e, (o.cmp_eq k i).0 e, s)
    | inr (inr e) ↦
        ground (arith, e, o.cmp_flip k i, AllAbove-insert i k v m, insert-IsSorted k v m s.1, s)
  ]

  lift_entries :
      (j : K) (v : V) (m xs : OrdMap K V)
      → AllAbove j xs
      → All (λ e. get e.0 m ≡ some e.1) xs
      → All (λ e. get e.0 ((j, v) ∷ m) ≡ some e.1) xs
  lift_entries j v m [] a h = tt
  lift_entries j v m ((i, w) ∷ xs) a h =
      (ground (arith, o.cmp_flip j i, a.0, h.0), lift_entries j v m xs a.1 h.1)

  -- Every entry is found under its key.
  pub entries-get : (m : OrdMap K V) → IsSorted m → All (λ e. get e.0 m ≡ some e.1) m
  entries-get [] s = tt
  entries-get ((j, v) ∷ m) s =
      (ground (arith, o.cmp_eq j j), lift_entries j v m m s.0 (entries-get m s.1))
