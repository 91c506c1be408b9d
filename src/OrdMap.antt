-- ===== src/OrdMap.antt =====
-- `BTreeMap<K, V>` of the standard library: the entries in ascending order of their keys.
pub mod Sorted
use mathlib.Core.Option
use zerochain.Prelude.{
  ℕ, suc, ◌≡◌, refl, Option, none, some, List, [], ◌∷◌, map, arith, Ordering, Ord, Bool, true,
  false, All, Ordering-cases, ap, inl, inr, flip, sym, ◌∙◌, ◌≢◌, ◌⊎◌, Option-cases,
}

abbrev pub OrdMap {ℓ κ} : Type ℓ → Type κ → Type (ℓ ⊔ κ)
OrdMap K V = List (K × V)

module _ {ℓ κ} {K : Type ℓ} {V : Type κ} where
  abbrev pub keys : OrdMap K V → List K
  keys m = map (λ e. e.0) m

  abbrev pub values : OrdMap K V → List V
  values m = map (λ e. e.1) m

module _ {ℓ κ} {K : Type ℓ} {V : Type κ} ⦃o : Ord K⦄ where
  abbrev pub get : K → OrdMap K V → Option V
  get k [] = none
  get k ((j, v) ∷ m) = let rest = get k m in elim (o.cmp k j) [ Ordering.eq ↦ some v | _ ↦ rest ]

  abbrev pub contains_key : K → OrdMap K V → Bool
  contains_key k m = elim (get k m) [ none ↦ false | some v ↦ true ]

  abbrev pub insert : K → V → OrdMap K V → OrdMap K V
  insert k v [] = (k, v) ∷ []
  insert k v ((j, w) ∷ m) =
      let rest = insert k v m in
      elim (o.cmp k j) [
        | Ordering.lt ↦ (k, v) ∷ (j, w) ∷ m
        | Ordering.eq ↦ (k, v) ∷ m
        | Ordering.gt ↦ (j, w) ∷ rest
      ]

  -- A lookup after an insertion, whatever the keys.
  pub get-insert :
      (j k : K) (v : V) (m : OrdMap K V)
      → get j (insert k v m) ≡ elim (o.cmp j k) [ Ordering.eq ↦ some v | _ ↦ get j m ]
  get-insert j k v [] = refl
  get-insert j k v ((i, w) ∷ m) =
      ground (arith, get-insert j k v m, o.cmp_eq k i, o.cmp_eq j i, o.cmp_eq j k)

  -- A change through `get_mut`; a missing key changes nothing.
  abbrev pub update : K → (V → V) → OrdMap K V → OrdMap K V
  update k f [] = []
  update k f ((j, w) ∷ m) =
      let rest = update k f m in elim (o.cmp k j) [ Ordering.eq ↦ (j, f w) ∷ m | _ ↦ (j, w) ∷ rest ]

  pub get-update :
      (j k : K) (f : V → V) (m : OrdMap K V)
      → get j (update k f m)
        ≡ elim (o.cmp j k) [ Ordering.eq ↦ Option.map f (get j m) | _ ↦ get j m ]
  get-update j k f [] = ground arith
  get-update j k f ((i, w) ∷ m) =
      ground (arith, get-update j k f m, o.cmp_eq k i, o.cmp_eq j i, o.cmp_eq j k)

  pub keys-update : (k : K) (f : V → V) (m : OrdMap K V) → keys (update k f m) ≡ keys m
  keys-update k f [] = refl
  keys-update k f ((i, w) ∷ m) = ground (arith, keys-update k f m)

  pub get-insert_self : (k : K) (v : V) (m : OrdMap K V) → get k (insert k v m) ≡ some v
  get-insert_self k v m = ground (arith, get-insert k k v m, o.cmp_eq k k)

  pub get-insert_ne : (j k : K) (v : V) (m : OrdMap K V) → j ≢ k → get j (insert k v m) ≡ get j m
  get-insert_ne j k v m h = ground (arith, get-insert j k v m, o.cmp_eq j k)

  -- An entry after an insertion is the new one or an old one.
  pub get-insert_cases :
      (j k : K) (v x : V) (m : OrdMap K V)
      → get j (insert k v m) ≡ some x
      → (j ≡ k) × (x ≡ v) ⊎ (j ≢ k) × (get j m ≡ some x)
  get-insert_cases j k v x m h = elim (Ordering-cases (o.cmp j k)) [
    | inl lt ↦ inr (λ e. ground (arith, o.cmp_eq j k), ground (arith, get-insert j k v m))
    | inr (inl e) ↦ inl ((o.cmp_eq j k).0 e, ground (arith, get-insert j k v m))
    | inr (inr gt) ↦ inr (λ e. ground (arith, o.cmp_eq j k), ground (arith, get-insert j k v m))
  ]

  pub get-update_cases :
      (j k : K) (f : V → V) (x : V) (m : OrdMap K V)
      → get j (update k f m) ≡ some x
      → (y : V) × (get j m ≡ some y) × ((j ≡ k) × (x ≡ f y) ⊎ (j ≢ k) × (x ≡ y))
  get-update_cases j k f x m h = elim (Option-cases (get j m)) [
    | inl e ↦ absurd (ground (arith, get-update j k f m))
    | inr (y, e) ↦ elim (Ordering-cases (o.cmp j k)) [
      | inl lt ↦ (y, e, inr (λ p. ground (arith, o.cmp_eq j k), ground (arith, get-update j k f m)))
      | inr (inl eq) ↦ (y, e, inl ((o.cmp_eq j k).0 eq, ground (arith, get-update j k f m)))
      | inr (inr gt) ↦
          (y, e, inr (λ p. ground (arith, o.cmp_eq j k), ground (arith, get-update j k f m)))
    ]
  ]
