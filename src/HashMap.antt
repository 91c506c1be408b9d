-- ===== src/HashMap.antt =====
-- `HashMap<K, V>` and `HashSet<K>` of the standard library: entries in the order in which their keys
-- came. The program reads no order from them that it does not sort away.
pub mod Distinct
use zerochain.Prelude.{
  ◌≡◌, refl, Option, none, some, List, [], ◌∷◌, ◌++◌, arith, Bool, true, false, if◌then◌else◌, Eq,
  ◌==◌, ==_iff, ◌||◌, ◌≢◌, ◌⊎◌, inl, inr, Bool-cases,
}

abbrev pub HashMap {ℓ κ} : Type ℓ → Type κ → Type (ℓ ⊔ κ)
HashMap K V = List (K × V)

module _ {ℓ κ} {K : Type ℓ} {V : Type κ} ⦃e : Eq K⦄ where
  abbrev pub get : K → HashMap K V → Option V
  get k [] = none
  get k ((j, v) ∷ m) = let rest = get k m in if j == k then some v else rest

  abbrev pub contains_key : K → HashMap K V → Bool
  contains_key k m = elim (get k m) [ none ↦ false | some v ↦ true ]

  abbrev pub insert : K → V → HashMap K V → HashMap K V
  insert k v [] = (k, v) ∷ []
  insert k v ((j, w) ∷ m) = let rest = insert k v m in if j == k then (j, v) ∷ m else (j, w) ∷ rest

  pub get-insert :
      (j k : K) (v : V) (m : HashMap K V)
      → get j (insert k v m) ≡ (if k == j then some v else get j m)
  get-insert j k v [] = refl
  get-insert j k v ((i, w) ∷ m) =
      ground (arith, get-insert j k v m, ==_iff i k, ==_iff i j, ==_iff k j)

module _ {ℓ} {K : Type ℓ} ⦃e : Eq K⦄ where
  -- `contains`, of a set and of a slice
  abbrev pub contains : K → List K → Bool
  contains k [] = false
  contains k (j ∷ s) = j == k || contains k s

  -- `HashSet::remove`
  abbrev pub remove : K → List K → List K
  remove k [] = []
  remove k (j ∷ s) = let rest = remove k s in if j == k then rest else j ∷ rest

  pub contains-append :
      (k : K) (xs ys : List K) → contains k (xs ++ ys) ≡ contains k xs || contains k ys
  contains-append k [] ys = refl
  contains-append k (x ∷ xs) ys = ground (arith, contains-append k xs ys)

  pub remove-absent : (k : K) (s : List K) → contains k s ≡ false → remove k s ≡ s
  remove-absent k [] h = refl
  remove-absent k (j ∷ s) h = ground (arith, remove-absent k s)

module _ {ℓ κ} {K : Type ℓ} {V : Type κ} ⦃e : Eq K⦄ where
  -- An entry after an insertion is the new one or an old one.
  pub get-insert_cases :
      (j k : K) (v x : V) (m : HashMap K V)
      → get j (insert k v m) ≡ some x
      → (k ≡ j) × (x ≡ v) ⊎ (k ≢ j) × (get j m ≡ some x)
  get-insert_cases j k v x m h = elim (Bool-cases (k == j)) [
    | inl same ↦ inl ((==_iff k j).0 same, ground (arith, get-insert j k v m))
    | inr other ↦ inr (λ p. ground (arith, ==_iff k j), ground (arith, get-insert j k v m))
  ]
