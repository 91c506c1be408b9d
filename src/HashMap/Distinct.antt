-- ===== src/HashMap/Distinct.antt =====
-- The invariant of a `HashMap`: its keys differ.
use zerochain.Prelude.{
  ◌≡◌, refl, none, some, [], ◌∷◌, arith, All, Eq, ◌==◌, ==_iff, Bool-cases, inl, inr,
}
use zerochain.HashMap.{HashMap, get, insert, get-insert}

module _ {ℓ κ} {K : Type ℓ} {V : Type κ} ⦃e : Eq K⦄ where
  abbrev pub IsDistinct : HashMap K V → Type κ
  IsDistinct [] = Unit
  IsDistinct ((j, v) ∷ m) = (get j m ≡ none) × IsDistinct m

  pub insert-IsDistinct :
      (k : K) (v : V) (m : HashMap K V) → IsDistinct m → IsDistinct (insert k v m)
  insert-IsDistinct k v [] d = (refl, tt)
  insert-IsDistinct k v ((j, w) ∷ m) d = elim (Bool-cases (j == k)) [
    | inl same ↦ rw same d
    | inr other ↦ rw other (
      ground (arith, get-insert j k v m, d.0, ==_iff j k, ==_iff k j),
      insert-IsDistinct k v m d.1,
    )
  ]

  under_entry :
      (j : K) (v : V) (m xs : HashMap K V)
      → get j xs ≡ none
      → All (λ x. get x.0 m ≡ some x.1) xs
      → All (λ x. get x.0 ((j, v) ∷ m) ≡ some x.1) xs
  under_entry j v m [] h a = tt
  under_entry j v m ((i, w) ∷ xs) h a =
      (ground (arith, a.0, h, ==_iff i j, ==_iff j i), under_entry j v m xs (ground (arith, h)) a.1)

  -- Every entry is found under its key.
  pub entries-get : (m : HashMap K V) → IsDistinct m → All (λ x. get x.0 m ≡ some x.1) m
  entries-get [] d = tt
  entries-get ((j, v) ∷ m) d =
      (ground (arith, ==_iff j j), under_entry j v m m d.0 (entries-get m d.1))
