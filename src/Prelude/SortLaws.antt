-- ===== src/Prelude/SortLaws.antt =====
-- `sort_by` permutes, and sorts by a comparison that is a total preorder.
use Prim.Native.Nat.{ℕ, zero, suc, Ordering}
use mathlib.Core.Path.{refl, subst, sym, ◌≡◌, ap, ◌∙◌}
use mathlib.Core.Logic.{◌≢◌, inl, inr}
use mathlib.Core.List.{List, [], ◌∷◌, Perm, map}
use mathlib.Core.List.Perm
use zerochain.Prelude.Tests.{Ordering-cases}
use zerochain.Prelude.Lists.{All, take, drop, length}
use zerochain.Prelude.Sort.{insert_by, sort_by}
use zerochain.Prelude.Classes.{flip}

lt-ne-gt : Ordering.lt ≢ Ordering.gt
lt-ne-gt e = cc

-- A strict order that tells equal elements apart from others is a preorder.
pub preorder-of_order {ℓ} :
    {A : Type ℓ} (cmp : A → A → Ordering) (cmp_eq : (a b : A) → cmp a b ≡ Ordering.eq → a ≡ b)
    (cmp_trans : (a b c : A)
      → cmp a b ≡ Ordering.lt
      → cmp b c ≡ Ordering.lt
      → cmp a c ≡ Ordering.lt)
    (a b c : A)
    → cmp a b ≢ Ordering.gt
    → cmp b c ≢ Ordering.gt
    → cmp a c ≢ Ordering.gt
preorder-of_order cmp cmp_eq cmp_trans a b c h k g = elim (Ordering-cases (cmp a b)) [
  | inr (inr e) ↦ h e
  | inr (inl e) ↦ k (ap (λ x. cmp x c) (sym (cmp_eq a b e)) ∙ g)
  | inl e ↦ elim (Ordering-cases (cmp b c)) [
    | inr (inr f) ↦ k f
    | inr (inl f) ↦ lt-ne-gt (sym e ∙ ap (cmp a) (cmp_eq b c f) ∙ g)
    | inl f ↦ lt-ne-gt (sym (cmp_trans a b c e f) ∙ g)
  ]
]

All-drop {ℓ} : {A : Type ℓ} (P : A → Type 0) (n : ℕ) (xs : List A) → All P xs → All P (drop n xs)
All-drop P zero xs h = h
All-drop P (suc n) [] h = tt
All-drop P (suc n) (x ∷ xs) h = All-drop P n xs h.1

module _ {ℓ} {A : Type ℓ} (cmp : A → A → Ordering) where
  -- No element is above one behind it.
  abbrev pub IsSortedBy : List A → Type ℓ
  IsSortedBy [] = Unit
  IsSortedBy (x ∷ xs) = All (λ y. cmp x y ≢ Ordering.gt) xs × IsSortedBy xs

  module _ {B : Type ℓ} (f : A → B) where
    insert_by-perm : (x : A) (xs : List A) → Perm (map f (insert_by cmp x xs)) (f x ∷ map f xs)
    insert_by-perm x [] = Perm.refl (f x ∷ [])
    insert_by-perm x (y ∷ ys) = elim (Ordering-cases (cmp y x)) [
      | inl e ↦
          rw (e, insert_by)
            (Perm.trans (Perm.cons (f y) (insert_by-perm x ys)) (Perm.swap (f x) (f y) (map f ys)))
      | inr (inl e) ↦ rw (e, insert_by) (Perm.refl (f x ∷ f y ∷ map f ys))
      | inr (inr e) ↦ rw (e, insert_by) (Perm.refl (f x ∷ f y ∷ map f ys))
    ]

    -- Sorting permutes what a function reads from the elements.
    pub sort_by-perm : (xs : List A) → Perm (map f (sort_by cmp xs)) (map f xs)
    sort_by-perm [] = Perm.refl []
    sort_by-perm (x ∷ xs) =
        Perm.trans (insert_by-perm x (sort_by cmp xs)) (Perm.cons (f x) (sort_by-perm xs))

  map_same : (xs : List A) → map (λ (x : A). x) xs ≡ xs
  map_same [] = refl
  map_same (x ∷ xs) = ap (λ l. x ∷ l) (map_same xs)

  pub sort_by-perm_self : (xs : List A) → Perm (sort_by cmp xs) xs
  sort_by-perm_self xs =
      subst (λ l. Perm l xs) (map_same (sort_by cmp xs))
        (subst (λ l. Perm (map (λ (x : A). x) (sort_by cmp xs)) l) (map_same xs)
          (sort_by-perm (λ x. x) xs))

  All-insert_by :
      (P : A → Type 0) (x : A) (xs : List A) → P x → All P xs → All P (insert_by cmp x xs)
  All-insert_by P x [] p h = (p, tt)
  All-insert_by P x (y ∷ ys) p h = elim (Ordering-cases (cmp y x)) [
    | inl e ↦ rw (e, All) (h.0, All-insert_by P x ys p h.1)
    | inr (inl e) ↦ rw (e, All) (p, h)
    | inr (inr e) ↦ rw (e, All) (p, h)
  ]

  All-mono : (P Q : A → Type 0) (xs : List A) → ((y : A) → P y → Q y) → All P xs → All Q xs
  All-mono P Q [] f h = tt
  All-mono P Q (x ∷ xs) f h = (f x h.0, All-mono P Q xs f h.1)

  module _ (cmp-flip : (a b : A) → cmp b a ≡ flip (cmp a b))
      (cmp_trans : (a b c : A)
        → cmp a b ≢ Ordering.gt
        → cmp b c ≢ Ordering.gt
        → cmp a c ≢ Ordering.gt) where
    not_above : (x y : A) → cmp y x ≢ Ordering.lt → cmp x y ≢ Ordering.gt
    not_above x y h g = h (cmp-flip x y ∙ ap flip g)

    front-IsSortedBy :
        (x y : A) (ys : List A)
        → cmp y x ≢ Ordering.lt
        → IsSortedBy (y ∷ ys)
        → IsSortedBy (x ∷ y ∷ ys)
    front-IsSortedBy x y ys k h =
        let below = not_above x y k in
        (
          (
            below,
            All-mono (λ z. cmp y z ≢ Ordering.gt) (λ z. cmp x z ≢ Ordering.gt) ys
                (λ z q. cmp_trans x y z below q) h.0,
          ),
          h,
        )

    insert_by-IsSortedBy : (x : A) (xs : List A) → IsSortedBy xs → IsSortedBy (insert_by cmp x xs)
    insert_by-IsSortedBy x [] h = (tt, tt)
    insert_by-IsSortedBy x (y ∷ ys) h = elim (Ordering-cases (cmp y x)) [
      | inl e ↦
          rw (e, IsSortedBy)
            (
              All-insert_by (λ z. cmp y z ≢ Ordering.gt) x ys (λ g. absurd cc) h.0,
              insert_by-IsSortedBy x ys h.1,
            )
      | inr (inl e) ↦ rw (e, IsSortedBy) (front-IsSortedBy x y ys (λ g. absurd cc) h)
      | inr (inr e) ↦ rw (e, IsSortedBy) (front-IsSortedBy x y ys (λ g. absurd cc) h)
    ]

    pub sort_by-IsSortedBy : (xs : List A) → IsSortedBy (sort_by cmp xs)
    sort_by-IsSortedBy [] = tt
    sort_by-IsSortedBy (x ∷ xs) = insert_by-IsSortedBy x (sort_by cmp xs) (sort_by-IsSortedBy xs)

module _ {ℓ} {A : Type ℓ} (cmp : A → A → Ordering) where
  -- What stands in front in a sorted list is not above what stands behind.
  pub take-below_drop :
      (n : ℕ) (xs : List A)
      → IsSortedBy cmp xs
      → All (λ x. All (λ y. cmp x y ≢ Ordering.gt) (drop n xs)) (take n xs)
  take-below_drop zero xs h = tt
  take-below_drop (suc n) [] h = tt
  take-below_drop (suc n) (x ∷ xs) h =
      (All-drop (λ y. cmp x y ≢ Ordering.gt) n xs h.0, take-below_drop n xs h.1)

module _ {ℓ} {A : Type ℓ} (cmp : A → A → Ordering) where
  length-insert_by : (x : A) (xs : List A) → length (insert_by cmp x xs) ≡ suc (length xs)
  length-insert_by x [] = refl
  length-insert_by x (y ∷ ys) = elim (Ordering-cases (cmp y x)) [
    | inl e ↦ rw (e, insert_by) (ap suc (length-insert_by x ys))
    | inr (inl e) ↦ rw (e, insert_by) refl
    | inr (inr e) ↦ rw (e, insert_by) refl
  ]

  pub length-sort_by : (xs : List A) → length (sort_by cmp xs) ≡ length xs
  length-sort_by [] = refl
  length-sort_by (x ∷ xs) = length-insert_by x (sort_by cmp xs) ∙ ap suc (length-sort_by xs)

  pub All-sort_by : (P : A → Type 0) (xs : List A) → All P xs → All P (sort_by cmp xs)
  All-sort_by P [] h = tt
  All-sort_by P (x ∷ xs) h = All-insert_by cmp P x (sort_by cmp xs) h.0 (All-sort_by P xs h.1)

  All-of_insert_by :
      (P : A → Type 0) (x : A) (xs : List A) → All P (insert_by cmp x xs) → P x × All P xs
  All-of_insert_by P x [] h = h
  All-of_insert_by P x (y ∷ ys) h = elim (Ordering-cases (cmp y x)) [
    | inl e ↦
        let k = rw (e, insert_by) at h in let (p, q) = All-of_insert_by P x ys k.1 in (p, (k.0, q))
    | inr (inl e) ↦ rw (e, insert_by) at h
    | inr (inr e) ↦ rw (e, insert_by) at h
  ]

  -- What holds of all elements in order holds of all elements.
  pub All-of_sort_by : (P : A → Type 0) (xs : List A) → All P (sort_by cmp xs) → All P xs
  All-of_sort_by P [] h = tt
  All-of_sort_by P (x ∷ xs) h =
      let (p, q) = All-of_insert_by P x (sort_by cmp xs) h in (p, All-of_sort_by P xs q)
