-- ===== src/Engine/Snapshots/Kept.antt =====
-- crates/zerochain-engine/src/state.rs: the snapshots that are kept are the newest, and the one that is
-- restored is the newest that has the stage's name in front.
use mathlib.Core.List.{Perm}
use zerochain.Prelude.{
  ℕ, ◌-◌, ◌≤◌, ◌<◌, ◌≡◌, ◌≢◌, refl, sym, ap, ◌∙◌, subst, Bool, true, false, some, List, [], ◌∷◌,
  ◌++◌, leb, Text, Ordering, sort_by, insert_by, length, drop, select, All, take-append-drop,
  length-drop, arith, Bool-cases, inl, inr, some-inj, flip, text_cmp, text_cmp-flip, ◌^◌,
}
use zerochain.Prelude.SortLaws.{
  IsSortedBy, sort_by-IsSortedBy, take-below_drop, length-sort_by, All-sort_by, sort_by-perm_self,
  All-of_sort_by,
}
use zerochain.Text.{contains_byte}
use zerochain.Text.Decimal.{decimal}
use zerochain.Text.Search.{starts_with, starts_with-append, append_assoc}
use zerochain.Engine.Snapshots.{
  compare_names, old_snapshots, max_snapshots_per_workflow, last, find_latest_snapshot, snap_name,
  snapshot_chrono_key, compare_keys,
}
use zerochain.Engine.Snapshots.Names.{names-flip, names_preorder, snapshot_chrono_key-snap_name}

sorted-IsSortedBy : (names : List Text) → IsSortedBy compare_names (sort_by compare_names names)
sorted-IsSortedBy = sort_by-IsSortedBy compare_names names-flip names_preorder

-- What stays of the names in the directory.
abbrev pub kept_snapshots : List Text → List Text
kept_snapshots names =
    drop (length names - max_snapshots_per_workflow) (sort_by compare_names names)

removed-append-kept :
    (names : List Text) → old_snapshots names ++ kept_snapshots names ≡ sort_by compare_names names
unfolding old_snapshots
removed-append-kept names =
    let sorted = sort_by compare_names names in
    let n = length names - max_snapshots_per_workflow in
    elim (Bool-cases (leb (length names) max_snapshots_per_workflow)) [
      | inl e ↦ let few : n ≡ 0 = ground (arith, e) in rw e (ap (λ m. drop m sorted) few)
      | inr e ↦ rw e (take-append-drop n sorted)
    ]

-- The removed snapshots and the kept ones are together those of the directory, at most ten are kept
-- and ten if there were as many, and no removed one is newer than a kept one.
pub old_snapshots-AreOld :
    (names : List Text)
    → Perm (old_snapshots names ++ kept_snapshots names) names
      × (length (kept_snapshots names) ≤ max_snapshots_per_workflow)
      × (max_snapshots_per_workflow ≤ length names
          → length (kept_snapshots names) ≡ max_snapshots_per_workflow)
      × All
          (λ old. All (λ new. compare_names old new ≢ Ordering.gt) (kept_snapshots names))
          (old_snapshots names)
unfolding old_snapshots
old_snapshots-AreOld names =
    let sorted = sort_by compare_names names in
    let n = length names - max_snapshots_per_workflow in
    let size = length-sort_by compare_names names in
    let rest = length-drop n sorted in
    let split =
      subst (λ l. Perm l names) (sym (removed-append-kept names))
        (sort_by-perm_self compare_names names) in
    let old = take-below_drop compare_names n sorted (sorted-IsSortedBy names) in
    elim (Bool-cases (leb (length names) max_snapshots_per_workflow)) [
      | inl e ↦
          (split, ground (arith, size, rest, e), (λ h. ground (arith, size, rest, e)), rw e tt)
      | inr e ↦
          (split, ground (arith, size, rest, e), (λ h. ground (arith, size, rest, e)), rw e old)
    ]

gt-ne-lt : Ordering.gt ≢ Ordering.lt
gt-ne-lt e = cc

not_above_self : (x : Text) → compare_names x x ≢ Ordering.gt
not_above_self x g = gt-ne-lt (sym g ∙ names-flip x x ∙ ap flip g)

All-last : (P : Text → Type 0) (xs : List Text) (x : Text) → All P xs → last xs ≡ some x → P x
All-last P [] x h e = absurd cc
All-last P (y ∷ []) x h e = subst P (some-inj e) h.0
All-last P (y ∷ z ∷ xs) x h e = All-last P (z ∷ xs) x h.1 e

last-above :
    (xs : List Text)
    → IsSortedBy compare_names xs
    → (newest : Text) → last xs ≡ some newest
    → All (λ n. compare_names n newest ≢ Ordering.gt) xs
last-above [] h newest e = tt
last-above (x ∷ []) h newest e =
    (subst (λ n. compare_names x n ≢ Ordering.gt) (some-inj e) (not_above_self x), tt)
last-above (x ∷ y ∷ xs) h newest e =
    let ih = last-above (y ∷ xs) h.1 newest e in
    (All-last (λ n. compare_names x n ≢ Ordering.gt) (y ∷ xs) newest h.0 e, ih)

All-select : (p : Text → Bool) (xs : List Text) → All (λ x. p x ≡ true) (select p xs)
All-select p [] = tt
All-select p (x ∷ xs) = elim (Bool-cases (p x)) [
  | inl e ↦ rw (e, select) (e, All-select p xs)
  | inr e ↦ rw (e, select) (All-select p xs)
]

true-ne-false : true ≢ false
true-ne-false e = cc

All-of_select :
    (p : Text → Bool) (P : Text → Type 0) (xs : List Text)
    → All P (select p xs)
    → All (λ x. p x ≡ true → P x) xs
All-of_select p P [] h = tt
All-of_select p P (x ∷ xs) h = elim (Bool-cases (p x)) [
  | inl e ↦ let k = rw (e, select) at h in ((λ q. k.0), All-of_select p P xs k.1)
  | inr e ↦ ((λ q. absurd (true-ne-false (sym q ∙ e))), All-of_select p P xs (rw (e, select) at h))
]

-- The snapshot that is restored has the stage's name and a dot in front, and no snapshot in the
-- directory that has is newer.
pub find_latest_snapshot-IsNewest :
    (stage_id newest : Text) (names : List Text)
    → find_latest_snapshot stage_id names ≡ some newest
    → (starts_with (stage_id ++ b'.' ∷ []) newest ≡ true)
      × All
          (λ n. starts_with (stage_id ++ b'.' ∷ []) n ≡ true → compare_names n newest ≢ Ordering.gt)
          names
unfolding find_latest_snapshot
find_latest_snapshot-IsNewest stage_id newest names h =
    let test = starts_with (stage_id ++ b'.' ∷ []) in
    let found = select test names in
    let sorted = sort_by compare_names found in
    let newer = last-above sorted (sorted-IsSortedBy found) newest h in
    (
      All-last (λ n. test n ≡ true) sorted newest
          (All-sort_by compare_names (λ n. test n ≡ true) found (All-select test names)) h,
      All-of_select test (λ n. compare_names n newest ≢ Ordering.gt) names
          (All-of_sort_by compare_names (λ n. compare_names n newest ≢ Ordering.gt) found newer),
    )

last-later :
    (test : Text → Bool) (x y : Text)
    → test x ≡ true
    → test y ≡ true
    → compare_names y x ≡ Ordering.gt
    → last (sort_by compare_names (select test (x ∷ y ∷ []))) ≡ some y
last-later test x y a b later =
    let both : select test (x ∷ y ∷ []) ≡ x ∷ y ∷ [] = ground (arith, a, b) in
    let sorted : sort_by compare_names (x ∷ y ∷ []) ≡ x ∷ y ∷ [] =
      rw (later, sort_by, insert_by) refl in
    ap (λ l. last (sort_by compare_names l)) both ∙ ap last sorted

-- Where a second stage is named like the first with a dot and more behind it, and its snapshot is the
-- later one, it is the second stage's snapshot that is found for the first stage. The times have no
-- dot, and the nonces fit 32 bits.
pub find_latest_snapshot-other :
    (stage suffix t₁ t₂ : Text) (n₁ n₂ : ℕ)
    → contains_byte b'.' t₁ ≡ false
    → contains_byte b'.' t₂ ≡ false
    → n₁ < 2 ^ 32
    → n₂ < 2 ^ 32
    → text_cmp t₁ t₂ ≡ Ordering.lt
    → find_latest_snapshot stage
        (snap_name stage t₁ n₁ ∷ snap_name (stage ++ b'.' ∷ suffix) t₂ n₂ ∷ [])
      ≡ some (snap_name (stage ++ b'.' ∷ suffix) t₂ n₂)
unfolding find_latest_snapshot compare_names snap_name
find_latest_snapshot-other stage suffix t₁ t₂ n₁ n₂ d₁ d₂ f₁ f₂ later =
    let own = snapshot_chrono_key-snap_name stage t₁ n₁ d₁ f₁ in
    let others = snapshot_chrono_key-snap_name (stage ++ b'.' ∷ suffix) t₂ n₂ d₂ f₂ in
    let first : starts_with (stage ++ b'.' ∷ []) (snap_name stage t₁ n₁) ≡ true =
      subst (λ t. starts_with (stage ++ b'.' ∷ []) t ≡ true)
        (append_assoc stage (b'.' ∷ []) (t₁ ++ b'.' ∷ decimal n₁))
        (starts_with-append (stage ++ b'.' ∷ []) (t₁ ++ b'.' ∷ decimal n₁)) in
    let second : starts_with (stage ++ b'.' ∷ []) (snap_name (stage ++ b'.' ∷ suffix) t₂ n₂)
        ≡ true =
      subst (λ t. starts_with (stage ++ b'.' ∷ []) t ≡ true)
        (append_assoc stage (b'.' ∷ []) (suffix ++ b'.' ∷ (t₂ ++ b'.' ∷ decimal n₂))
          ∙ sym (append_assoc stage (b'.' ∷ suffix) (b'.' ∷ (t₂ ++ b'.' ∷ decimal n₂))))
        (starts_with-append (stage ++ b'.' ∷ []) (suffix ++ b'.' ∷ (t₂ ++ b'.' ∷ decimal n₂))) in
    let order : compare_names (snap_name (stage ++ b'.' ∷ suffix) t₂ n₂) (snap_name stage t₁ n₁)
        ≡ Ordering.gt =
      ap (λ k. compare_keys k (snapshot_chrono_key (snap_name stage t₁ n₁))) others
      ∙ ap (λ k. compare_keys (t₂, n₂) k) own
      ∙ ground (arith, text_cmp-flip t₁ t₂, later) in
    last-later (starts_with (stage ++ b'.' ∷ [])) (snap_name stage t₁ n₁)
      (snap_name (stage ++ b'.' ∷ suffix) t₂ n₂) first second order
