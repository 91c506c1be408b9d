-- ===== src/Memory/Index/Effective.antt =====
-- What the list of the effective verdicts says, and that it leaves no actor out.
use zerochain.Prelude.{
  ℕ, ◌≡◌, refl, ◌∙◌, Bool, true, ◌||◌, some, List, [], ◌∷◌, Text, text_ord, text_eq,
  text_eq_instance, any, All, insert_by, sort_by, arith, Ordering-cases, Bool-cases, Option-cases,
  inl, inr, leb,
}
use zerochain.OrdMap
use zerochain.HashMap
use zerochain.HashMap.{HashMap}
use zerochain.HashMap.Distinct.{IsDistinct, insert-IsDistinct, entries-get}
use zerochain.Memory.Record.{ContributionRecord, Verdict}
use zerochain.Memory.Index.{
  GraphIndex, effective_verdicts, counts_for, count_verdict, count_verdicts, verdict_or_failed,
  without_times, compare_actors,
}
use zerochain.Memory.Index.Verdicts.{Newest, Counted, Verifies, count_verdict-Counted}

All-insert_by :
    (P : Text × Verdict → Type 0) (x : Text × Verdict) (ys : List (Text × Verdict))
    → P x
    → All P ys
    → All P (insert_by compare_actors x ys)
All-insert_by P x [] h a = (h, tt)
All-insert_by P x (y ∷ ys) h a = elim (Ordering-cases (compare_actors y x)) [
  | inl e ↦ rw (e, insert_by) (a.0, All-insert_by P x ys h a.1)
  | inr (inl e) ↦ rw (e, insert_by) (h, a)
  | inr (inr e) ↦ rw (e, insert_by) (h, a)
]

All-sort_by :
    (P : Text × Verdict → Type 0) (xs : List (Text × Verdict))
    → All P xs
    → All P (sort_by compare_actors xs)
All-sort_by P [] a = tt
All-sort_by P (x ∷ xs) a = All-insert_by P x (sort_by compare_actors xs) a.0 (All-sort_by P xs a.1)

any-insert_by :
    (p : Text × Verdict → Bool) (x : Text × Verdict) (ys : List (Text × Verdict))
    → any p (insert_by compare_actors x ys) ≡ (p x || any p ys)
any-insert_by p x [] = refl
any-insert_by p x (y ∷ ys) = ground (arith, any-insert_by p x ys)

any-sort_by :
    (p : Text × Verdict → Bool) (xs : List (Text × Verdict))
    → any p (sort_by compare_actors xs) ≡ any p xs
any-sort_by p [] = refl
any-sort_by p (x ∷ xs) =
    ground (arith, any-insert_by p x (sort_by compare_actors xs), any-sort_by p xs)

-- The actor is in the list.
abbrev pub names : Text → List (Text × Verdict) → Bool
names a list = any (λ e. text_eq e.0 a) list

names-without_times :
    (a : Text) (m : HashMap Text (ℕ × Verdict))
    → names a (without_times m) ≡ HashMap.contains_key a m
names-without_times a [] = refl
names-without_times a ((j, h) ∷ m) = ground (arith, names-without_times a m)

module _ {F : Type 0} where
  abbrev seen_after :
      List (ContributionRecord F) → List (ContributionRecord F) → List (ContributionRecord F)
  seen_after [] seen = seen
  seen_after (r ∷ rs) seen = seen_after rs (r ∷ seen)

  All-seen_after :
      (P : ContributionRecord F → Type 0) (rs seen : List (ContributionRecord F))
      → All P (seen_after rs seen)
      → All P seen × All P rs
  All-seen_after P [] seen a = (a, tt)
  All-seen_after P (r ∷ rs) seen a =
      let (before, rest) = All-seen_after P rs (r ∷ seen) a in (before.1, (before.0, rest))

  any-seen_after :
      (p : ContributionRecord F → Bool) (rs seen : List (ContributionRecord F))
      → any p (seen_after rs seen) ≡ (any p seen || any p rs)
  any-seen_after p [] seen = ground arith
  any-seen_after p (r ∷ rs) seen = ground (arith, any-seen_after p rs (r ∷ seen))

  count_verdicts-Counted :
      (t : Text) (rs seen : List (ContributionRecord F)) (m : HashMap Text (ℕ × Verdict))
      → Counted t seen m
      → Counted t (seen_after rs seen) (count_verdicts t rs m)
  count_verdicts-Counted t [] seen m h = h
  count_verdicts-Counted t (r ∷ rs) seen m h =
      count_verdicts-Counted t rs (r ∷ seen) (count_verdict t r m)
        (count_verdict-Counted t r seen m h)

  count_verdict-IsDistinct :
      (t : Text) (r : ContributionRecord F) (m : HashMap Text (ℕ × Verdict))
      → IsDistinct m
      → IsDistinct (count_verdict t r m)
  unfolding count_verdict
  count_verdict-IsDistinct t r m d =
      let more = insert-IsDistinct r.actor (r.created, verdict_or_failed r.verdict) m d in
      elim (Bool-cases (counts_for t r)) [
        | inr e ↦ rw (e, count_verdict) d
        | inl e ↦ elim (Option-cases (HashMap.get r.actor m)) [
          | inl f ↦ rw (e, f, count_verdict) more
          | inr (held, f) ↦ elim (Bool-cases (leb r.created held.0)) [
            | inl g ↦ rw (e, f, g, count_verdict) d
            | inr g ↦ rw (e, f, g, count_verdict) more
          ]
        ]
      ]

  count_verdicts-IsDistinct :
      (t : Text) (rs : List (ContributionRecord F)) (m : HashMap Text (ℕ × Verdict))
      → IsDistinct m
      → IsDistinct (count_verdicts t rs m)
  count_verdicts-IsDistinct t [] m d = d
  count_verdicts-IsDistinct t (r ∷ rs) m d =
      count_verdicts-IsDistinct t rs (count_verdict t r m) (count_verdict-IsDistinct t r m d)

  -- A listed verdict is the newest of its actor among the records.
  abbrev pub IsEffective : Text → List (ContributionRecord F) → Text × Verdict → Type 0
  IsEffective t rs e = (c : ℕ) × Newest t rs e.0 c e.1

  entries-IsEffective :
      (t : Text) (rs : List (ContributionRecord F)) (m xs : HashMap Text (ℕ × Verdict))
      → Counted t (seen_after rs []) m
      → All (λ e. HashMap.get e.0 m ≡ some e.1) xs
      → All (IsEffective t rs) (without_times xs)
  entries-IsEffective t rs m [] h a = tt
  entries-IsEffective t rs m ((k, v) ∷ xs) h a =
      let n = h.newest k v.0 v.1 a.0 in
      (
        (
          v.0,
          record {
            by = n.by;
            among = λ p h'. ground (arith, n.among p h', any-seen_after p rs []);
            counts = n.counts;
            of_actor = n.of_actor;
            at_time = n.at_time;
            says = n.says;
            youngest = (All-seen_after _ rs [] n.youngest).1;
          },
        ),
        entries-IsEffective t rs m xs h a.1,
      )

  listed_in :
      (t : Text) (m : HashMap Text (ℕ × Verdict)) (rs : List (ContributionRecord F))
      → All (λ x. Verifies t x → HashMap.contains_key x.actor m ≡ true) rs
      → All (λ x. Verifies t x → names x.actor (sort_by compare_actors (without_times m)) ≡ true) rs
  listed_in t m [] h = tt
  listed_in t m (x ∷ rs) h = (
    (λ p.
        any-sort_by (λ e. text_eq e.0 x.actor) (without_times m)
        ∙ names-without_times x.actor m
        ∙ h.0 p),
    listed_in t m rs h.1,
  )

  -- Each listed verdict on a target is that of a verification of the target by the named actor in the
  -- index, and no verification of the target by that actor is younger; every named actor that verified
  -- it is listed. A verification without a verdict counts as one that failed.
  pub effective_verdicts-IsEffective :
      (t : Text) (ix : GraphIndex F)
      → All (IsEffective t (OrdMap.values ix.records)) (effective_verdicts t ix)
        × All
            (λ x. Verifies t x → names x.actor (effective_verdicts t ix) ≡ true)
            (OrdMap.values ix.records)
  unfolding effective_verdicts
  effective_verdicts-IsEffective t ix =
      let rs = OrdMap.values ix.records in
      let m = count_verdicts t rs [] in
      let nothing : Counted t [] [] = record { newest = λ a c v g. absurd cc; listed = tt } in
      let counted = count_verdicts-Counted t rs [] [] nothing in
      let distinct = count_verdicts-IsDistinct t rs [] tt in
      (
        All-sort_by (IsEffective t rs) (without_times m)
            (entries-IsEffective t rs m m counted (entries-get m distinct)),
        listed_in t m rs (All-seen_after _ rs [] counted.listed).1,
      )
