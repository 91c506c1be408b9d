-- ===== src/Memory/Index/Verdicts.antt =====
-- The verdicts that count for a record: of each actor the newest.
use zerochain.Prelude.{
  ℕ, Option, ◌↔◌, ◌≢◌, ◌≤◌, ◌≡◌, refl, sym, ap, ◌∙◌, Bool, true, false, none, some, List, [], ◌∷◌,
  Text, text_ord, text_eq_iff, text_eq_instance, any, All, arith, leb, Bool-cases, Option-cases,
  inl, inr, subst, some-inj,
}
use zerochain.HashMap
use zerochain.HashMap.{HashMap}
use zerochain.Memory.Record.{
  ContributionRecord, ContributionType, verification, type_eq, Verdict, failed,
}
use zerochain.Memory.Index.{is_text, is_empty_text, counts_for, count_verdict, verdict_or_failed}

-- A record without a verdict says that the target failed.
abbrev pub Says : Option Verdict → Verdict → Type 0
Says none v = v ≡ failed
Says (some u) v = v ≡ u

Says-verdict_or_failed : (o : Option Verdict) → Says o (verdict_or_failed o)
Says-verdict_or_failed none = refl
Says-verdict_or_failed (some v) = refl

type_eq_iff : (a b : ContributionType) → (type_eq a b ≡ true) ↔ (a ≡ b)
type_eq_iff a b = ground arith

is_text_iff : (t : Text) (o : Option Text) → (is_text t o ≡ true) ↔ (o ≡ some t)
is_text_iff t none = (λ e. absurd cc, λ e. absurd cc)
is_text_iff t (some u) =
    (λ e. ap some ((text_eq_iff u t).0 e), λ e. (text_eq_iff u t).1 (some-inj e))

is_empty_text_iff : (s : Text) → (is_empty_text s ≡ true) ↔ (s ≡ [])
is_empty_text_iff [] = (λ e. refl, λ e. refl)
is_empty_text_iff (c ∷ s) = (λ e. absurd cc, λ e. absurd cc)

module _ {F : Type 0} where
  -- A verification of the target by a named actor.
  abbrev pub Verifies : Text → ContributionRecord F → Type 0
  Verifies t r = (r.record_type ≡ verification) × (r.target ≡ some t) × (r.actor ≢ [])

  pub counts_for_iff :
      (t : Text) (r : ContributionRecord F) → (counts_for t r ≡ true) ↔ Verifies t r
  counts_for_iff t r = ground (
    arith,
    type_eq_iff r.record_type verification,
    is_text_iff t r.target,
    is_empty_text_iff r.actor,
  )

  -- A record of `seen` (whatever test it meets, one of `seen` meets) gives the actor's verdict on the
  -- target at that time, and no record of `seen` gives
  -- a later one.
  pub record Newest (t : Text) (seen : List (ContributionRecord F)) (actor : Text) (created : ℕ)
      (v : Verdict) : Type 0 where
    pub by : ContributionRecord F
    pub among : (p : ContributionRecord F → Bool) → p by ≡ true → any p seen ≡ true
    pub counts : Verifies t by
    pub of_actor : by.actor ≡ actor
    pub at_time : by.created ≡ created
    pub says : Says by.verdict v
    pub youngest : All (λ x. Verifies t x → x.actor ≡ actor → x.created ≤ created) seen

  pub record Counted (t : Text) (seen : List (ContributionRecord F))
      (m : HashMap Text (ℕ × Verdict)) : Type 0 where
    pub newest :
        (a : Text) (c : ℕ) (v : Verdict) → HashMap.get a m ≡ some (c, v) → Newest t seen a c v
    pub listed : All (λ x. Verifies t x → HashMap.contains_key x.actor m ≡ true) seen

  later_in :
      (t : Text) (a : Text) (c d : ℕ) (seen : List (ContributionRecord F))
      → c ≤ d
      → All (λ x. Verifies t x → x.actor ≡ a → x.created ≤ c) seen
      → All (λ x. Verifies t x → x.actor ≡ a → x.created ≤ d) seen
  later_in t a c d [] l h = tt
  later_in t a c d (x ∷ seen) l h = ((λ p q. ground (arith, h.0 p q)), later_in t a c d seen l h.1)

  none_in :
      (t : Text) (a : Text) (d : ℕ) (m : HashMap Text (ℕ × Verdict))
      (seen : List (ContributionRecord F))
      → HashMap.get a m ≡ none
      → All (λ x. Verifies t x → HashMap.contains_key x.actor m ≡ true) seen
      → All (λ x. Verifies t x → x.actor ≡ a → x.created ≤ d) seen
  none_in t a d m [] e h = tt
  none_in t a d m (x ∷ seen) e h = (
    (λ p q. absurd (ground (arith, h.0 p, ap (λ k. HashMap.contains_key k m) q, e))),
    none_in t a d m seen e h.1,
  )

  still_listed :
      (t a : Text) (n : ℕ × Verdict) (m : HashMap Text (ℕ × Verdict))
      (seen : List (ContributionRecord F))
      → All (λ x. Verifies t x → HashMap.contains_key x.actor m ≡ true) seen
      → All (λ x. Verifies t x → HashMap.contains_key x.actor (HashMap.insert a n m) ≡ true) seen
  still_listed t a n m [] h = tt
  still_listed t a n m (x ∷ seen) h = (
    (λ p. ground (arith, HashMap.get-insert x.actor a n m, h.0 p)),
    still_listed t a n m seen h.1,
  )

  not-Counted :
      (t : Text) (r : ContributionRecord F) (seen : List (ContributionRecord F))
      (m : HashMap Text (ℕ × Verdict))
      → counts_for t r ≡ false
      → Counted t seen m
      → Counted t (r ∷ seen) m
  not-Counted t r seen m e h = record {
    newest = λ a c v g.
        let n = h.newest a c v g in
        record {
          by = n.by;
          among = λ p h'. ground (arith, n.among p h');
          counts = n.counts;
          of_actor = n.of_actor;
          at_time = n.at_time;
          says = n.says;
          youngest = ((λ p q. absurd (ground (arith, e, (counts_for_iff t r).1 p))), n.youngest);
        };
    listed = ((λ p. absurd (ground (arith, e, (counts_for_iff t r).1 p))), h.listed);
  }

  kept :
      (t : Text) (r : ContributionRecord F) (seen : List (ContributionRecord F))
      (m : HashMap Text (ℕ × Verdict)) (held : ℕ × Verdict)
      → HashMap.get r.actor m ≡ some held
      → r.created ≤ held.0
      → Counted t seen m
      → Counted t (r ∷ seen) m
  kept t r seen m held e l h = record {
    newest = λ a c v g.
        let n = h.newest a c v g in
        record {
          by = n.by;
          among = λ p h'. ground (arith, n.among p h');
          counts = n.counts;
          of_actor = n.of_actor;
          at_time = n.at_time;
          says = n.says;
          youngest = (
            (λ p q.
                let same : held ≡ (c, v) = some-inj (sym e ∙ ap (λ k. HashMap.get k m) q ∙ g) in
                subst (λ (x : ℕ × Verdict). r.created ≤ x.0) same l),
            n.youngest,
          );
        };
    listed = ((λ p. ground (arith, e)), h.listed);
  }

  replaced :
      (t : Text) (r : ContributionRecord F) (seen : List (ContributionRecord F))
      (m : HashMap Text (ℕ × Verdict))
      → Verifies t r
      → All (λ x. Verifies t x → x.actor ≡ r.actor → x.created ≤ r.created) seen
      → Counted t seen m
      → Counted t (r ∷ seen) (HashMap.insert r.actor (r.created, verdict_or_failed r.verdict) m)
  replaced t r seen m counts older h = record {
    newest = λ a c v g.
        elim (HashMap.get-insert_cases a r.actor (r.created, verdict_or_failed r.verdict) (c, v) m
          g) [
            | inl (same, made) ↦
                subst (λ k. Newest t (r ∷ seen) k c v) same
                  (subst (λ (x : ℕ × Verdict). Newest t (r ∷ seen) r.actor x.0 x.1) (sym made)
                    (record {
                      by = r;
                      among = λ p h'. ground (arith, h');
                      counts = counts;
                      of_actor = refl;
                      at_time = refl;
                      says = Says-verdict_or_failed r.verdict;
                      youngest = ((λ p q. omega arith), older);
                    }))
            | inr (other, old) ↦
                let n = h.newest a c v old in
                record {
                  by = n.by;
                  among = λ p h'. ground (arith, n.among p h');
                  counts = n.counts;
                  of_actor = n.of_actor;
                  at_time = n.at_time;
                  says = n.says;
                  youngest = ((λ p q. absurd (other q)), n.youngest);
                }
          ];
    listed = (
      (λ p. ground (
        arith,
        HashMap.get-insert r.actor r.actor (r.created, verdict_or_failed r.verdict) m,
        (text_eq_iff r.actor r.actor).1 refl,
      )),
      still_listed t r.actor (r.created, verdict_or_failed r.verdict) m seen h.listed,
    );
  }

  pub count_verdict-Counted :
      (t : Text) (r : ContributionRecord F) (seen : List (ContributionRecord F))
      (m : HashMap Text (ℕ × Verdict))
      → Counted t seen m
      → Counted t (r ∷ seen) (count_verdict t r m)
  unfolding count_verdict
  count_verdict-Counted t r seen m h = elim (Bool-cases (counts_for t r)) [
    | inr e ↦ rw (e, count_verdict) (not-Counted t r seen m e h)
    | inl e ↦ elim (Option-cases (HashMap.get r.actor m)) [
      | inl f ↦
          rw (e, f, count_verdict)
            (replaced t r seen m ((counts_for_iff t r).0 e)
              (none_in t r.actor r.created m seen f h.listed) h)
      | inr (held, f) ↦ elim (Bool-cases (leb r.created held.0)) [
        | inl g ↦ rw (e, f, g, count_verdict) (kept t r seen m held f (ground arith) h)
        | inr g ↦
            let n = h.newest r.actor held.0 held.1 f in
            rw (e, f, g, count_verdict)
              (replaced t r seen m ((counts_for_iff t r).0 e)
                (later_in t r.actor held.0 r.created seen (ground arith) n.youngest) h)
      ]
    ]
  ]
