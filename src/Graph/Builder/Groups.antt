-- ===== src/Graph/Builder/Groups.antt =====
-- crates/zerochain-core/src/graph.rs: the groups of the builder, against the stages of a workflow.
use mathlib.Core.List.{append_assoc, append-nil}
use zerochain.Prelude.{
  or_default, ℕ, ◌≡◌, ◌≢◌, refl, sym, ◌∙◌, ap, subst, true, Option, none, some, List, [], ◌∷◌, ◌++◌,
  arith, nat_ord, nat_eq, nat_eq_iff, if◌then◌else◌, All, Bool-cases, Option-cases, inl, inr,
  some-inj, none-ne-some,
}
use zerochain.OrdMap
use zerochain.OrdMap.{OrdMap}
use zerochain.OrdMap.Sorted.{IsSorted, insert-IsSorted, entries-get}
use zerochain.Stage.{Stage, StageId}
use zerochain.Graph.Builder.{group_stages, push_group}

-- The stages with a sequence number, in the order in which they are given.
abbrev pub of_sequence : ℕ → List Stage → List StageId
of_sequence n [] = []
of_sequence n (s ∷ ss) =
    let rest = of_sequence n ss in if nat_eq s.id.sequence n then s.id ∷ rest else rest

-- The groups, in ascending order of their numbers, are the stages with these numbers; no group is
-- empty, and the number of every stage has a group.
pub record IsGrouping (stages : List Stage) (groups : OrdMap ℕ (List StageId)) : Type 0 where
  pub ascending : IsSorted groups
  pub members : All (λ e. (e.1 ≡ of_sequence e.0 stages) × (e.1 ≢ [])) groups
  pub covers : All (λ s. OrdMap.contains_key s.id.sequence groups ≡ true) stages

-- A group with more stages behind it; without stages there is no new group.
abbrev extended : Option (List StageId) → List StageId → Option (List StageId)
extended none [] = none
extended none (x ∷ xs) = some (x ∷ xs)
extended (some l) ids = some (l ++ ids)

extended_one :
    (o : Option (List StageId)) (x : StageId) (xs : List StageId)
    → extended (some (or_default o ++ x ∷ [])) xs ≡ extended o (x ∷ xs)
extended_one none x xs = refl
extended_one (some l) x xs = ap some (append_assoc l (x ∷ []) xs)

extended_nil : (o : Option (List StageId)) → o ≡ extended o []
extended_nil none = refl
extended_nil (some l) = ap some (sym (append-nil l))

group_stages-extended :
    (k : ℕ) (ss : List Stage) (m : OrdMap ℕ (List StageId))
    → OrdMap.get k (group_stages ss m) ≡ extended (OrdMap.get k m) (of_sequence k ss)
group_stages-extended k [] m = extended_nil (OrdMap.get k m)
group_stages-extended k (s ∷ ss) m =
    let n = s.id.sequence in
    let group = or_default (OrdMap.get n m) ++ s.id ∷ [] in
    let rest = group_stages-extended k ss (push_group n s.id m) in
    elim (Bool-cases (nat_eq n k)) [
      | inl e ↦
          let same : n ≡ k = (nat_eq_iff n k).0 e in
          let here : OrdMap.get k (OrdMap.insert n group m)
              ≡ some (or_default (OrdMap.get k m) ++ s.id ∷ []) =
            subst
              (λ j.
                OrdMap.get j (OrdMap.insert n group m)
                ≡ some (or_default (OrdMap.get j m) ++ s.id ∷ []))
              same (OrdMap.get-insert_self n group m) in
          rest
          ∙ ap (λ o. extended o (of_sequence k ss)) here
          ∙ rw e (extended_one (OrdMap.get k m) s.id (of_sequence k ss))
      | inr e ↦
          let other : k ≢ n = λ q. ground (arith, e, q) in
          rest
          ∙ ap (λ o. extended o (of_sequence k ss)) (OrdMap.get-insert_ne k n group m other)
          ∙ rw e refl
    ]

group_stages-IsSorted :
    (ss : List Stage) (m : OrdMap ℕ (List StageId)) → IsSorted m → IsSorted (group_stages ss m)
group_stages-IsSorted [] m h = h
group_stages-IsSorted (s ∷ ss) m h =
    let n = s.id.sequence in
    group_stages-IsSorted ss (push_group n s.id m)
      (insert-IsSorted n (or_default (OrdMap.get n m) ++ s.id ∷ []) m h)

extended_some : (ids : List StageId) → ids ≢ [] → extended none ids ≢ none
extended_some [] h e = h refl
extended_some (x ∷ xs) h e = cc

extended-new : (ids l : List StageId) → extended none ids ≡ some l → (l ≡ ids) × (l ≢ [])
extended-new [] l h = absurd (none-ne-some h)
extended-new (x ∷ xs) l h = (sym (some-inj h), λ e. ground (arith, some-inj h, e))

members_in :
    (stages : List Stage) (m : OrdMap ℕ (List StageId))
    → All (λ e. OrdMap.get e.0 (group_stages stages []) ≡ some e.1) m
    → All (λ e. (e.1 ≡ of_sequence e.0 stages) × (e.1 ≢ [])) m
members_in stages [] h = tt
members_in stages ((k, l) ∷ m) h = (
  extended-new (of_sequence k stages) l (sym (group_stages-extended k stages []) ∙ h.0),
  members_in stages m h.1,
)

-- A number whose stages are some is a key.
has_key :
    (stages : List Stage) (n : ℕ)
    → of_sequence n stages ≢ []
    → OrdMap.contains_key n (group_stages stages []) ≡ true
has_key stages n h = elim (Option-cases (OrdMap.get n (group_stages stages []))) [
  | inr (l, e) ↦ ground (arith, e)
  | inl e ↦
      absurd (extended_some (of_sequence n stages) h (sym (group_stages-extended n stages []) ∙ e))
]

covers_in :
    (stages ss : List Stage)
    → All (λ s. of_sequence s.id.sequence stages ≢ []) ss
    → All (λ s. OrdMap.contains_key s.id.sequence (group_stages stages []) ≡ true) ss
covers_in stages [] h = tt
covers_in stages (s ∷ ss) h = (has_key stages s.id.sequence h.0, covers_in stages ss h.1)

one_more :
    (s : Stage) (rest ss : List Stage)
    → All (λ x. of_sequence x.id.sequence rest ≢ []) ss
    → All (λ x. of_sequence x.id.sequence (s ∷ rest) ≢ []) ss
one_more s rest [] h = tt
one_more s rest (x ∷ ss) h = ((λ e. h.0 (ground (arith, e))), one_more s rest ss h.1)

own_group : (ss : List Stage) → All (λ s. of_sequence s.id.sequence ss ≢ []) ss
own_group [] = tt
own_group (s ∷ ss) = ((λ e. ground (arith, e)), one_more s ss ss (own_group ss))

pub group_stages-IsGrouping : (stages : List Stage) → IsGrouping stages (group_stages stages [])
group_stages-IsGrouping stages =
    let sorted = group_stages-IsSorted stages [] tt in
    record {
      ascending = sorted;
      members =
          members_in stages (group_stages stages []) (entries-get (group_stages stages []) sorted);
      covers = covers_in stages stages (own_group stages);
    }
