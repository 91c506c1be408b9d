-- ===== src/Memory/Index/Query.antt =====
-- crates/zerochain-memory/src/graph_index.rs: `add`, the latest record of a workflow and the verdicts.
use zerochain.Prelude.{
  ℕ, Bool, true, false, not, ◌&&◌, Option, none, some, List, [], ◌∷◌, ◌++◌, if◌then◌else◌, Text,
  text_eq, text_cmp, text_ord, text_eq_instance, leb, compare, Ordering, any, select, sort_by,
}
use zerochain.OrdMap
use zerochain.OrdMap.{OrdMap}
use zerochain.HashMap
use zerochain.HashMap.{HashMap, contains}
use zerochain.Memory.Record.{
  ContributionRecord, result, verification, Verdict, confirmed, partial, failed, type_eq,
}
use zerochain.Memory.Index.Data.{GraphIndex, push_children}

-- `Some(text)` is equal to the option.
abbrev pub is_text : Text → Option Text → Bool
is_text t none = false
is_text t (some u) = text_eq u t

-- `Ordering::then`
abbrev pub then_cmp : Ordering → Ordering → Ordering
then_cmp Ordering.lt b = Ordering.lt
then_cmp Ordering.eq b = b
then_cmp Ordering.gt b = Ordering.gt

-- `Iterator::max_by`: the last of the greatest.
abbrev pub max_from {ℓ} : {A : Type ℓ} → (A → A → Ordering) → A → List A → A
max_from cmp best [] = best
max_from cmp best (x ∷ xs) = max_from cmp (elim (cmp best x) [ Ordering.gt ↦ best | _ ↦ x ]) xs

abbrev pub max_by {ℓ} : {A : Type ℓ} → (A → A → Ordering) → List A → Option A
max_by cmp [] = none
max_by cmp (x ∷ xs) = some (max_from cmp x xs)

abbrev pub reverse {ℓ} : {A : Type ℓ} → List A → List A
reverse [] = []
reverse (x ∷ xs) = reverse xs ++ x ∷ []

-- `Option::is_none_or`
abbrev pub is_none_or {ℓ} : {A : Type ℓ} → (A → Bool) → Option A → Bool
is_none_or test none = true
is_none_or test (some a) = test a

-- `record.verdict.unwrap_or(Verdict::Failed)`
abbrev pub verdict_or_failed : Option Verdict → Verdict
verdict_or_failed none = failed
verdict_or_failed (some v) = v

abbrev pub is_positive : Text × Verdict → Bool
is_positive (a, confirmed) = true
is_positive (a, partial) = true
is_positive (a, failed) = false

abbrev pub is_empty_text : Text → Bool
is_empty_text [] = true
is_empty_text (c ∷ s) = false

abbrev pub compare_actors : Text × Verdict → Text × Verdict → Ordering
compare_actors a b = text_cmp a.0 b.0

abbrev pub without_times : HashMap Text (ℕ × Verdict) → List (Text × Verdict)
without_times [] = []
without_times ((actor, held) ∷ m) = (actor, held.1) ∷ without_times m

module _ {F : Type 0} where
  abbrev pub empty : GraphIndex F
  empty = record { records = []; children = [] }

  -- A record whose id is already there changes nothing.
  unfoldable pub add : ContributionRecord F → GraphIndex F → GraphIndex F
  add r ix = if OrdMap.contains_key r.id ix.records then ix else record {
    records = OrdMap.insert r.id r ix.records;
    children = push_children r.parents r.id ix.children;
  }

  abbrev pub add_all : List (ContributionRecord F) → GraphIndex F → GraphIndex F
  add_all [] ix = ix
  add_all (r ∷ rs) ix = add_all rs (add r ix)

  unfoldable pub from_records : List (ContributionRecord F) → GraphIndex F
  from_records rs = add_all rs empty

  unfoldable pub get : Text → GraphIndex F → Option (ContributionRecord F)
  get id ix = OrdMap.get id ix.records

  -- `a.created.cmp(&b.created).then(a.id.cmp(&b.id))`
  unfoldable pub age_cmp : ContributionRecord F → ContributionRecord F → Ordering
  age_cmp a b = then_cmp (compare a.created b.created) (text_cmp a.id b.id)

  unfoldable pub all_records : GraphIndex F → List (ContributionRecord F)
  all_records ix = sort_by age_cmp (OrdMap.values ix.records)

  abbrev pub in_workflow : Text → ContributionRecord F → Bool
  in_workflow w r = is_text w r.workflow

  unfoldable pub latest_in_workflow : Text → GraphIndex F → Option (ContributionRecord F)
  latest_in_workflow w ix = max_by age_cmp (select (in_workflow w) (OrdMap.values ix.records))

  -- A verification of the target by a named actor.
  abbrev pub counts_for : Text → ContributionRecord F → Bool
  counts_for t r =
      type_eq r.record_type verification && (is_text t r.target && not (is_empty_text r.actor))

  -- One round of the loop over the records: a verdict stays unless the new one is younger.
  unfoldable pub count_verdict :
      Text → ContributionRecord F → HashMap Text (ℕ × Verdict) → HashMap Text (ℕ × Verdict)
  count_verdict t r m =
      let newer = HashMap.insert r.actor (r.created, verdict_or_failed r.verdict) m in
      if counts_for t r
      then elim (HashMap.get r.actor m) [
        | none ↦ newer
        | some held ↦ if leb r.created held.0 then m else newer
      ]
      else m

  abbrev pub count_verdicts :
      Text → List (ContributionRecord F) → HashMap Text (ℕ × Verdict) → HashMap Text (ℕ × Verdict)
  count_verdicts t [] m = m
  count_verdicts t (r ∷ rs) m = count_verdicts t rs (count_verdict t r m)

  unfoldable pub effective_verdicts : Text → GraphIndex F → List (Text × Verdict)
  effective_verdicts t ix =
      sort_by compare_actors (without_times (count_verdicts t (OrdMap.values ix.records) []))

  unfoldable pub is_verified : ContributionRecord F → GraphIndex F → Bool
  is_verified r ix = any is_positive (effective_verdicts r.id ix)

  abbrev pub is_leaf : GraphIndex F → ContributionRecord F → Bool
  is_leaf ix r =
      not (type_eq r.record_type verification) && not (HashMap.contains_key r.id ix.children)

  abbrev pub is_unverified : GraphIndex F → ContributionRecord F → Bool
  is_unverified ix r = type_eq r.record_type result && not (is_verified r ix)

  abbrev pub has_tag : Text → ContributionRecord F → Bool
  has_tag tag r = any (λ t. text_eq t tag) r.tags
