-- ===== src/Memory/Tests.antt =====
-- A result, a hypothesis that builds on it, and an index of both. Metrics are natural numbers here.
use zerochain.Prelude.{
  refl, All, ℕ, ◌≡◌, Bool, true, Option, none, some, List, [], ◌∷◌, Text, bytes, text_ord, Ordering,
  compare, select,
}
use zerochain.OrdMap
use zerochain.Memory.Record.{
  verification, Verdict, failed, confirmed, ContributionRecord, ContributionType, result,
  hypothesis,
}
use zerochain.Memory.Index.{
  effective_verdicts, count_verdict, GraphIndex, add, from_records, view, leaves,
}
use zerochain.Memory.Index.Invariant.{IsIndexed, from_records-IsIndexed, add-IsIndexed}
use zerochain.Memory.Index.Verdicts.{Verifies}
use zerochain.Memory.Index.Leaves.{is_open, view-leaves}
use zerochain.Memory.Index.Effective.{IsEffective, names, effective_verdicts-IsEffective}

abbrev record_of : Text → ContributionType → List Text → ℕ → ContributionRecord ℕ
record_of id record_type parents created = record {
  id = id;
  record_type = record_type;
  parents = parents;
  actor = bytes "agent";
  created = created;
  workflow = some (bytes "blend");
  stage = none;
  metric = none;
  tags = [];
  artifacts = [];
  verdict = none;
  target = none;
  body = bytes "text";
}

abbrev first_result : ContributionRecord ℕ
first_result = record_of (bytes "c-1") result [] 5

abbrev next_guess : ContributionRecord ℕ
next_guess = record_of (bytes "c-0") hypothesis (bytes "c-1" ∷ []) 8

abbrev both : GraphIndex ℕ
both = from_records (first_result ∷ next_guess ∷ [])

both-IsIndexed : IsIndexed both
both-IsIndexed = from_records-IsIndexed (first_result ∷ next_guess ∷ [])

add-IsIndexed_example : IsIndexed (add next_guess both)
add-IsIndexed_example = add-IsIndexed next_guess both both-IsIndexed

always : ℕ → Bool
always n = true

compared : ℕ → ℕ → Option Ordering
compared a b = some (compare a b)

view-leaves_example :
    view always compared leaves both ≡ select (is_open both) (OrdMap.values both.records)
view-leaves_example = view-leaves always compared (first_result ∷ next_guess ∷ [])

-- The hypothesis of the first example is refuted, and then confirmed by the same agent.
abbrev judged : Text → ℕ → Verdict → ContributionRecord ℕ
judged id created v = record (record_of id verification [] created) {
  target = some (bytes "c-0");
  verdict = some v;
}

abbrev with_verdicts : GraphIndex ℕ
with_verdicts =
    from_records
      (next_guess ∷ judged (bytes "c-2") 9 failed ∷ judged (bytes "c-3") 11 confirmed ∷ [])

only_the_newest : effective_verdicts (bytes "c-0") with_verdicts ≡ (bytes "agent", confirmed) ∷ []
unfolding effective_verdicts count_verdict from_records add
only_the_newest = refl

effective_verdicts-IsEffective_example :
    All
      (IsEffective (bytes "c-0") (OrdMap.values with_verdicts.records))
      (effective_verdicts (bytes "c-0") with_verdicts)
    × All
        (λ x.
          Verifies (bytes "c-0") x
          → names x.actor (effective_verdicts (bytes "c-0") with_verdicts) ≡ true)
        (OrdMap.values with_verdicts.records)
effective_verdicts-IsEffective_example = effective_verdicts-IsEffective (bytes "c-0") with_verdicts
