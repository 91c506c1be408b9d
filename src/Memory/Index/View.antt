-- ===== src/Memory/Index/View.antt =====
-- crates/zerochain-memory/src/graph_index.rs: `view` and `filtered`.
use zerochain.Prelude.{
  or_default, Bool, Option, none, some, List, [], ◌∷◌, ◌++◌, if◌then◌else◌, Text, bytes, text_cmp,
  text_ord, text_eq_instance, Ordering, all, select, sort_by, flip,
}
use zerochain.OrdMap
use zerochain.OrdMap.{OrdMap}
use zerochain.HashMap
use zerochain.HashMap.{HashMap, contains}
use zerochain.Memory.Record.{
  ContributionRecord, ContributionType, result, hypothesis, MetricDirection, lower, higher,
  ContributionMetric, type_eq,
}
use zerochain.Memory.Index.Data.{
  GraphIndex, GraphView, recent, leaves, open_hypotheses, unverified, negative, leaders,
  MetricGroup, group_eq_instance,
}
use zerochain.Memory.Index.Query.{
  reverse, is_none_or, in_workflow, all_records, is_leaf, is_unverified, has_tag,
}

-- The two operations of `f64` that the ranking uses.
module _ {F : Type 0} (is_finite : F → Bool) (partial_cmp : F → F → Option Ordering) where
  -- The metric that ranks a record.
  abbrev pub ranked_by : ContributionRecord F → Option (ContributionMetric F)
  ranked_by r =
      if type_eq r.record_type result
      then elim r.metric [ none ↦ none | some m ↦ if is_finite m.value then some m else none ]
      else none

  unfoldable pub group_by_metric :
      List (ContributionRecord F)
      → HashMap MetricGroup (List (ContributionRecord F))
      → HashMap MetricGroup (List (ContributionRecord F))
  group_by_metric [] groups = groups
  group_by_metric (r ∷ rs) groups = elim (ranked_by r) [
    | none ↦ group_by_metric rs groups
    | some m ↦
        let key : MetricGroup = record { name = m.name; direction = m.direction } in
        group_by_metric rs
          (HashMap.insert key (or_default (HashMap.get key groups) ++ r ∷ []) groups)
  ]

  abbrev pub or_equal : Option Ordering → Ordering
  or_equal none = Ordering.eq
  or_equal (some o) = o

  abbrev pub in_direction : MetricDirection → Ordering → Ordering
  in_direction lower o = o
  in_direction higher o = flip o

  -- A record of a group has a metric, so that the last case, where the source panics, is not met.
  abbrev pub compare_metrics :
      MetricDirection → ContributionRecord F → ContributionRecord F → Ordering
  compare_metrics d a b = elim a.metric [
    | none ↦ Ordering.eq
    | some m ↦ elim b.metric [
      | none ↦ Ordering.eq
      | some n ↦ in_direction d (or_equal (partial_cmp m.value n.value))
    ]
  ]

  -- `group[0]` of each sorted group.
  abbrev pub first_of_each :
      HashMap MetricGroup (List (ContributionRecord F)) → List (ContributionRecord F)
  first_of_each [] = []
  first_of_each ((key, group) ∷ groups) =
      let rest = first_of_each groups in
      elim (sort_by (compare_metrics key.direction) group) [ [] ↦ rest | r ∷ rs ↦ r ∷ rest ]

  abbrev pub compare_ids : ContributionRecord F → ContributionRecord F → Ordering
  compare_ids a b = text_cmp a.id b.id

  unfoldable pub leading : GraphIndex F → List (ContributionRecord F)
  leading ix = sort_by compare_ids (first_of_each (group_by_metric (OrdMap.values ix.records) []))

  unfoldable pub view : GraphView → GraphIndex F → List (ContributionRecord F)
  view recent ix = reverse (all_records ix)
  view leaves ix = select (is_leaf ix) (OrdMap.values ix.records)
  view open_hypotheses ix =
      select (λ r. type_eq r.record_type hypothesis) (OrdMap.values ix.records)
  view unverified ix = select (is_unverified ix) (OrdMap.values ix.records)
  view negative ix = select (has_tag (bytes "negative")) (OrdMap.values ix.records)
  view leaders ix = leading ix

  abbrev pub base_of : Option GraphView → GraphIndex F → List (ContributionRecord F)
  base_of none ix = all_records ix
  base_of (some v) ix = view v ix

  unfoldable pub filtered :
      Option GraphView
      → Option ContributionType
      → Option Text
      → List Text
      → GraphIndex F
      → List (ContributionRecord F)
  filtered v record_type workflow tags ix =
      select (λ r. all (λ t. contains t r.tags) tags)
        (select (λ r. is_none_or (λ w. in_workflow w r) workflow)
          (select (λ r. is_none_or (type_eq r.record_type) record_type) (base_of v ix)))
