-- ===== src/Memory/Index/Data.antt =====
-- crates/zerochain-memory/src/graph_index.rs: the views and the data of the index.
use zerochain.Prelude.{
  or_default, Bool, true, false, ◌&&◌, Option, none, some, List, [], ◌∷◌, ◌++◌, if◌then◌else◌, Text,
  bytes, text_eq, text_eq_iff, text_ord, text_eq_instance, Eq, arith, ◌≡◌, ◌↔◌,
}
use zerochain.OrdMap.{OrdMap}
use zerochain.HashMap
use zerochain.HashMap.{HashMap, contains}
use zerochain.Memory.Record.{ContributionRecord, MetricDirection, lower, higher}

pub data GraphView : Type 0 where
  recent leaves open_hypotheses unverified negative leaders : GraphView

unfoldable pub view_text : GraphView → Text
view_text recent = bytes "recent"
view_text leaves = bytes "leaves"
view_text open_hypotheses = bytes "open_hypotheses"
view_text unverified = bytes "unverified"
view_text negative = bytes "negative"
view_text leaders = bytes "leaders"

unfoldable pub parse_view : Text → Option GraphView
parse_view s =
    if text_eq s (bytes "recent")
    then some recent
    else if text_eq s (bytes "leaves")
    then some leaves
    else if text_eq s (bytes "open_hypotheses")
    then some open_hypotheses
    else if text_eq s (bytes "unverified")
    then some unverified
    else if text_eq s (bytes "negative")
    then some negative
    else if text_eq s (bytes "leaders")
    then some leaders
    else none

pub record GraphIndex (F : Type 0) : Type 0 where
  pub records : OrdMap Text (ContributionRecord F)
  pub children : HashMap Text (List Text)

-- `children.entry(parent).or_default().push(id)` for each parent.
abbrev pub push_children : List Text → Text → HashMap Text (List Text) → HashMap Text (List Text)
push_children [] id m = m
push_children (p ∷ ps) id m =
    push_children ps id (HashMap.insert p (or_default (HashMap.get p m) ++ id ∷ []) m)

abbrev pub direction_eq : MetricDirection → MetricDirection → Bool
direction_eq lower lower = true
direction_eq higher higher = true
direction_eq _ _ = false

pub direction_eq_iff : (a b : MetricDirection) → (direction_eq a b ≡ true) ↔ (a ≡ b)
direction_eq_iff a b = ground arith

-- What the best results are looked for within.
pub record MetricGroup : Type 0 where
  pub name : Text
  pub direction : MetricDirection

abbrev pub group_eq : MetricGroup → MetricGroup → Bool
group_eq a b = text_eq a.name b.name && direction_eq a.direction b.direction

pub group_eq_iff : (a b : MetricGroup) → (group_eq a b ≡ true) ↔ (a ≡ b)
group_eq_iff a b =
    ground (arith, text_eq_iff a.name b.name, direction_eq_iff a.direction b.direction)

instance abbrev pub group_eq_instance : Eq MetricGroup
group_eq_instance = record { beq = group_eq; beq_iff = group_eq_iff }
