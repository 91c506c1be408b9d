-- ===== src/Memory/Record.antt =====
-- crates/zerochain-memory/src/record.rs: contribution records, their texts and their validation. The
-- floating-point numbers of a metric are a parameter `F`, an instant is a number of time units.
pub mod Names
pub mod Valid
pub mod Markdown
pub mod Written
use zerochain.Prelude.{
  ℕ, Bool, true, false, ◌&&◌, ◌||◌, Option, none, some, List, Text, bytes, text_eq, nat_eq, Result,
  ok, err, if◌then◌else◌,
}

-- `MemoryError::InvalidInput`, by its message.
pub data InvalidInput : Type 0 where
  unknown_type unknown_verdict unknown_direction : Text → InvalidInput
  hypothesis_with_metric verification_without_target : InvalidInput
  verification_without_verdict misplaced_target_or_verdict : InvalidInput
  missing_frontmatter unclosed_frontmatter missing_type missing_created : InvalidInput
  id_mismatch hash_mismatch : Text → InvalidInput
  invalid_parent parent_not_found invalid_target target_not_found : Text → InvalidInput
  verifies_verification : InvalidInput

pub data ContributionType : Type 0 where
  setup result insight hypothesis verification report : ContributionType

pub data Verdict : Type 0 where
  confirmed partial failed : Verdict

pub data MetricDirection : Type 0 where
  lower higher : MetricDirection

unfoldable pub type_text : ContributionType → Text
type_text setup = bytes "setup"
type_text result = bytes "result"
type_text insight = bytes "insight"
type_text hypothesis = bytes "hypothesis"
type_text verification = bytes "verification"
type_text report = bytes "report"

unfoldable pub parse_type : Text → Result InvalidInput ContributionType
parse_type s =
    if text_eq s (bytes "setup")
    then ok setup
    else if text_eq s (bytes "result")
    then ok result
    else if text_eq s (bytes "insight")
    then ok insight
    else if text_eq s (bytes "hypothesis")
    then ok hypothesis
    else if text_eq s (bytes "verification")
    then ok verification
    else if text_eq s (bytes "report")
    then ok report
    else err (unknown_type s)

unfoldable pub verdict_text : Verdict → Text
verdict_text confirmed = bytes "confirmed"
verdict_text partial = bytes "partial"
verdict_text failed = bytes "failed"

unfoldable pub parse_verdict : Text → Result InvalidInput Verdict
parse_verdict s =
    if text_eq s (bytes "confirmed")
    then ok confirmed
    else if text_eq s (bytes "partial")
    then ok partial
    else if text_eq s (bytes "failed")
    then ok failed
    else err (unknown_verdict s)

unfoldable pub parse_direction : Text → Result InvalidInput MetricDirection
parse_direction s =
    if text_eq s (bytes "lower")
    then ok lower
    else if text_eq s (bytes "higher")
    then ok higher
    else err (unknown_direction s)

-- The derived `PartialEq` of the types: that of their positions.
abbrev pub type_index : ContributionType → ℕ
type_index setup = 0
type_index result = 1
type_index insight = 2
type_index hypothesis = 3
type_index verification = 4
type_index report = 5

abbrev pub type_eq : ContributionType → ContributionType → Bool
type_eq a b = nat_eq (type_index a) (type_index b)

pub record ContributionMetric (F : Type 0) : Type 0 where
  pub name : Text
  pub value : F
  pub direction : MetricDirection

pub record ContributionRecord (F : Type 0) : Type 0 where
  pub id : Text
  pub record_type : ContributionType
  pub parents : List Text
  pub actor : Text
  pub created : ℕ
  pub workflow : Option Text
  pub stage : Option Text
  pub metric : Option (ContributionMetric F)
  pub tags : List Text
  pub artifacts : List Text
  pub verdict : Option Verdict
  pub target : Option Text
  pub body : Text

abbrev pub is_some {ℓ} : {A : Type ℓ} → Option A → Bool
is_some none = false
is_some (some a) = true

abbrev pub is_none {ℓ} : {A : Type ℓ} → Option A → Bool
is_none none = true
is_none (some a) = false

unfoldable pub validate : {F : Type 0} → ContributionRecord F → Result InvalidInput (Unit {0})
validate r =
    if type_eq r.record_type hypothesis && is_some r.metric
    then err hypothesis_with_metric
    else if type_eq r.record_type verification
    then (if is_none r.target
        then err verification_without_target
        else if is_none r.verdict
        then err verification_without_verdict
        else ok tt)
    else if is_some r.target || is_some r.verdict
    then err misplaced_target_or_verdict
    else ok tt
