-- ===== src/Memory/Record/Valid.antt =====
-- What `validate` accepts.
use zerochain.Prelude.{◌≡◌, ◌≢◌, ◌↔◌, refl, true, false, ok, arith}
use zerochain.Memory.Record.{
  ContributionRecord, ContributionType, setup, result, insight, hypothesis, verification, report,
  validate, type_eq, is_some,
}

-- A hypothesis has no metric; a verification has a target and a verdict, and no other record has.
pub record IsValid {F : Type 0} (r : ContributionRecord F) : Type 0 where
  pub untested : r.record_type ≡ hypothesis → is_some r.metric ≡ false
  pub aimed : r.record_type ≡ verification → (is_some r.target ≡ true) × (is_some r.verdict ≡ true)
  pub aimless :
      r.record_type ≢ verification → (is_some r.target ≡ false) × (is_some r.verdict ≡ false)

other_index : (t : ContributionType) → t ≢ verification → type_eq t verification ≡ false
other_index verification h = absurd (h refl)
other_index setup h = refl
other_index result h = refl
other_index insight h = refl
other_index hypothesis h = refl
other_index report h = refl

-- A record is accepted exactly if a hypothesis has no metric, a verification has a target and a
-- verdict, and a record of another type has neither.
pub validate-ok_iff : {F : Type 0} (r : ContributionRecord F) → (validate r ≡ ok tt) ↔ IsValid r
unfolding validate
validate-ok_iff r = (
  λ h. record {
    untested = λ e. ground (arith, h, e);
    aimed = λ e. ground (arith, h, e);
    aimless = λ e. ground (arith, h, other_index r.record_type e);
  },
  λ v. ground (arith, v.untested, v.aimed, v.aimless),
)
