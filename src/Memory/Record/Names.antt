-- ===== src/Memory/Record/Names.antt =====
-- The texts of the types and verdicts are read back, and no other text is read.
use zerochain.Prelude.{◌≡◌, ◌↔◌, ok, text_eq_iff, arith, Text, bytes, refl}
use zerochain.Memory.Record.{
  ContributionType, Verdict, setup, result, insight, hypothesis, verification, report, parse_type,
  type_text, parse_verdict, verdict_text,
}

-- A text is read as a type exactly if it is the text of that type.
pub parse_type-eq-ok_iff :
    (s : Text) (t : ContributionType) → (parse_type s ≡ ok t) ↔ (s ≡ type_text t)
unfolding parse_type type_text
parse_type-eq-ok_iff s t = (
  λ h. ground (
    arith,
    text_eq_iff s (bytes "setup"),
    text_eq_iff s (bytes "result"),
    text_eq_iff s (bytes "insight"),
    text_eq_iff s (bytes "hypothesis"),
    text_eq_iff s (bytes "verification"),
    text_eq_iff s (bytes "report"),
  ),
  λ e. back t e,
)
  where
    back : (t : ContributionType) → s ≡ type_text t → parse_type s ≡ ok t
    back setup e = rw e refl
    back result e = rw e refl
    back insight e = rw e refl
    back hypothesis e = rw e refl
    back verification e = rw e refl
    back report e = rw e refl

-- A text is read as a verdict exactly if it is the text of that verdict.
pub parse_verdict-eq-ok_iff :
    (s : Text) (v : Verdict) → (parse_verdict s ≡ ok v) ↔ (s ≡ verdict_text v)
unfolding parse_verdict verdict_text
parse_verdict-eq-ok_iff s v = ground (arith, text_eq_iff s)
