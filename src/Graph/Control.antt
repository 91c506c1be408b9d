-- ===== src/Graph/Control.antt =====
-- crates/zerochain-core/src/graph.rs: `ControlOutcome` and its record texts.
use zerochain.Prelude.{
  ◌≡◌, refl, some-inj, none-ne-some, subst, Bool-cases, ◌≢◌, ◌↔◌, Option, none, some, if◌then◌else◌,
  Text, bytes, text_eq, text_eq_iff, inl, inr,
}
use zerochain.Text.{trim}

-- `cont` is `Continue`, `ret` is `Return`.
pub data ControlOutcome : Type 0 where
  cont ret escalate fail await : ControlOutcome

unfoldable pub as_record : ControlOutcome → Text
as_record cont = bytes "zerochain.control.v1.continue"
as_record ret = bytes "zerochain.control.v1.return"
as_record escalate = bytes "zerochain.control.v1.escalate"
as_record fail = bytes "zerochain.control.v1.fail"
as_record await = bytes "zerochain.control.v1.await"

abbrev parse_trimmed : Text → Option ControlOutcome
parse_trimmed t =
    if text_eq t (bytes "zerochain.control.v1.return")
    then some ret
    else if text_eq t (bytes "zerochain.control.v1.escalate")
    then some escalate
    else if text_eq t (bytes "zerochain.control.v1.fail")
    then some fail
    else if text_eq t (bytes "zerochain.control.v1.await")
    then some await
    else none

unfoldable pub parse_record : Text → Option ControlOutcome
parse_record record_text = parse_trimmed (trim record_text)

abbrev Read : Text → ControlOutcome → Type 0
Read t o = (t ≡ as_record o) × (o ≢ cont)

trimmed_of :
    (t : Text) (o : ControlOutcome) → parse_trimmed t ≡ some o → (t ≡ as_record o) × (o ≢ cont)
unfolding as_record
trimmed_of t o h = elim (Bool-cases (text_eq t (bytes "zerochain.control.v1.return"))) [
  | inl e ↦ subst (Read t) (some-inj (rw e at h)) ((text_eq_iff t _).0 e, λ p. cc)
  | inr e₁ ↦ elim (Bool-cases (text_eq t (bytes "zerochain.control.v1.escalate"))) [
    | inl e ↦ subst (Read t) (some-inj (rw e at (rw e₁ at h))) ((text_eq_iff t _).0 e, λ p. cc)
    | inr e₂ ↦ elim (Bool-cases (text_eq t (bytes "zerochain.control.v1.fail"))) [
      | inl e ↦
          subst (Read t) (some-inj (rw e at (rw e₂ at (rw e₁ at h))))
            ((text_eq_iff t _).0 e, λ p. cc)
      | inr e₃ ↦ elim (Bool-cases (text_eq t (bytes "zerochain.control.v1.await"))) [
        | inl e ↦
            subst (Read t) (some-inj (rw e at (rw e₃ at (rw e₂ at (rw e₁ at h)))))
              ((text_eq_iff t _).0 e, λ p. cc)
        | inr e₄ ↦ absurd (none-ne-some (rw e₄ at (rw e₃ at (rw e₂ at (rw e₁ at h)))))
      ]
    ]
  ]
]

record_trimmed : (o : ControlOutcome) → o ≢ cont → parse_trimmed (as_record o) ≡ some o
unfolding as_record
record_trimmed cont h = absurd (h refl)
record_trimmed ret h = refl
record_trimmed escalate h = refl
record_trimmed fail h = refl
record_trimmed await h = refl

-- A text is read as an outcome exactly if it is, but for white space at its ends, the record of that
-- outcome, and the outcome is not `Continue`: the record of `Continue` is not read back.
pub parse_record-eq_some_iff :
    (t : Text) (o : ControlOutcome)
    → (parse_record t ≡ some o) ↔ ((trim t ≡ as_record o) × (o ≢ cont))
unfolding parse_record
parse_record-eq_some_iff t o = (trimmed_of (trim t) o, λ h. rw h.0 (record_trimmed o h.1))
