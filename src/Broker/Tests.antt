-- ===== src/Broker/Tests.antt =====
-- Subjects of workflows.
use zerochain.Prelude.{◌≡◌, refl, true, false, bytes}
use zerochain.Broker.{subject_matches, split_byte}
use zerochain.Broker.Literal.{IsLiteral}

star_taken : subject_matches (bytes "workflow.*.done") (bytes "workflow.a.done") ≡ true
unfolding subject_matches
star_taken = refl

star_not_empty : subject_matches (bytes "workflow.*") (bytes "workflow.") ≡ false
unfolding subject_matches
star_not_empty = refl

tokens-IsLiteral : IsLiteral (split_byte b'.' (bytes "a.b"))
tokens-IsLiteral = ((λ e. absurd cc), ((λ e. absurd cc), tt))
