-- ===== src/Broker.antt =====
-- crates/zerochain-broker/src/memory.rs: which subjects a pattern matches. The channels of the broker
-- are those of the runtime and are not modelled.
pub mod Literal
mod Tests
use zerochain.Prelude.{
  ℕ, Bool, true, false, not, ◌&&◌, List, [], ◌∷◌, Text, bytes, text_eq, nat_eq, if◌then◌else◌,
}
use zerochain.Text.{is_empty}

-- The first token, with the rest.
abbrev pub onto_first : ℕ → List Text → List Text
onto_first c [] = (c ∷ []) ∷ []
onto_first c (t ∷ ts) = (c ∷ t) ∷ ts

-- `s.split(c)`: always at least one token.
abbrev pub split_byte : ℕ → Text → List Text
split_byte b [] = [] ∷ []
split_byte b (c ∷ s) =
    let rest = split_byte b s in if nat_eq c b then [] ∷ rest else onto_first c rest

-- The loop over both token sequences.
abbrev pub tokens_match : List Text → List Text → Bool
tokens_match [] [] = true
tokens_match [] (s ∷ ss) = false
tokens_match (p ∷ ps) [] = false
tokens_match (p ∷ ps) (s ∷ ss) =
    let rest = tokens_match ps ss in
    if text_eq p (bytes "*") && not (is_empty s) then rest else if text_eq p s then rest else false

unfoldable pub subject_matches : Text → Text → Bool
subject_matches pattern_text subject =
    tokens_match (split_byte b'.' pattern_text) (split_byte b'.' subject)
