-- ===== src/Broker/Literal.antt =====
-- What a pattern matches, token by token, and that a pattern without wildcards matches itself only.
use zerochain.Prelude.{
  ℕ, ◌≡◌, ◌≢◌, ◌↔◌, ◌⊎◌, inl, inr, refl, sym, ap, ◌∙◌, true, not, ◌&&◌, List, [], ◌∷◌, ◌++◌, Text,
  bytes, text_eq, text_eq_iff, nat_eq, nat_eq_iff, All, if◌then◌else◌, arith, Bool-cases,
}
use zerochain.Text.{is_empty}
use zerochain.Broker.{subject_matches, tokens_match, split_byte, onto_first}

-- A token of a pattern against one of a subject: a star takes any token but the empty one.
abbrev pub Token : Text → Text → Type 0
Token p s = ((p ≡ bytes "*") × (s ≢ [])) ⊎ (p ≡ s)

-- As many tokens on both sides, matching one by one.
abbrev pub Match : List Text → List Text → Type 0
Match [] [] = Unit
Match [] (s ∷ ss) = ⊥
Match (p ∷ ps) [] = ⊥
Match (p ∷ ps) (s ∷ ss) = Token p s × Match ps ss

Token-of_test :
    (p s : Text)
    → (if text_eq p (bytes "*") && not (is_empty s) then true else text_eq p s) ≡ true
    → Token p s
Token-of_test p s h = elim (Bool-cases (text_eq p s)) [
  | inl same ↦ inr ((text_eq_iff p s).0 same)
  | inr other ↦ inl ((text_eq_iff p (bytes "*")).0 (ground arith), λ e. ground (arith, e))
]

Match-of_test : (ps ss : List Text) → tokens_match ps ss ≡ true → Match ps ss
Match-of_test [] [] h = tt
Match-of_test [] (s ∷ ss) h = absurd cc
Match-of_test (p ∷ ps) [] h = absurd cc
Match-of_test (p ∷ ps) (s ∷ ss) h =
    (Token-of_test p s (ground arith), Match-of_test ps ss (ground arith))

tokens_match-Match : (ps ss : List Text) → Match ps ss → tokens_match ps ss ≡ true
tokens_match-Match [] [] m = refl
tokens_match-Match [] (s ∷ ss) m = absurd m
tokens_match-Match (p ∷ ps) [] m = absurd m
tokens_match-Match (p ∷ ps) (s ∷ ss) (t, m) = elim t [
  | inl (star, some_token) ↦
      ground (arith, (text_eq_iff p (bytes "*")).1 star, some_token, tokens_match-Match ps ss m)
  | inr same ↦ ground (arith, (text_eq_iff p s).1 same, tokens_match-Match ps ss m)
]

-- A subject is matched exactly if it has as many tokens as the pattern, each of which is the token of
-- the pattern at its place, or any token but the empty one where the pattern has a star.
pub subject_matches_iff :
    (pattern_text subject : Text)
    → (subject_matches pattern_text subject ≡ true)
      ↔ Match (split_byte b'.' pattern_text) (split_byte b'.' subject)
unfolding subject_matches
subject_matches_iff p s = (
  Match-of_test (split_byte b'.' p) (split_byte b'.' s),
  tokens_match-Match (split_byte b'.' p) (split_byte b'.' s),
)

-- The tokens with the byte between them.
abbrev join_byte : ℕ → List Text → Text
join_byte b [] = []
join_byte b (t ∷ []) = t
join_byte b (t ∷ u ∷ ts) = t ++ b ∷ join_byte b (u ∷ ts)

join-onto_first : (b c : ℕ) (ts : List Text) → join_byte b (onto_first c ts) ≡ c ∷ join_byte b ts
join-onto_first b c [] = refl
join-onto_first b c (t ∷ []) = refl
join-onto_first b c (t ∷ u ∷ ts) = refl

join-split_byte : (b : ℕ) (s : Text) → join_byte b (split_byte b s) ≡ s
join-split_byte b [] = refl
join-split_byte b (c ∷ s) = elim (Bool-cases (nat_eq c b)) [
  | inl e ↦ rw e (
      head_apart (split_byte b s) (split-cons b s)
      ∙ ap (λ l. b ∷ l) (join-split_byte b s)
      ∙ ap (λ x. x ∷ s) (sym ((nat_eq_iff c b).0 e)))
  | inr e ↦ rw e (join-onto_first b c (split_byte b s) ∙ ap (λ l. c ∷ l) (join-split_byte b s))
]
  where
    split-cons : (b : ℕ) (s : Text) → split_byte b s ≢ []
    split-cons b [] e = absurd cc
    split-cons b (c ∷ s) e = ground (arith, e)

    head_apart : (ts : List Text) → ts ≢ [] → join_byte b ([] ∷ ts) ≡ b ∷ join_byte b ts
    head_apart [] h = absurd (h refl)
    head_apart (t ∷ ts) h = refl

-- No token is a star.
abbrev pub IsLiteral : List Text → Type 0
IsLiteral = All (λ t. t ≢ bytes "*")

literal-Match : (ps ss : List Text) → IsLiteral ps → Match ps ss → ps ≡ ss
literal-Match [] [] l m = refl
literal-Match [] (s ∷ ss) l m = absurd m
literal-Match (p ∷ ps) [] l m = absurd m
literal-Match (p ∷ ps) (s ∷ ss) l (t, m) = elim t [
  | inl (star, _) ↦ absurd (l.0 star)
  | inr same ↦ λ i. same i ∷ literal-Match ps ss l.1 m i
]

self-Match : (ps : List Text) → Match ps ps
self-Match [] = tt
self-Match (p ∷ ps) = (inr refl, self-Match ps)

-- A pattern without stars matches the subject that is the same text, and no other.
pub subject_matches-IsLiteral :
    (pattern_text subject : Text)
    → IsLiteral (split_byte b'.' pattern_text)
    → (subject_matches pattern_text subject ≡ true) ↔ (pattern_text ≡ subject)
subject_matches-IsLiteral p s l = (
  λ h.
      sym (join-split_byte b'.' p)
      ∙ ap (join_byte b'.') (literal-Match _ _ l ((subject_matches_iff p s).0 h))
      ∙ join-split_byte b'.' s,
  λ e. (subject_matches_iff p s).1 (rw e (self-Match (split_byte b'.' s))),
)
