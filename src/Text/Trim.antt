-- ===== src/Text/Trim.antt =====
-- `str::trim`: the characters with the Unicode property White_Space, by their UTF-8 encodings of one,
-- two and three bytes, are taken off at both ends.
use mathlib.Core.List.{reverse}
use zerochain.Prelude.{ℕ, Bool, ◌&&◌, ◌||◌, [], ◌∷◌, leb, nat_eq, if◌then◌else◌, Text}

abbrev white_1 : ℕ → Bool
white_1 a = (leb 9 a && leb a 13) || nat_eq a 32

abbrev white_2 : ℕ → ℕ → Bool
white_2 a b = nat_eq a 0xc2 && (nat_eq b 0x85 || nat_eq b 0xa0)

abbrev white_3 : ℕ → ℕ → ℕ → Bool
white_3 a b c =
    (nat_eq a 0xe1 && nat_eq b 0x9a && nat_eq c 0x80)
    || (nat_eq a 0xe2 && nat_eq b 0x80 && (leb 0x80 c && leb c 0x8a))
    || (nat_eq a 0xe2 && nat_eq b 0x80 && (nat_eq c 0xa8 || nat_eq c 0xa9 || nat_eq c 0xaf))
    || (nat_eq a 0xe2 && nat_eq b 0x81 && nat_eq c 0x9f)
    || (nat_eq a 0xe3 && nat_eq b 0x80 && nat_eq c 0x80)

-- Takes encodings off the front of a text, as the three tests tell them.
skip_white : (ℕ → ℕ → Bool) → (ℕ → ℕ → ℕ → Bool) → Text → Text
skip_white w2 w3 [] = []
skip_white w2 w3 (a ∷ []) = if white_1 a then [] else a ∷ []
skip_white w2 w3 (a ∷ b ∷ []) =
    let rest = skip_white w2 w3 (b ∷ []) in
    if white_1 a then rest else if w2 a b then [] else a ∷ b ∷ []
skip_white w2 w3 (a ∷ b ∷ c ∷ s) =
    let rest_1 = skip_white w2 w3 (b ∷ c ∷ s) in
    let rest_2 = skip_white w2 w3 (c ∷ s) in
    let rest_3 = skip_white w2 w3 s in
    if white_1 a
    then rest_1
    else if w2 a b
    then rest_2
    else if w3 a b c
    then rest_3
    else a ∷ b ∷ c ∷ s

unfoldable pub trim_start : Text → Text
unfolding skip_white
trim_start s = skip_white white_2 white_3 s

unfoldable pub trim_end : Text → Text
unfolding skip_white
trim_end s = reverse (skip_white (λ a b. white_2 b a) (λ a b c. white_3 c b a) (reverse s))

unfoldable pub trim : Text → Text
unfolding trim_start trim_end
trim s = trim_end (trim_start s)
