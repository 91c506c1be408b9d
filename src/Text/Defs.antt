-- ===== src/Text/Defs.antt =====
-- Byte classes, searching, and `parse::<u32>`.
use zerochain.Prelude.{
  ℕ, suc, ◌+◌, ◌-◌, ◌*◌, Bool, true, false, ◌&&◌, ◌||◌, Option, none, some, [], ◌∷◌, leb, ltb,
  nat_eq, if◌then◌else◌, Text,
}

-- `is_ascii_digit`, `is_ascii_lowercase`
abbrev pub is_digit : ℕ → Bool
is_digit c = leb b'0' c && leb c b'9'

abbrev pub is_lower : ℕ → Bool
is_lower c = leb b'a' c && leb c b'z'

abbrev pub is_empty : Text → Bool
is_empty [] = true
is_empty (c ∷ s) = false

abbrev pub starts_with_class : (ℕ → Bool) → Text → Bool
starts_with_class p [] = false
starts_with_class p (c ∷ s) = p c

-- `s.find(c)`
abbrev pub find_byte : ℕ → Text → Option ℕ
find_byte c [] = none
find_byte c (x ∷ s) =
    let rest = find_byte c s in
    if nat_eq x c then some 0 else elim rest [ none ↦ none | some i ↦ some (suc i) ]

abbrev pub take_while : (ℕ → Bool) → Text → Text
take_while p [] = []
take_while p (c ∷ s) = let rest = take_while p s in if p c then c ∷ rest else []

abbrev pub drop_while : (ℕ → Bool) → Text → Text
drop_while p [] = []
drop_while p (c ∷ s) = let rest = drop_while p s in if p c then rest else c ∷ s

-- `s.contains(c)`
abbrev pub contains_byte : ℕ → Text → Bool
contains_byte c [] = false
contains_byte c (x ∷ s) = nat_eq x c || contains_byte c s

-- The digits of an unsigned number below `limit`, with checked arithmetic.
abbrev pub parse_digits : (limit acc : ℕ) → Text → Option ℕ
parse_digits limit acc [] = some acc
parse_digits limit acc (c ∷ s) =
    let n = acc * 10 + (c - b'0') in
    let rest = parse_digits limit n s in
    if is_digit c then (if ltb n limit then rest else none) else none

-- `str::parse` at an unsigned type with `limit` values: a leading `+` is allowed, no text is not.
abbrev pub parse_uint : ℕ → Text → Option ℕ
parse_uint limit [] = none
parse_uint limit (c ∷ []) = parse_digits limit 0 (c ∷ [])
parse_uint limit (c ∷ d ∷ s) =
    if nat_eq c b'+' then parse_digits limit 0 (d ∷ s) else parse_digits limit 0 (c ∷ d ∷ s)
