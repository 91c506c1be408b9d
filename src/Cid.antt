-- ===== src/Cid.antt =====
-- crates/zerochain-cas/src/cid.rs: content identifiers and their hexadecimal texts. The 32 bytes of an
-- identifier are numbers below 256; the hash that makes them is not modelled.
pub mod RoundTrip
mod Tests
use zerochain.Prelude.{
  ℕ, zero, suc, ◌+◌, ◌-◌, ◌*◌, ◌/◌, ◌%◌, Bool, not, ◌&&◌, Option, none, some, List, [], ◌∷◌, Text,
  length, all, Result, ok, err, ok_or, ◌>>=◌, nat_eq, leb, ltb, if◌then◌else◌,
}

abbrev pub Cid : Type 0
Cid = List ℕ

-- `CasError::InvalidCid`, by its message.
pub data InvalidCid : Type 0 where
  wrong_length : ℕ → InvalidCid
  not_ascii : InvalidCid
  bad_digit : ℕ → InvalidCid

-- One digit of `{:02x}`.
abbrev pub hex_digit : ℕ → ℕ
hex_digit n = if ltb n 10 then n + 48 else n + 87

unfoldable pub hex_encode : List ℕ → Text
hex_encode [] = []
hex_encode (b ∷ bs) = hex_digit (b / 16) ∷ hex_digit (b % 16) ∷ hex_encode bs

unfoldable pub as_hex : Cid → Text
as_hex cid = hex_encode cid

abbrev pub in_range : ℕ → ℕ → ℕ → Bool
in_range lo hi b = leb lo b && leb b hi

abbrev pub hex_nibble : ℕ → Option ℕ
hex_nibble b =
    if in_range 48 57 b
    then some (b - 48)
    else if in_range 97 102 b
    then some (b - 97 + 10)
    else if in_range 65 70 b
    then some (b - 65 + 10)
    else none

-- `(hi << 4) | lo` of a byte: the two parts, both below 16, have no bit in common.
abbrev pub join_nibbles : ℕ → ℕ → ℕ
join_nibbles hi lo = hi * 16 + lo

-- The loop over the pairs of digits, at position `i`. A single digit at the end is not met, since the
-- length is even.
unfoldable pub decode_pairs : ℕ → Text → Result InvalidCid (List ℕ)
decode_pairs i [] = ok []
decode_pairs i (x ∷ []) = ok []
decode_pairs i (x ∷ y ∷ s) = do
  hi ← ok_or (hex_nibble x) (bad_digit i)
  lo ← ok_or (hex_nibble y) (bad_digit (i + 1))
  rest ← decode_pairs (i + 2) s
  ok (join_nibbles hi lo ∷ rest)

abbrev pub is_ascii : Text → Bool
is_ascii s = all (λ c. ltb c 128) s

unfoldable pub hex_decode : Text → Result InvalidCid (List ℕ)
hex_decode hex =
    if not (nat_eq (length hex) 64)
    then err (wrong_length (length hex))
    else if not (is_ascii hex)
    then err not_ascii
    else decode_pairs 0 hex

unfoldable pub from_hex : Text → Result InvalidCid Cid
from_hex hex =
    if not (nat_eq (length hex) 64) then err (wrong_length (length hex)) else hex_decode hex
