-- ===== src/Cid/Tests.antt =====
-- An identifier of 32 equal bytes, and its text in capitals.
use zerochain.Prelude.{
  ℕ, ◌<◌, ◌≡◌, refl, true, List, [], ◌∷◌, ok, All, all, ltb, Text, bytes, arith,
}
use zerochain.Cid.{Cid, from_hex, hex_decode, decode_pairs}
use zerochain.Cid.RoundTrip.{IsCid}

abbrev same_bytes : Cid
same_bytes =
    171 ∷ 171 ∷ 171 ∷ 171 ∷ 171 ∷ 171 ∷ 171 ∷ 171 ∷ 171 ∷ 171 ∷ 171 ∷ 171 ∷ 171 ∷ 171 ∷ 171 ∷ 171
    ∷ 171 ∷ 171 ∷ 171 ∷ 171 ∷ 171 ∷ 171 ∷ 171 ∷ 171 ∷ 171 ∷ 171 ∷ 171 ∷ 171 ∷ 171 ∷ 171 ∷ 171 ∷ 171
    ∷ []

all_small : (bs : List ℕ) → all (λ b. ltb b 256) bs ≡ true → All (λ b. b < 256) bs
all_small [] h = tt
all_small (b ∷ bs) h = (ground arith, all_small bs (ground arith))

same_bytes-IsCid : IsCid same_bytes
same_bytes-IsCid = record { size = refl; byte = all_small same_bytes refl }

abbrev capitals : Text
capitals = bytes "ABABABABABABABABABABABABABABABABABABABABABABABABABABABABABABABAB"

capitals_read : from_hex capitals ≡ ok same_bytes
unfolding from_hex hex_decode decode_pairs
capitals_read = refl
