-- ===== src/Cid/RoundTrip.antt =====
-- An identifier is read back from its text, and a text that is read is, but for the case of its
-- letters, the text of what was read.
use zerochain.Prelude.{
  ℕ, zero, suc, ◌+◌, ◌*◌, ◌/◌, ◌%◌, ◌<◌, ◌≡◌, refl, ap, ◌∙◌, true, Option, none, some, List, [],
  ◌∷◌, map, Text, length, All, ok, ok_or, >>=-eq-ok, ok-injective, nat_eq, if◌then◌else◌, arith,
  Bool-cases, inl, inr, subst,
}
use zerochain.Cid.{
  Cid, bad_digit, hex_digit, hex_encode, as_hex, in_range, hex_nibble, join_nibbles, decode_pairs,
  is_ascii, hex_decode, from_hex,
}

-- Thirty-two bytes.
pub record IsCid (c : Cid) : Type 0 where
  pub size : length c ≡ 32
  pub byte : All (λ b. b < 256) c

-- ASCII letters in lower case.
abbrev pub lower_byte : ℕ → ℕ
lower_byte b = if in_range 65 90 b then b + 32 else b

hex_nibble-hex_digit : (n : ℕ) → n < 16 → hex_nibble (hex_digit n) ≡ some n
hex_nibble-hex_digit n h = ground arith

hex_digit-lt : (n : ℕ) → n < 16 → hex_digit n < 128
hex_digit-lt n h = ground arith

length-hex_encode : (bs : List ℕ) → length (hex_encode bs) ≡ 2 * length bs
unfolding hex_encode
length-hex_encode [] = omega arith
length-hex_encode (b ∷ bs) = omega (arith, length-hex_encode bs)

is_ascii-hex_encode : (bs : List ℕ) → All (λ b. b < 256) bs → is_ascii (hex_encode bs) ≡ true
unfolding hex_encode
is_ascii-hex_encode [] h = refl
is_ascii-hex_encode (b ∷ bs) h =
    let high : b / 16 < 16 = omega (arith, h.0) in
    let low : b % 16 < 16 = omega arith in
    ground
      (arith, hex_digit-lt (b / 16) high, hex_digit-lt (b % 16) low, is_ascii-hex_encode bs h.1)

decode_pairs-hex_encode :
    (i : ℕ) (bs : List ℕ) → All (λ b. b < 256) bs → decode_pairs i (hex_encode bs) ≡ ok bs
unfolding hex_encode decode_pairs
decode_pairs-hex_encode i [] h = refl
decode_pairs-hex_encode i (b ∷ bs) h =
    let high = hex_nibble-hex_digit (b / 16) (omega (arith, h.0)) in
    let low = hex_nibble-hex_digit (b % 16) (omega arith) in
    let whole : join_nibbles (b / 16) (b % 16) ≡ b = omega arith in
    ground (arith, high, low, decode_pairs-hex_encode (i + 2) bs h.1, whole)

-- The text of an identifier of 32 bytes is read back as that identifier.
pub from_hex-as_hex : (c : Cid) → IsCid c → from_hex (as_hex c) ≡ ok c
unfolding from_hex hex_decode as_hex
from_hex-as_hex c h =
    let size : length (hex_encode c) ≡ 64 = omega (arith, length-hex_encode c, h.size) in
    ground (arith, size, is_ascii-hex_encode c h.byte, decode_pairs-hex_encode 0 c h.byte)

nibble_back : (b n : ℕ) → hex_nibble b ≡ some n → (n < 16) × (hex_digit n ≡ lower_byte b)
nibble_back b n h = ground arith

ok_or-eq-ok {ℓ κ} :
    {A : Type ℓ} {E : Type κ} (o : Option A) (e : E) {a : A} → ok_or o e ≡ ok a → o ≡ some a
ok_or-eq-ok none e h = absurd cc
ok_or-eq-ok (some b) e h = ap some (ok-injective h)

-- What the loop over `n` pairs of digits made of a text.
record Decoded (n : ℕ) (s : Text) (bs : List ℕ) : Type 0 where
  size : length bs ≡ n
  byte : All (λ b. b < 256) bs
  text : hex_encode bs ≡ map lower_byte s

decode_pairs-Decoded :
    (n i : ℕ) (s : Text) (bs : List ℕ)
    → length s ≡ 2 * n
    → decode_pairs i s ≡ ok bs
    → Decoded n s bs
unfolding decode_pairs hex_encode
decode_pairs-Decoded zero i [] bs l h =
    subst (Decoded 0 []) (ok-injective h) (record { size = refl; byte = tt; text = refl })
decode_pairs-Decoded (suc n) i [] bs l h = absurd (omega arith)
decode_pairs-Decoded n i (x ∷ []) bs l h = absurd (omega arith)
decode_pairs-Decoded zero i (x ∷ y ∷ s) bs l h = absurd (omega arith)
decode_pairs-Decoded (suc n) i (x ∷ y ∷ s) bs l h =
    let (hi, at_hi, h₁) = >>=-eq-ok (ok_or (hex_nibble x) (bad_digit i)) _ h in
    let (lo, at_lo, h₂) = >>=-eq-ok (ok_or (hex_nibble y) (bad_digit (i + 1))) _ h₁ in
    let (rest, at_rest, h₃) = >>=-eq-ok (decode_pairs (i + 2) s) _ h₂ in
    let (hi_small, hi_text) = nibble_back x hi (ok_or-eq-ok _ _ at_hi) in
    let (lo_small, lo_text) = nibble_back y lo (ok_or-eq-ok _ _ at_lo) in
    let d = decode_pairs-Decoded n (i + 2) s rest (omega (arith, l)) at_rest in
    let high : join_nibbles hi lo / 16 ≡ hi = omega (arith, lo_small) in
    let low : join_nibbles hi lo % 16 ≡ lo = omega (arith, lo_small) in
    subst (Decoded (suc n) (x ∷ y ∷ s)) (ok-injective h₃) (record {
      size = ap suc d.size;
      byte = (omega (arith, hi_small, lo_small), d.byte);
      text = λ j. (ap hex_digit high ∙ hi_text) j ∷ (ap hex_digit low ∙ lo_text) j ∷ d.text j;
    })

-- A text that is read gives an identifier of 32 bytes, whose own text is the one that was read in
-- lower case.
pub as_hex-from_hex :
    (s : Text) (c : Cid) → from_hex s ≡ ok c → IsCid c × (as_hex c ≡ map lower_byte s)
unfolding from_hex hex_decode as_hex
as_hex-from_hex s c h = elim (Bool-cases (nat_eq (length s) 64)) [
  | inr e ↦ absurd (ground (arith, e))
  | inl e ↦ elim (Bool-cases (is_ascii s)) [
    | inr f ↦ absurd (ground (arith, e, f))
    | inl f ↦
        let d = decode_pairs-Decoded 32 0 s c (ground arith) (rw f at (rw e at h)) in
        (record { size = d.size; byte = d.byte }, d.text)
  ]
]
