-- ===== src/Text/Decimal.antt =====
-- `format!("{n}")` and `format!("{n:02}")` of an unsigned number, and reading such a text back.
use zerochain.Prelude.{
  ℕ, zero, suc, ◌+◌, ◌-◌, ◌*◌, ◌/◌, ◌%◌, ◌<◌, ◌≡◌, ◌≢◌, refl, true, some, [], ◌∷◌, ◌++◌, ltb,
  if◌then◌else◌, Text, All, arith, Bool-cases, inl, inr,
}
use zerochain.Text.Defs.{is_digit, parse_uint}
use zerochain.Text.Laws.{digits_value, parse_uint_digits}

-- The digits of a number with at most `fuel` of them, which `n + 1` is enough for.
abbrev pub decimal_within : ℕ → ℕ → Text
decimal_within zero n = []
decimal_within (suc fuel) n =
    let rest = decimal_within fuel (n / 10) in
    if ltb n 10 then (b'0' + n) ∷ [] else rest ++ (b'0' + n % 10) ∷ []

unfoldable pub decimal : ℕ → Text
decimal n = decimal_within (suc n) n

-- `{n:02}`
unfoldable pub padded : ℕ → Text
padded n = if ltb n 10 then b'0' ∷ decimal n else decimal n

digits_value-append :
    (acc : ℕ) (s t : Text) → digits_value acc (s ++ t) ≡ digits_value (digits_value acc s) t
digits_value-append acc [] t = refl
digits_value-append acc (c ∷ s) t = digits_value-append (acc * 10 + (c - b'0')) s t

All-append_digit :
    (s : Text) (d : ℕ)
    → All (λ c. is_digit c ≡ true) s
    → d < 10
    → All (λ c. is_digit c ≡ true) (s ++ (b'0' + d) ∷ [])
All-append_digit [] d h k = (ground arith, tt)
All-append_digit (c ∷ s) d h k = (h.0, All-append_digit s d h.1 k)

append-ne_nil : (s : Text) (c : ℕ) → (s ++ c ∷ []) ≢ []
append-ne_nil [] c = λ e. cc
append-ne_nil (x ∷ s) c = λ e. cc

decimal_within-value : (fuel n : ℕ) → n < fuel → digits_value 0 (decimal_within fuel n) ≡ n
decimal_within-value zero n h = omega (arith, h)
decimal_within-value (suc fuel) n h = ground (
  arith,
  decimal_within-value fuel (n / 10),
  digits_value-append 0 (decimal_within fuel (n / 10)) ((b'0' + n % 10) ∷ []),
)

decimal_within-digits : (fuel n : ℕ) → All (λ c. is_digit c ≡ true) (decimal_within fuel n)
decimal_within-digits zero n = tt
decimal_within-digits (suc fuel) n = ground (
  arith,
  All-append_digit (decimal_within fuel (n / 10)) (n % 10) (decimal_within-digits fuel (n / 10)),
)

pub decimal-digits : (n : ℕ) → All (λ c. is_digit c ≡ true) (decimal n)
unfolding decimal
decimal-digits n = decimal_within-digits (suc n) n

decimal-ne_nil : (n : ℕ) → decimal n ≢ []
unfolding decimal
decimal-ne_nil n e = ground (arith, append-ne_nil (decimal_within n (n / 10)) (b'0' + n % 10))

-- A number that fits is read back from its decimal text.
pub parse_uint-decimal : (limit n : ℕ) → n < limit → parse_uint limit (decimal n) ≡ some n
unfolding decimal
parse_uint-decimal limit n h = ground (
  arith,
  parse_uint_digits limit (decimal n) (omega (arith, h)) (decimal-ne_nil n) (decimal-digits n),
  decimal_within-value (suc n) n,
)

pub padded-digits : (n : ℕ) → All (λ c. is_digit c ≡ true) (padded n)
unfolding padded
padded-digits n = elim (Bool-cases (ltb n 10)) [
  | inl e ↦ rw (e, All) (refl, decimal-digits n)
  | inr e ↦ rw (e, All) (decimal-digits n)
]

pub padded-ne_nil : (n : ℕ) → padded n ≢ []
unfolding padded
padded-ne_nil n e = ground (arith, decimal-ne_nil n)

-- The padded text stands for the number.
pub padded-value : (n : ℕ) → digits_value 0 (padded n) ≡ n
unfolding padded decimal
padded-value n = ground (arith, decimal_within-value (suc n) n)
