-- ===== src/Text/Laws.antt =====
-- Laws of the text functions: searching a byte, spans of a byte class, numbers.
use zerochain.Prelude.{
  ℕ, zero, suc, ◌+◌, ◌-◌, ◌*◌, ◌≤◌, ◌<◌, ◌≡◌, ◌≢◌, refl, ap, Bool, true, false, none, some, List,
  [], ◌∷◌, ◌++◌, ltb, if◌then◌else◌, Text, length, take, drop, All, arith, Bool-cases, inl, inr,
}
use zerochain.Text.Defs.{
  is_digit, find_byte, take_while, drop_while, parse_digits, parse_uint, starts_with_class,
}

module _ {ℓ} {A : Type ℓ} where
  pub take-length_append : (xs ys : List A) → take (length xs) (xs ++ ys) ≡ xs
  take-length_append [] ys = refl
  take-length_append (x ∷ xs) ys = ap (λ l. x ∷ l) (take-length_append xs ys)

  pub drop-length_append : (xs ys : List A) → drop (length xs) (xs ++ ys) ≡ ys
  drop-length_append [] ys = refl
  drop-length_append (x ∷ xs) ys = drop-length_append xs ys

  pub drop-suc_lem :
      (xs : List A) (y : A) (ys : List A) → drop (suc (length xs)) (xs ++ y ∷ ys) ≡ ys
  drop-suc_lem [] y ys = refl
  drop-suc_lem (x ∷ xs) y ys = drop-suc_lem xs y ys

-- A byte that is found ends a prefix that does not hold it.
pub find_byte-split :
    (c : ℕ) (s : Text) (i : ℕ) → find_byte c s ≡ some i → s ≡ take i s ++ c ∷ drop (suc i) s
find_byte-split c [] i h = cc
find_byte-split c (x ∷ s) zero h = ground (arith, find_byte-split c s 0)
find_byte-split c (x ∷ s) (suc i) h = ground (arith, find_byte-split c s i)

pub find_byte-append :
    (c : ℕ) (xs ys : Text) → All (λ x. x ≢ c) xs → find_byte c (xs ++ c ∷ ys) ≡ some (length xs)
find_byte-append c [] ys h = ground arith
find_byte-append c (x ∷ xs) ys h = ground (arith, find_byte-append c xs ys h.1)

module _ (p : ℕ → Bool) where
  pub take-take_while : (s : Text) → take (length (take_while p s)) s ≡ take_while p s
  take-take_while [] = refl
  take-take_while (c ∷ s) = ground (arith, take-take_while s)

  pub drop-take_while : (s : Text) → drop (length (take_while p s)) s ≡ drop_while p s
  drop-take_while [] = refl
  drop-take_while (c ∷ s) = ground (arith, drop-take_while s)

  pub take_while-drop_while : (s : Text) → take_while p s ++ drop_while p s ≡ s
  take_while-drop_while [] = refl
  take_while-drop_while (c ∷ s) = ground (arith, take_while-drop_while s)

  pub take_while-All : (s : Text) → All (λ c. p c ≡ true) (take_while p s)
  take_while-All [] = tt
  take_while-All (c ∷ s) = elim (Bool-cases (p c)) [
    | inl e ↦ rw e (e, take_while-All s)
    | inr e ↦ rw e tt
  ]

  pub take_while-append :
      (xs ys : Text)
      → All (λ c. p c ≡ true) xs
      → starts_with_class p ys ≡ false
      → take_while p (xs ++ ys) ≡ xs
  take_while-append [] [] h k = refl
  take_while-append [] (y ∷ ys) h k = rw k
  take_while-append (x ∷ xs) ys h k = rw h.0 (ap (λ l. x ∷ l) (take_while-append xs ys h.1 k))

-- The number that a run of digits stands for.
abbrev pub digits_value : ℕ → Text → ℕ
digits_value acc [] = acc
digits_value acc (c ∷ s) = digits_value (acc * 10 + (c - b'0')) s

pub le-digits_value : (acc : ℕ) (s : Text) → acc ≤ digits_value acc s
le-digits_value acc [] = omega arith
le-digits_value acc (c ∷ s) = omega (arith, le-digits_value (acc * 10 + (c - b'0')) s)

pub parse_digits_lem :
    (limit acc : ℕ) (s : Text)
    → All (λ c. is_digit c ≡ true) s
    → acc < limit
    → parse_digits limit acc s
      ≡ (if ltb (digits_value acc s) limit then some (digits_value acc s) else none)
parse_digits_lem limit acc [] h k = ground arith
parse_digits_lem limit acc (c ∷ s) h k = rw h.0 (
    ground (
      arith,
      parse_digits_lem limit (acc * 10 + (c - b'0')) s h.1,
      le-digits_value (acc * 10 + (c - b'0')) s,
    ))

-- A digit run is read to its value exactly where that is below the limit.
pub parse_uint_digits :
    (limit : ℕ) (s : Text)
    → 0 < limit
    → s ≢ []
    → All (λ c. is_digit c ≡ true) s
    → parse_uint limit s ≡ (if ltb (digits_value 0 s) limit then some (digits_value 0 s) else none)
parse_uint_digits limit [] pos ne h = absurd (ne refl)
parse_uint_digits limit (c ∷ []) pos ne h = parse_digits_lem limit 0 (c ∷ []) h pos
parse_uint_digits limit (c ∷ d ∷ s) pos ne h =
    ground (arith, parse_digits_lem limit 0 (c ∷ d ∷ s) h pos, h.0)
