-- ===== src/Auth/Constant.antt =====
-- The comparison that does not stop early is equality.
use Prim.Native.Nat.{bit_or, bit_xor}
use zerochain.Prelude.{
  ltb, text_eq, text_eq_iff, Bool-cases, inl, inr, ℕ, zero, suc, ◌<◌, ◌≡◌, ◌↔◌, refl, ap, Bool,
  true, false, not, ◌&&◌, [], ◌∷◌, Text, nat_eq, nat_eq_iff, length, All, arith,
}
use zerochain.Auth.{constant_time_eq, or_differences}

all_below : ℕ → (ℕ → Bool) → Bool
all_below zero p = true
all_below (suc n) p = p n && all_below n p

all_below_lem : (n : ℕ) (p : ℕ → Bool) (x : ℕ) → all_below n p ≡ true → x < n → p x ≡ true
unfolding all_below
all_below_lem zero p x h l = absurd (omega arith)
all_below_lem (suc n) p x h l = ground (arith, all_below_lem n p x)

abbrev same : Bool → Bool → Bool
same true b = b
same false b = not b

-- At two bytes: nothing differs exactly in equal ones, and the result is a byte.
abbrev xor_holds : ℕ → ℕ → Bool
xor_holds x y = same (nat_eq (bit_xor x y) 0) (nat_eq x y) && ltb (bit_xor x y) 256

abbrev or_holds : ℕ → ℕ → Bool
or_holds x y = same (nat_eq (bit_or x y) 0) (nat_eq x 0 && nat_eq y 0) && ltb (bit_or x y) 256

xor_table : all_below 256 (λ x. all_below 256 (xor_holds x)) ≡ true
unfolding all_below
xor_table = refl

or_table : all_below 256 (λ x. all_below 256 (or_holds x)) ≡ true
unfolding all_below
or_table = refl

xor_lem : (x y : ℕ) → x < 256 → y < 256 → xor_holds x y ≡ true
xor_lem x y h k =
    all_below_lem 256 (xor_holds x) y
      (all_below_lem 256 (λ a. all_below 256 (xor_holds a)) x xor_table h) k

or_lem : (x y : ℕ) → x < 256 → y < 256 → or_holds x y ≡ true
or_lem x y h k =
    all_below_lem 256 (or_holds x) y
      (all_below_lem 256 (λ a. all_below 256 (or_holds a)) x or_table h) k

abbrev pub IsBytes : Text → Type 0
IsBytes = All (λ b. b < 256)

or_differences_lem :
    (a b : Text) (acc : ℕ)
    → IsBytes a
    → IsBytes b
    → acc < 256
    → length a ≡ length b
    → nat_eq (or_differences a b acc) 0 ≡ (nat_eq acc 0 && text_eq a b)
or_differences_lem [] [] acc h k l e = ground arith
or_differences_lem [] (y ∷ b) acc h k l e = absurd (omega arith)
or_differences_lem (x ∷ a) [] acc h k l e = absurd (omega arith)
or_differences_lem (x ∷ a) (y ∷ b) acc h k l e =
    let differ = bit_xor x y in
    let holds = xor_lem x y h.0 k.0 in
    let small : differ < 256 = ground (arith, holds) in
    let joined = or_lem acc differ l small in
    let next : bit_or acc differ < 256 = ground (arith, joined) in
    let rest = or_differences_lem a b (bit_or acc differ) h.1 k.1 next (omega arith) in
    ground (arith, holds, joined, rest)

-- Two texts of bytes are found equal exactly if they are.
pub constant_time_eq_iff :
    (a b : Text) → IsBytes a → IsBytes b → (constant_time_eq a b ≡ true) ↔ (a ≡ b)
unfolding constant_time_eq
constant_time_eq_iff a b h k = (
  λ e. elim (Bool-cases (nat_eq (length a) (length b))) [
    | inl s ↦
        let whole = or_differences_lem a b 0 h k (omega arith) ((nat_eq_iff _ _).0 s) in
        (text_eq_iff a b).0 (ground (arith, s, whole))
    | inr d ↦ absurd (ground (arith, d))
  ],
  λ e.
      let size : length a ≡ length b = ap length e in
      let whole = or_differences_lem a b 0 h k (omega arith) size in
      ground (arith, size, whole, (text_eq_iff a b).1 e),
)
