-- ===== src/Prelude/Classes.antt =====
-- The traits `Eq` and `Ord` of the source's keys, with instances for numbers and texts.
use Prim.Native.Nat.{ℕ, compare, Ordering}
use Prim.Native.Char.{code}
use Prim.Native.String.{String}
use mathlib.Core.Path.{◌≡◌, refl}
use mathlib.Core.Logic.{◌↔◌}
use mathlib.Core.Bool.{Bool, true, false, ◌&&◌}
use mathlib.Core.List.{List, [], ◌∷◌}
use native.Mathlib.Omega.{arith}
use zerochain.Prelude.Tests.{nat_eq, nat_eq_iff}

abbrev pub Text : Type 0
Text = List ℕ

-- The bytes of an ASCII literal.
abbrev pub bytes : String → Text
bytes String.[] = []
bytes (String.◌∷◌ c s) = code c ∷ bytes s

abbrev pub text_eq : Text → Text → Bool
text_eq [] [] = true
text_eq [] (y ∷ ys) = false
text_eq (x ∷ xs) [] = false
text_eq (x ∷ xs) (y ∷ ys) = nat_eq x y && text_eq xs ys

pub text_eq_iff : (s t : Text) → (text_eq s t ≡ true) ↔ (s ≡ t)
text_eq_iff [] [] = ground arith
text_eq_iff [] (y ∷ ys) = ground arith
text_eq_iff (x ∷ xs) [] = ground arith
text_eq_iff (x ∷ xs) (y ∷ ys) = ground (arith, text_eq_iff xs ys)

-- `str::cmp`: lexicographic by bytes.
abbrev pub text_cmp : Text → Text → Ordering
text_cmp [] [] = Ordering.eq
text_cmp [] (y ∷ ys) = Ordering.lt
text_cmp (x ∷ xs) [] = Ordering.gt
text_cmp (x ∷ xs) (y ∷ ys) =
    let rest = text_cmp xs ys in
    elim (compare x y) [
      | Ordering.lt ↦ Ordering.lt
      | Ordering.eq ↦ rest
      | Ordering.gt ↦ Ordering.gt
    ]

abbrev pub flip : Ordering → Ordering
flip Ordering.lt = Ordering.gt
flip Ordering.eq = Ordering.eq
flip Ordering.gt = Ordering.lt

pub record Eq {ℓ} (A : Type ℓ) : Type ℓ where
  pub beq : A → A → Bool
  pub beq_iff : (x y : A) → (beq x y ≡ true) ↔ (x ≡ y)

pub record Ord {ℓ} (A : Type ℓ) : Type ℓ where
  pub cmp : A → A → Ordering
  pub cmp_eq : (a b : A) → (cmp a b ≡ Ordering.eq) ↔ (a ≡ b)
  pub cmp_flip : (a b : A) → cmp b a ≡ flip (cmp a b)
  pub cmp_trans :
      (a b c : A) → cmp a b ≡ Ordering.lt → cmp b c ≡ Ordering.lt → cmp a c ≡ Ordering.lt

infix 50 ◌==◌
abbrev pub ◌==◌ {ℓ} : {A : Type ℓ} ⦃e : Eq A⦄ → A → A → Bool
◌==◌ ⦃e⦄ = e.beq

pub ==_iff {ℓ} : {A : Type ℓ} ⦃e : Eq A⦄ (a b : A) → ((a == b) ≡ true) ↔ (a ≡ b)
==_iff ⦃e⦄ = e.beq_iff

pub compare_eq : (a b : ℕ) → (compare a b ≡ Ordering.eq) ↔ (a ≡ b)
compare_eq a b = ground arith

pub compare-flip : (a b : ℕ) → compare b a ≡ flip (compare a b)
compare-flip a b = ground arith

pub compare_trans :
    (a b c : ℕ) → compare a b ≡ Ordering.lt → compare b c ≡ Ordering.lt → compare a c ≡ Ordering.lt
compare_trans a b c h k = ground arith

pub text_cmp_eq : (s t : Text) → (text_cmp s t ≡ Ordering.eq) ↔ (s ≡ t)
text_cmp_eq [] [] = ground arith
text_cmp_eq [] (y ∷ ys) = ground arith
text_cmp_eq (x ∷ xs) [] = ground arith
text_cmp_eq (x ∷ xs) (y ∷ ys) = ground (arith, text_cmp_eq xs ys)

pub text_cmp-flip : (s t : Text) → text_cmp t s ≡ flip (text_cmp s t)
text_cmp-flip [] [] = refl
text_cmp-flip [] (y ∷ ys) = refl
text_cmp-flip (x ∷ xs) [] = refl
text_cmp-flip (x ∷ xs) (y ∷ ys) = ground (arith, text_cmp-flip xs ys)

pub text_cmp_trans :
    (s t u : Text)
    → text_cmp s t ≡ Ordering.lt
    → text_cmp t u ≡ Ordering.lt
    → text_cmp s u ≡ Ordering.lt
text_cmp_trans [] [] u h k = cc
text_cmp_trans [] (y ∷ ys) [] h k = cc
text_cmp_trans [] (y ∷ ys) (z ∷ zs) h k = refl
text_cmp_trans (x ∷ xs) [] u h k = cc
text_cmp_trans (x ∷ xs) (y ∷ ys) [] h k = cc
text_cmp_trans (x ∷ xs) (y ∷ ys) (z ∷ zs) h k = ground (arith, text_cmp_trans xs ys zs)

instance abbrev pub nat_eq_instance : Eq ℕ
nat_eq_instance = record { beq = nat_eq; beq_iff = nat_eq_iff }

instance abbrev pub text_eq_instance : Eq Text
text_eq_instance = record { beq = text_eq; beq_iff = text_eq_iff }

instance abbrev pub nat_ord : Ord ℕ
nat_ord = record {
  cmp = compare;
  cmp_eq = compare_eq;
  cmp_flip = compare-flip;
  cmp_trans = compare_trans;
}

instance abbrev pub text_ord : Ord Text
text_ord = record {
  cmp = text_cmp;
  cmp_eq = text_cmp_eq;
  cmp_flip = text_cmp-flip;
  cmp_trans = text_cmp_trans;
}
