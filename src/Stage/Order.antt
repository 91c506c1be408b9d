-- ===== src/Stage/Order.antt =====
-- The order of stage identifiers: by sequence number, then by the text before the first underscore.
use mathlib.Core.List.{append_assoc}
use mathlib.Core.Path.{ap₂}
use zerochain.Prelude.{
  ℕ, ◌<◌, refl, sym, ap, ◌∙◌, false, true, not, nat_eq, [], ◌∷◌, ◌++◌, All, ok, ◌≡◌, ◌≢◌, ◌↔◌,
  Ordering, Text, text_cmp, text_cmp_eq, text_cmp-flip, text_cmp_trans, flip, arith, nat_ord,
}
use zerochain.Text.{
  is_digit, contains_byte, starts_with_class, take_while, take_while-append, digits_value,
}
use zerochain.Stage.Shape.{IsLetter, parse-eq-ok_iff}
use zerochain.Prelude.SortLaws.{preorder-of_order}
use zerochain.Stage.{StageId, parse, split_first, cmp, key_cmp, sort_key}

key_cmp_eq : (a b : ℕ × Text) → (key_cmp a b ≡ Ordering.eq) ↔ (a ≡ b)
key_cmp_eq (a, s) (b, t) = ground (arith, text_cmp_eq s t)

key_cmp-flip : (a b : ℕ × Text) → key_cmp b a ≡ flip (key_cmp a b)
key_cmp-flip (a, s) (b, t) = ground (arith, text_cmp-flip s t)

key_cmp_trans :
    (a b c : ℕ × Text)
    → key_cmp a b ≡ Ordering.lt
    → key_cmp b c ≡ Ordering.lt
    → key_cmp a c ≡ Ordering.lt
key_cmp_trans (a, s) (b, t) (c, u) h k = ground (arith, text_cmp_trans s t u)

pub cmp-flip : (a b : StageId) → cmp b a ≡ flip (cmp a b)
unfolding cmp
cmp-flip a b = key_cmp-flip (sort_key a) (sort_key b)

-- If one stage identifier is below a second and that is below a third, the first is below the
-- third.
pub cmp_trans :
    (a b c : StageId) → cmp a b ≡ Ordering.lt → cmp b c ≡ Ordering.lt → cmp a c ≡ Ordering.lt
unfolding cmp
cmp_trans a b c = key_cmp_trans (sort_key a) (sort_key b) (sort_key c)

pub cmp_preorder :
    (a b c : StageId) → cmp a b ≢ Ordering.gt → cmp b c ≢ Ordering.gt → cmp a c ≢ Ordering.gt
unfolding cmp
cmp_preorder a b c =
    preorder-of_order key_cmp (λ x y. (key_cmp_eq x y).0) key_cmp_trans (sort_key a) (sort_key b)
      (sort_key c)

dashless-All : (p : Text) → contains_byte b'_' p ≡ false → All (λ c. not (nat_eq c b'_') ≡ true) p
dashless-All [] h = tt
dashless-All (c ∷ p) h = (ground (arith, h), dashless-All p (ground (arith, h)))

split_first-append :
    (p s : Text) → contains_byte b'_' p ≡ false → split_first b'_' (p ++ b'_' ∷ s) ≡ p
split_first-append p s h =
    take_while-append (λ c. not (nat_eq c b'_')) p (b'_' ∷ s) (dashless-All p h) refl

digits_in_prefix : (p s : Text) → take_while is_digit (p ++ b'_' ∷ s) ≡ take_while is_digit p
digits_in_prefix [] s = refl
digits_in_prefix (c ∷ p) s = ground (arith, digits_in_prefix p s)

behind_digits :
    (letter suffix : Text)
    → IsLetter letter
    → starts_with_class is_digit (letter ++ b'_' ∷ suffix) ≡ false
behind_digits [] suffix h = refl
behind_digits (c ∷ []) suffix h = ground (arith, h)
behind_digits (c ∷ d ∷ letter) suffix h = absurd h

-- The number of a name that was read is that of the digits before its first underscore.
sequence-parse :
    (s : Text) (a : StageId) (p rest : Text)
    → parse s ≡ ok a
    → s ≡ p ++ b'_' ∷ rest
    → a.sequence ≡ digits_value 0 (take_while is_digit p)
sequence-parse s a p rest h e =
    let shape = (parse-eq-ok_iff s a).0 h in
    let digits : take_while is_digit s ≡ shape.digits =
      ap (take_while is_digit)
        (shape.split ∙ append_assoc shape.digits shape.letter (b'_' ∷ shape.suffix))
      ∙ take_while-append is_digit shape.digits (shape.letter ++ b'_' ∷ shape.suffix) shape.numeric
          (behind_digits shape.letter shape.suffix shape.one_letter) in
    let in_prefix : shape.digits ≡ take_while is_digit p =
      sym digits ∙ ap (take_while is_digit) e ∙ digits_in_prefix p rest in
    ap (λ (i : StageId). i.sequence) shape.read ∙ ap (digits_value 0) in_prefix

-- The sort key of a name that was read, by what stands before its first underscore.
sort_key-parse :
    (s : Text) (a : StageId) (p rest : Text)
    → parse s ≡ ok a
    → s ≡ p ++ b'_' ∷ rest
    → contains_byte b'_' p ≡ false
    → sort_key a ≡ (a.sequence, p)
unfolding sort_key
sort_key-parse s a p rest h e dashless =
    let shape = (parse-eq-ok_iff s a).0 h in
    let raw : a.raw ≡ p ++ b'_' ∷ rest = ap (λ (i : StageId). i.raw) shape.read ∙ e in
    ap (λ t. (a.sequence, split_first b'_' t)) raw
    ∙ ap (λ t. (a.sequence, t)) (split_first-append p rest dashless)

-- Two directory names that are read are in the order of their numbers, and with the same number in
-- that of the texts before the first underscore. They compare as equal exactly if these texts are the
-- same, whatever stands behind.
pub cmp-parse :
    (s t : Text) (a b : StageId) (p q rest rest' : Text)
    → parse s ≡ ok a
    → parse t ≡ ok b
    → s ≡ p ++ b'_' ∷ rest
    → t ≡ q ++ b'_' ∷ rest'
    → contains_byte b'_' p ≡ false
    → contains_byte b'_' q ≡ false
    → (a.sequence < b.sequence → cmp a b ≡ Ordering.lt)
      × (b.sequence < a.sequence → cmp a b ≡ Ordering.gt)
      × (a.sequence ≡ b.sequence → cmp a b ≡ text_cmp p q)
      × ((cmp a b ≡ Ordering.eq) ↔ (p ≡ q))
unfolding cmp
cmp-parse s t a b p q rest rest' h k e f dashless dashless' =
    let key = sort_key-parse s a p rest h e dashless in
    let key' = sort_key-parse t b q rest' k f dashless' in
    let compared : key_cmp (sort_key a) (sort_key b) ≡ key_cmp (a.sequence, p) (b.sequence, q) =
      ap (λ x. key_cmp x (sort_key b)) key ∙ ap (key_cmp (a.sequence, p)) key' in
    let same = key_cmp_eq (a.sequence, p) (b.sequence, q) in
    (
      λ l. compared ∙ ground (arith, l),
      λ l. compared ∙ ground (arith, l),
      λ l. compared ∙ ground (arith, l),
      (
        λ x. ap (λ (y : ℕ × Text). y.1) (same.0 (sym compared ∙ x)),
        λ x.
            compared
            ∙ same.1 (
                ap₂ (λ n u. (n, u))
                  (sequence-parse s a p rest h e
                    ∙ ap (λ u. digits_value 0 (take_while is_digit u)) x
                    ∙ sym (sequence-parse t b q rest' k f))
                  x),
      ),
    )
