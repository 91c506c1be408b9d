-- ===== src/Stage/Group.antt =====
-- The parallel group of a stage is the letter in its directory name.
use zerochain.Prelude.{
  ◌≡◌, refl, ap, ◌∙◌, true, false, Option, none, [], ◌∷◌, ◌++◌, if◌then◌else◌, Text, All, arith,
}
use zerochain.Text.{is_digit, drop_while, starts_with_class, drop-take_while}
use mathlib.Core.List.{append_assoc}
use zerochain.Stage.{StageId, parallel_group, lower_head, starts_with_byte}
use zerochain.Stage.Shape.{IsLetter, Shape}

drop_while_digits :
    (digits rest : Text)
    → All (λ c. is_digit c ≡ true) digits
    → starts_with_class is_digit rest ≡ false
    → drop_while is_digit (digits ++ rest) ≡ rest
drop_while_digits [] [] h k = refl
drop_while_digits [] (c ∷ rest) h k = rw k
drop_while_digits (d ∷ digits) rest h k = rw h.0 (drop_while_digits digits rest h.1 k)

letter_rest_not_digit :
    (letter suffix : Text)
    → IsLetter letter
    → starts_with_class is_digit (letter ++ b'_' ∷ suffix) ≡ false
letter_rest_not_digit [] suffix h = refl
letter_rest_not_digit (c ∷ []) suffix h = ground arith
letter_rest_not_digit (c ∷ d ∷ s) suffix h = absurd h

group_of_rest : Text → Option Text
group_of_rest rest = if starts_with_byte b'_' rest then none else lower_head rest

group_of_letter :
    (letter suffix : Text)
    → IsLetter letter
    → group_of_rest (letter ++ b'_' ∷ suffix) ≡ lower_head letter
unfolding group_of_rest
group_of_letter [] suffix h = refl
group_of_letter (c ∷ []) suffix h = ground arith
group_of_letter (c ∷ d ∷ s) suffix h = absurd h

parallel_group-rest :
    (id : StageId) → parallel_group id ≡ group_of_rest (drop_while is_digit id.raw)
unfolding parallel_group group_of_rest
parallel_group-rest id = rw (drop-take_while is_digit id.raw)

rest_of_raw :
    (digits letter suffix : Text)
    → All (λ c. is_digit c ≡ true) digits
    → IsLetter letter
    → drop_while is_digit ((digits ++ letter) ++ b'_' ∷ suffix) ≡ letter ++ b'_' ∷ suffix
rest_of_raw digits letter suffix h k =
    rw append_assoc (drop_while_digits digits _ h (letter_rest_not_digit letter suffix k))

-- The parallel group of an accepted name is its letter, if it has one.
pub parallel_group-Shape :
    (s : Text) (id : StageId) (shape : Shape s id) → parallel_group id ≡ lower_head shape.letter
parallel_group-Shape s id h =
    let raw : id.raw ≡ (h.digits ++ h.letter) ++ b'_' ∷ h.suffix =
      ap (λ (i : StageId). i.raw) h.read ∙ h.split in
    parallel_group-rest id
    ∙ ap (λ t. group_of_rest (drop_while is_digit t)) raw
    ∙ ap group_of_rest (rest_of_raw h.digits h.letter h.suffix h.numeric h.one_letter)
    ∙ group_of_letter h.letter h.suffix h.one_letter
