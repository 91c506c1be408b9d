-- ===== src/Stage/Shape.antt =====
-- Which directory names `StageId::parse` accepts, and what it reads from them.
use zerochain.Prelude.{
  ℕ, suc, ◌<◌, ◌≡◌, ◌≢◌, ◌↔◌, inl, inr, refl, sym, subst, Bool, true, false, some, [], ◌∷◌, ◌++◌,
  nat_eq, Text, length, take, drop, ok, err, All, arith, Option-cases,
}
use zerochain.Text.{
  is_digit, is_lower, is_empty, find_byte, take_while, drop_while, starts_with_class, parse_uint,
  digits_value, take-take_while, drop-take_while, take_while-drop_while, take_while-All,
  take_while-append, find_byte-split, find_byte-append, parse_uint_digits, take-length_append,
  drop-length_append, drop-suc_lem,
}
use zerochain.Errors.{Error, invalid_stage_name}
use zerochain.Stage.{StageId, parse, parse_parts, is_bad_letter, u32_mod}

-- Nothing, or one lower-case letter.
abbrev pub IsLetter : Text → Type 0
IsLetter [] = Unit
IsLetter (c ∷ []) = is_lower c ≡ true
IsLetter (c ∷ d ∷ s) = ⊥

-- The text is a number, an optional letter, an underscore and a further text.
pub record Shape (s : Text) (id : StageId) : Type 0 where
  pub digits : Text
  pub letter : Text
  pub suffix : Text
  pub split : s ≡ (digits ++ letter) ++ b'_' ∷ suffix
  pub numeric : All (λ c. is_digit c ≡ true) digits
  pub some_digit : digits ≢ []
  pub one_letter : IsLetter letter
  pub some_suffix : suffix ≢ []
  pub fits : digits_value 0 digits < u32_mod
  pub read : id ≡ record { sequence = digits_value 0 digits; name = letter ++ suffix; raw = s }

drop_while_head : (p : ℕ → Bool) (s : Text) → starts_with_class p (drop_while p s) ≡ false
drop_while_head p [] = refl
drop_while_head p (c ∷ s) = ground (arith, drop_while_head p s)

IsLetter-of_test : (letter : Text) → is_bad_letter letter ≡ false → IsLetter letter
IsLetter-of_test [] h = tt
IsLetter-of_test (c ∷ []) h = ground arith
IsLetter-of_test (c ∷ d ∷ s) h = ground arith

test_of_IsLetter : (letter : Text) → IsLetter letter → is_bad_letter letter ≡ false
test_of_IsLetter [] h = refl
test_of_IsLetter (c ∷ []) h = rw h
test_of_IsLetter (c ∷ d ∷ s) h = absurd h

-- What a successful `parse_parts` has checked.
record Parts (s prefix suffix : Text) (id : StageId) : Type 0 where
  some_suffix : is_empty suffix ≡ false
  some_digit : nat_eq (length (take_while is_digit prefix)) 0 ≡ false
  letter : is_bad_letter (drop (length (take_while is_digit prefix)) prefix) ≡ false
  value : ℕ
  number : parse_uint u32_mod (take (length (take_while is_digit prefix)) prefix) ≡ some value
  read : id ≡ record {
    sequence = value;
    name = drop (length (take_while is_digit prefix)) prefix ++ suffix;
    raw = s;
  }

parse_parts-inv :
    (s prefix suffix : Text) (id : StageId)
    → parse_parts s prefix suffix ≡ ok id
    → Parts s prefix suffix id
unfolding parse_parts
parse_parts-inv s prefix suffix id h =
    elim (Option-cases (parse_uint u32_mod (take (length (take_while is_digit prefix)) prefix))) [
      | inl e ↦ absurd (ground arith)
      | inr (v, e) ↦ record {
        some_suffix = ground arith;
        some_digit = ground arith;
        letter = ground arith;
        value = v;
        number = e;
        read = ground arith;
      }
    ]

parse-inv :
    (s : Text) (id : StageId)
    → parse s ≡ ok id
    → (i : ℕ) × (find_byte b'_' s ≡ some i) × (parse_parts s (take i s) (drop (suc i) s) ≡ ok id)
unfolding parse
parse-inv s id h = elim (Option-cases (find_byte b'_' s)) [
  | inl e ↦ absurd (ground arith)
  | inr (i, e) ↦ (i, e, ground (arith, e))
]

ne_nil : (s : Text) → is_empty s ≡ false → s ≢ []
ne_nil [] h e = cc
ne_nil (c ∷ s) h e = cc

is_empty_of_ne : (s : Text) → s ≢ [] → is_empty s ≡ false
is_empty_of_ne [] h = absurd (h refl)
is_empty_of_ne (c ∷ s) h = refl

length-ne : (s : Text) → nat_eq (length s) 0 ≡ false → s ≢ []
length-ne [] h e = cc
length-ne (c ∷ s) h e = cc

length-ne_zero : (s : Text) → s ≢ [] → nat_eq (length s) 0 ≡ false
length-ne_zero [] h = absurd (h refl)
length-ne_zero (c ∷ s) h = ground arith

-- The parts that the parser computes have the shape.
parts-Shape :
    (s prefix suffix : Text) (id : StageId)
    → s ≡ prefix ++ b'_' ∷ suffix
    → Parts s prefix suffix id
    → Shape s id
parts-Shape s prefix suffix id split p =
    let digits : Text = take_while is_digit prefix in
    let value =
      parse_uint_digits u32_mod digits (omega arith) (length-ne digits p.some_digit)
        (take_while-All is_digit prefix) in
    let number = rw take-take_while at p.number in
    let same : p.value ≡ digits_value 0 digits = ground (arith, value, number) in
    record {
      digits = digits;
      letter = drop_while is_digit prefix;
      suffix = suffix;
      split = rw take_while-drop_while split;
      numeric = take_while-All is_digit prefix;
      some_digit = length-ne digits p.some_digit;
      one_letter = IsLetter-of_test _ (rw drop-take_while at p.letter);
      some_suffix = ne_nil suffix p.some_suffix;
      fits = ground (arith, value, number);
      read = rw (← same, ← drop-take_while is_digit prefix) p.read;
    }

sound : (s : Text) (id : StageId) → parse s ≡ ok id → Shape s id
sound s id h =
    let (i, found, parsed) = parse-inv s id h in
    parts-Shape s (take i s) (drop (suc i) s) id (find_byte-split b'_' s i found)
      (parse_parts-inv s (take i s) (drop (suc i) s) id parsed)

digit_not_underscore : (s : Text) → All (λ c. is_digit c ≡ true) s → All (λ c. c ≢ b'_') s
digit_not_underscore [] h = tt
digit_not_underscore (c ∷ s) h = (ground (arith, h.0), digit_not_underscore s h.1)

letter_not_underscore : (s : Text) → IsLetter s → All (λ c. c ≢ b'_') s
letter_not_underscore [] h = tt
letter_not_underscore (c ∷ []) h = (ground arith, tt)
letter_not_underscore (c ∷ d ∷ s) h = absurd h

letter_not_digit : (s : Text) → IsLetter s → starts_with_class is_digit s ≡ false
letter_not_digit [] h = refl
letter_not_digit (c ∷ []) h = ground arith
letter_not_digit (c ∷ d ∷ s) h = absurd h

parse_parts_lem :
    (s digits letter suffix : Text)
    → All (λ c. is_digit c ≡ true) digits
    → digits ≢ []
    → IsLetter letter
    → suffix ≢ []
    → digits_value 0 digits < u32_mod
    → parse_parts s (digits ++ letter) suffix
      ≡ ok (record { sequence = digits_value 0 digits; name = letter ++ suffix; raw = s })
unfolding parse_parts
parse_parts_lem s digits letter suffix numeric some_digit one some_suffix fits =
    rw (take_while-append is_digit digits letter numeric (letter_not_digit letter one)) (
      rw (drop-length_append digits letter) (
        rw (take-length_append digits letter) (
          ground (
            arith,
            is_empty_of_ne suffix some_suffix,
            test_of_IsLetter letter one,
            length-ne_zero digits some_digit,
            parse_uint_digits u32_mod digits (omega arith) some_digit numeric,
          ))))

All-append : (p : ℕ → Type 0) (xs ys : Text) → All p xs → All p ys → All p (xs ++ ys)
All-append p [] ys hx hy = hy
All-append p (x ∷ xs) ys hx hy = (hx.0, All-append p xs ys hx.1 hy)

complete_split :
    (digits letter suffix : Text)
    → All (λ c. is_digit c ≡ true) digits
    → digits ≢ []
    → IsLetter letter
    → suffix ≢ []
    → digits_value 0 digits < u32_mod
    → parse ((digits ++ letter) ++ b'_' ∷ suffix)
      ≡ ok (record {
        sequence = digits_value 0 digits;
        name = letter ++ suffix;
        raw = (digits ++ letter) ++ b'_' ∷ suffix;
      })
unfolding parse
complete_split digits letter suffix numeric some_digit one some_suffix fits =
    rw
      (find_byte-append b'_' (digits ++ letter) suffix (
        All-append (λ c. c ≢ b'_') digits letter (digit_not_underscore digits numeric)
          (letter_not_underscore letter one)))
      (rw (take-length_append (digits ++ letter) (b'_' ∷ suffix)) (
        rw (drop-suc_lem (digits ++ letter) b'_' suffix)
          (parse_parts_lem _ digits letter suffix numeric some_digit one some_suffix fits)))

complete : (s : Text) (id : StageId) → Shape s id → parse s ≡ ok id
complete s id h = rw h.read (
    subst
      (λ (t : Text).
        parse t
        ≡ ok (record { sequence = digits_value 0 h.digits; name = h.letter ++ h.suffix; raw = t }))
      (sym h.split)
      (complete_split h.digits h.letter h.suffix h.numeric h.some_digit h.one_letter h.some_suffix
        h.fits))

-- A directory name is accepted as `id` exactly if it has the shape of a stage name and `id` is
-- read from its parts.
pub parse-eq-ok_iff : (s : Text) (id : StageId) → (parse s ≡ ok id) ↔ Shape s id
parse-eq-ok_iff s id = (sound s id, complete s id)

-- Every refusal is `InvalidStageName` with the text itself.
pub parse-err : (s : Text) (e : Error) → parse s ≡ err e → e ≡ invalid_stage_name s
unfolding parse parse_parts
parse-err s e h = ground arith
