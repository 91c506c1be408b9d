-- ===== src/Stage.antt =====
-- crates/zerochain-core/src/stage.rs: the stage identifier, its parser and its order.
-- `letter.len() != 1` counts bytes; a letter of one byte that is not lower case is refused as well.
pub mod Shape
pub mod Group
pub mod Order
pub mod FromDir
mod Tests
use zerochain.Prelude.{
  ℕ, suc, ◌+◌, ◌^◌, Bool, true, false, not, ◌&&◌, ◌||◌, Option, none, some, [], ◌∷◌, ◌++◌, nat_eq,
  if◌then◌else◌, Text, text_eq, text_cmp, length, take, drop, Result, ok, err, ok_or, ◌>>=◌,
  Ordering, compare, Eq, ◌≡◌, ◌↔◌, text_eq_iff, arith,
}
use zerochain.Text.{
  is_digit, is_lower, is_empty, find_byte, take_while, starts_with_class, parse_uint,
}
use zerochain.Errors.{Error, invalid_stage_name}

abbrev pub u32_mod : ℕ
u32_mod = 2 ^ 32

pub record StageId : Type 0 where
  pub sequence : ℕ
  pub name : Text
  pub raw : Text

-- The refusal of what stands between the number and the underscore.
abbrev pub is_bad_letter : Text → Bool
is_bad_letter letter =
    not (is_empty letter)
    && (not (nat_eq (length letter) 1) || not (starts_with_class is_lower letter))

-- A stage directory, as `Stage::from_dir` read it.
pub record Stage : Type 0 where
  pub id : StageId
  pub path : Text
  pub context_path : Text
  pub input_path : Text
  pub output_path : Text
  pub is_complete : Bool
  pub is_error : Bool
  pub human_gate : Bool
  pub container_image : Option Text
  pub command : Option Text

-- The checks of `StageId::parse` on the texts before and behind the first underscore.
unfoldable pub parse_parts : (dir_name prefix suffix : Text) → Result Error StageId
parse_parts dir_name prefix suffix =
    let numeric_end = length (take_while is_digit prefix) in
    let letter = drop numeric_end prefix in
    if is_empty suffix
    then err (invalid_stage_name dir_name)
    else if nat_eq numeric_end 0
    then err (invalid_stage_name dir_name)
    else do
      sequence ← ok_or (parse_uint u32_mod (take numeric_end prefix)) (invalid_stage_name dir_name)
      if is_bad_letter letter
          then err (invalid_stage_name dir_name)
          else ok (record { sequence = sequence; name = letter ++ suffix; raw = dir_name })

unfoldable pub parse : Text → Result Error StageId
parse dir_name = do
  underscore_pos ← ok_or (find_byte b'_' dir_name) (invalid_stage_name dir_name)
  parse_parts dir_name (take underscore_pos dir_name) (drop (suc underscore_pos) dir_name)

-- The first byte of what follows the number, if it is a lower-case letter.
abbrev pub lower_head : Text → Option Text
lower_head [] = none
lower_head (c ∷ s) = if is_lower c then some (c ∷ []) else none

abbrev pub starts_with_byte : ℕ → Text → Bool
starts_with_byte b = starts_with_class (λ c. nat_eq c b)

unfoldable pub parallel_group : StageId → Option Text
parallel_group id =
    let rest = drop (length (take_while is_digit id.raw)) id.raw in
    if starts_with_byte b'_' rest then none else lower_head rest

-- `raw.split('_').next()`: all of the text, if it has no underscore.
abbrev pub split_first : ℕ → Text → Text
split_first b s = take_while (λ c. not (nat_eq c b)) s

unfoldable pub sort_key : StageId → ℕ × Text
sort_key id = (id.sequence, split_first b'_' id.raw)

-- `Ord for (u32, String)`
abbrev pub key_cmp : ℕ × Text → ℕ × Text → Ordering
key_cmp (a, s) (b, t) = elim (compare a b) [
  | Ordering.lt ↦ Ordering.lt
  | Ordering.eq ↦ text_cmp s t
  | Ordering.gt ↦ Ordering.gt
]

unfoldable pub cmp : StageId → StageId → Ordering
unfolding sort_key
cmp a b = key_cmp (sort_key a) (sort_key b)

-- The derived `PartialEq`.
unfoldable pub stage_id_eq : StageId → StageId → Bool
stage_id_eq a b = nat_eq a.sequence b.sequence && (text_eq a.name b.name && text_eq a.raw b.raw)

pub stage_id_eq_iff : (a b : StageId) → (stage_id_eq a b ≡ true) ↔ (a ≡ b)
unfolding stage_id_eq
stage_id_eq_iff a b = ground (arith, text_eq_iff a.name b.name, text_eq_iff a.raw b.raw)

instance abbrev pub stage_id_eq_instance : Eq StageId
stage_id_eq_instance = record { beq = stage_id_eq; beq_iff = stage_id_eq_iff }
