-- ===== src/Stage/Tests.antt =====
-- Stage names of the source's tests.
use zerochain.Stage.FromDir.{FileSystem, from_dir, stage_from, no_settings}
use zerochain.Prelude.{
  none, ◌<◌, Bool, true, false, ◌++◌, if◌then◌else◌, ◌≡◌, ◌↔◌, refl, ok, err, Ordering, bytes, Text,
  some,
}
use zerochain.Errors.{invalid_stage_name}
use zerochain.Stage.{Stage, StageId, parse, parse_parts, parallel_group, cmp}
use zerochain.Stage.Shape.{Shape, parse-eq-ok_iff}
use zerochain.Stage.Order.{cmp-parse}

abbrev parallel_name : Text
parallel_name = bytes "02a_test_unit"

abbrev parallel_id : StageId
parallel_id = record { sequence = 2; name = bytes "atest_unit"; raw = parallel_name }

parse_parallel : parse parallel_name ≡ ok parallel_id
unfolding parse parse_parts
parse_parallel = refl

parse_refused :
    (parse (bytes "nope") ≡ err (invalid_stage_name (bytes "nope")))
    × (parse (bytes "_leading") ≡ err (invalid_stage_name (bytes "_leading")))
    × (parse (bytes "00_") ≡ err (invalid_stage_name (bytes "00_")))
    × (parse (bytes "4294967296_x") ≡ err (invalid_stage_name (bytes "4294967296_x")))
unfolding parse parse_parts
parse_refused = (refl, refl, refl, refl)

parallel_group_given : parallel_group parallel_id ≡ some (bytes "a")
unfolding parallel_group
parallel_group_given = refl

parse-eq-ok_iff_example : (parse parallel_name ≡ ok parallel_id) ↔ Shape parallel_name parallel_id
parse-eq-ok_iff_example = parse-eq-ok_iff parallel_name parallel_id

abbrev parallel_shape : Shape parallel_name parallel_id
parallel_shape = parse-eq-ok_iff_example.0 parse_parallel

abbrev alpha : StageId
alpha = record { sequence = 1; name = bytes "alpha"; raw = bytes "01_alpha" }

abbrev beta : StageId
beta = record { sequence = 2; name = bytes "beta"; raw = bytes "02_beta" }

alpha_before_beta : cmp alpha beta ≡ Ordering.lt
unfolding cmp
alpha_before_beta = refl

beta_before_parallel : cmp beta parallel_id ≡ Ordering.lt
unfolding cmp
beta_before_parallel = refl

abbrev other_id : StageId
other_id = record { sequence = 2; name = bytes "aother"; raw = bytes "02a_other" }

parse_other : parse (bytes "02a_other") ≡ ok other_id
unfolding parse parse_parts
parse_other = refl

cmp-parse_example :
    (2 < 2 → cmp parallel_id other_id ≡ Ordering.lt)
    × (2 < 2 → cmp parallel_id other_id ≡ Ordering.gt)
    × (parallel_id.sequence ≡ other_id.sequence → cmp parallel_id other_id ≡ Ordering.eq)
    × ((cmp parallel_id other_id ≡ Ordering.eq) ↔ (bytes "02a" ≡ bytes "02a"))
cmp-parse_example =
    cmp-parse parallel_name (bytes "02a_other") parallel_id other_id (bytes "02a") (bytes "02a")
      (bytes "test_unit") (bytes "other") parse_parallel parse_other refl refl refl refl

-- A directory in which every file is there, or none is.
abbrev files : Bool → FileSystem
files there = record {
  join = λ dir file. dir ++ bytes "/" ++ file;
  file_name = λ dir. some parallel_name;
  try_exists = λ path. ok there;
  from_md_file = λ path. ok (record { human_gate = true; container = none; command = none });
}

abbrev stage_at : Bool → Stage
stage_at there =
    stage_from (files there) (bytes "flow/02a_test_unit") parallel_id there there (
      if there then record { human_gate = true; container = none; command = none } else no_settings)

read_with : from_dir (files true) (bytes "flow/02a_test_unit") ≡ ok (stage_at true)
unfolding from_dir parse parse_parts
read_with = refl

read_without : from_dir (files false) (bytes "flow/02a_test_unit") ≡ ok (stage_at false)
unfolding from_dir parse parse_parts
read_without = refl
