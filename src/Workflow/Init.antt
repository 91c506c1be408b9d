-- ===== src/Workflow/Init.antt =====
-- crates/zerochain-core/src/workflow.rs: a workflow is created from a task.
use zerochain.Prelude.{
  ◌&&◌, ◌||◌, Option, none, some, List, [], ◌∷◌, ◌++◌, nat_eq, ltb, if◌then◌else◌, Text, bytes,
  Result, ok, err, ◌>>=◌, length, map,
}
use zerochain.Text.{is_empty}
use zerochain.Text.Decimal.{decimal, padded}
use zerochain.Errors.{Error, invalid_workflow_name}
use zerochain.Task.{Task, stage_names}
use zerochain.Workflow.{Workflow, Tree, io_or, validate_stage_component, load}
use zerochain.Workflow.Change.{Os, context_content}

-- `replace(['/', '\\'], "-")`
abbrev pub replace_separators : Text → Text
replace_separators [] = []
replace_separators (c ∷ s) =
    let rest = replace_separators s in (if nat_eq c b'/' || nat_eq c b'\\' then b'-' else c) ∷ rest

-- `replace("..", "-")`
abbrev pub replace_dots : Text → Text
replace_dots [] = []
replace_dots (c ∷ []) = c ∷ []
replace_dots (c ∷ d ∷ s) =
    let shorter = replace_dots s in
    let rest = replace_dots (d ∷ s) in
    if nat_eq c b'.' && nat_eq d b'.' then b'-' ∷ shorter else c ∷ rest

-- `replace('\0', "")`
abbrev pub remove_nul : Text → Text
remove_nul [] = []
remove_nul (c ∷ s) = let rest = remove_nul s in if nat_eq c 0 then rest else c ∷ rest

unfoldable pub sanitized_id : Text → Text
sanitized_id id = remove_nul (replace_dots (replace_separators id))

-- `(0..3).map(|i| format!("{i:02}_stage_{i}"))`
abbrev pub default_stages : List Text
default_stages = map (λ i. padded i ++ bytes "_stage_" ++ decimal i) (0 ∷ 1 ∷ 2 ∷ [])

abbrev pub stage_defs : Task → List Text
stage_defs task = elim (stage_names task) [ [] ↦ default_stages | n ∷ names ↦ n ∷ names ]

abbrev pub validate_all : List Text → Result Error (Unit {0})
validate_all [] = ok tt
validate_all (name ∷ names) = do valid ← validate_stage_component name; validate_all names

-- The checks in front of the first call that creates something: the root's name and the stages'.
unfoldable pub checked_names : Task → Result Error (Text × List Text)
checked_names task =
    let id = sanitized_id task.head.id in
    if is_empty id || ltb 128 (length id)
    then err (invalid_workflow_name task.head.id)
    else do valid ← validate_all (stage_defs task); ok (id, stage_defs task)

module _ (os : Os) (create_workflow_root create_stage_dir : Text → Tree → Result Error Tree) where
  -- The input of a stage is a link to the output of the one before, or a directory of its own.
  abbrev pub create_input : Option Text → Text → Tree → Result Error Tree
  create_input none input_dir t = io_or input_dir (os.create_dir_all input_dir t)
  create_input (some prev) input_dir t = io_or input_dir (os.symlink prev input_dir t)

  abbrev pub create_stages : Text → Option Text → List Text → Tree → Result Error Tree
  create_stages workflow_dir prev_output [] t = ok t
  create_stages workflow_dir prev_output (name ∷ names) t = do
    let stage_dir = t.files.join workflow_dir name
    t₁ ← create_stage_dir stage_dir t
    let output_dir = t.files.join stage_dir (bytes "output")
    t₂ ← io_or output_dir (os.create_dir_all output_dir t₁)
    t₃ ← create_input prev_output (t.files.join stage_dir (bytes "input")) t₂
    let ctx_path = t.files.join stage_dir (bytes "CONTEXT.md")
    t₄ ← io_or ctx_path (os.write ctx_path (context_content name) t₃)
    create_stages workflow_dir (some output_dir) names t₄

  -- What a failure leaves behind on disk is not modelled.
  unfoldable pub init_with_factories : Task → Text → Tree → Result Error (Tree × Workflow)
  init_with_factories task base_path t = do
    names ← checked_names task
    let workflow_dir = t.files.join base_path (names.0)
    t₁ ← create_workflow_root workflow_dir t
    t₂ ← create_stages workflow_dir none (names.1) t₁
    w ← load t₂ workflow_dir
    ok (t₂, w)
