-- ===== src/Workflow.antt =====
-- crates/zerochain-core/src/workflow.rs: a workflow is the directory of its stages. What the operating
-- system answers, and what its calls change, are parameters.
pub mod Change
pub mod Init
pub mod Names
pub mod Loaded
pub mod Edited
pub mod Refreshed
mod Tests
use zerochain.Prelude.{
  ℕ, suc, ◌+◌, Bool, true, false, not, ◌&&◌, ◌||◌, Option, none, some, List, [], ◌∷◌, ◌++◌,
  if◌then◌else◌, Text, bytes, text_eq, Result, ok, err, ok_or, ◌>>=◌, sort_by, find,
  text_eq_instance,
}
use zerochain.Text.{is_empty, contains_byte}
use zerochain.Text.Search.{contains_text, starts_with}
use zerochain.Errors.{
  Error, io_error, invalid_stage_name, workflow_not_found, no_stages, task_parse,
}
use zerochain.Stage.{Stage, StageId, parse, cmp, stage_id_eq}
use zerochain.Stage.FromDir.{FileSystem, from_dir}
use zerochain.Task.{Task, TaskFrontmatter}
use zerochain.Task

pub record Workflow : Type 0 where
  pub root : Text
  pub id : Text
  pub stages : List Stage
  pub task : Option Task

-- What the operating system answers at one moment: `metadata` follows links, `entry_is_dir` does not,
-- and a directory is read as the names of its entries, each of which can fail.
pub record Tree : Type 0 where
  pub files : FileSystem
  pub is_dir : Text → Result (Unit {0}) Bool
  pub entry_is_dir : Text → Result (Unit {0}) Bool
  pub read_dir : Text → Result (Unit {0}) (List (Result (Unit {0}) Text))
  pub read_to_string : Text → Result (Unit {0}) Text
  pub from_yaml : Text → Option TaskFrontmatter

abbrev pub io_or : {A : Type 0} → Text → Result (Unit {0}) A → Result Error A
io_or path (ok a) = ok a
io_or path (err e) = err (io_error path)

-- Names that are not those of stages: hidden ones, and ones that `StageId::parse` refuses.
abbrev pub is_stage_name : Text → Bool
is_stage_name name =
    not (starts_with (bytes ".") name) && (elim (parse name) [ ok id ↦ true | err e ↦ false ])

unfoldable pub validate_stage_component : Text → Result Error (Unit {0})
validate_stage_component name =
    if is_empty name
      || contains_byte b'/' name
      || contains_byte b'\\' name
      || contains_text (bytes "..") name
    then err (invalid_stage_name name)
    else ok tt

abbrev pub sort_stages : List Stage → List Stage
sort_stages = sort_by (λ a b. cmp a.id b.id)

abbrev pub sorted_workflow : Text → Text → Option Task → List Stage → Result Error Workflow
sorted_workflow path id task [] = err (no_stages path)
sorted_workflow path id task (s ∷ stages) =
    ok (record { root = path; id = id; stages = sort_stages (s ∷ stages); task = task })

module _ (t : Tree) where
  abbrev pub from_file : Text → Result Error Task
  from_file path = do
    content ← io_or path (t.read_to_string path)
    task ← Task.parse t.from_yaml content
    ok (record task { source_path = some path })

  -- A task file that is there and can be read as one; one that cannot is passed over.
  abbrev pub task_at : Text → Result Error (Option Task)
  task_at path = do
    exists ← io_or path (t.files.try_exists path)
    if exists
        then (elim (from_file path) [ ok task ↦ ok (some task) | err e ↦ ok none ])
        else ok none

  abbrev pub first_task : List Text → Result Error (Option Task)
  first_task [] = ok none
  first_task (path ∷ paths) =
      let rest = first_task paths in
      elim (task_at path) [ err e ↦ err e | ok (some task) ↦ ok (some task) | ok none ↦ rest ]

  abbrev pub spec_task : Text → List (Result (Unit {0}) Text) → Result Error (Option Task)
  spec_task path [] = ok none
  spec_task path (err e ∷ entries) = err (io_error path)
  spec_task path (ok name ∷ entries) =
      let rest = spec_task path entries in
      if starts_with (bytes "00_spec") name
      then (elim (task_at (t.files.join (t.files.join path name) (bytes "task.md"))) [
        | err e ↦ err e
        | ok (some task) ↦ ok (some task)
        | ok none ↦ rest
      ])
      else rest

  abbrev pub find_task : Text → Result Error (Option Task)
  find_task path = do
    named ← first_task (
        t.files.join path (bytes "task.md")
        ∷ t.files.join path (bytes "TASK.md")
        ∷ t.files.join path (bytes "Backlog.md")
        ∷ t.files.join path (bytes "backlog.md")
        ∷ [])
    elim named [
      | some task ↦ ok (some task)
      | none ↦ io_or path (t.read_dir path) >>= spec_task path
    ]

  -- The loop of `Workflow::from_dir` over the entries of a directory.
  abbrev pub load_stages : Text → List (Result (Unit {0}) Text) → Result Error (List Stage)
  load_stages path [] = ok []
  load_stages path (err e ∷ entries) = err (io_error path)
  load_stages path (ok name ∷ entries) =
      let rest = load_stages path entries in
      let stage_path = t.files.join path name in
      if not (is_stage_name name) then rest else do
        is_dir ← io_or stage_path (t.entry_is_dir stage_path)
        if not is_dir
            then rest
            else do s ← from_dir t.files stage_path; stages ← rest; ok (s ∷ stages)

  unfoldable pub load : Text → Result Error Workflow
  load path = do
    is_dir ← io_or path (t.is_dir path)
    if not is_dir then err (workflow_not_found path) else do
      let id : Text = elim (t.files.file_name path) [ none ↦ bytes "unknown" | some name ↦ name ]
      task ← find_task path
      entries ← io_or path (t.read_dir path)
      stages ← load_stages path entries
      sorted_workflow path id task stages

unfoldable pub stage_by_id : Workflow → StageId → Option Stage
stage_by_id w id = find (λ s. stage_id_eq s.id id) w.stages

unfoldable pub stage_by_name : Workflow → Text → Option Stage
stage_by_name w name = find (λ s. text_eq s.id.name name) w.stages

-- `iter().position`
abbrev pub index_of : Text → List Stage → Option ℕ
index_of raw [] = none
index_of raw (s ∷ stages) =
    let rest = index_of raw stages in
    if text_eq s.id.raw raw then some 0 else elim rest [ none ↦ none | some i ↦ some (suc i) ]

unfoldable pub stage_index : Workflow → Text → Option ℕ
stage_index w raw = index_of raw w.stages
