-- ===== src/Engine/Marks.antt =====
-- crates/zerochain-engine/src/state.rs: the marks of a stage that ended, found by the names of its
-- workflow and itself. Paths are split into their components by the standard library.
pub mod Marked
pub mod Ended
use zerochain.Prelude.{
  Bool, true, false, Option, none, some, List, [], ◌∷◌, if◌then◌else◌, Text, bytes,
  text_eq_instance, Result, ok, err, ok_or,
}
use zerochain.Errors.{Error}
use zerochain.Disk.{FilePath, ErrorKind, Files, Refusal, write_file, remove_file, try_exists}
use zerochain.Effect.{Effect, ◌>>=◌, ◌>>◌, pure, lift}
use zerochain.HashMap
use zerochain.HashMap.{HashMap}
use zerochain.Stage.{Stage, StageId, parse}
use zerochain.Workflow.{Workflow, stage_by_id}
use zerochain.Graph.Control.{ControlOutcome, as_record}

pub data DaemonError : Type 0 where
  workflow_not_found stage_not_found : Text → DaemonError
  invalid_stage_id : Text → Error → DaemonError
  io_error : FilePath → ErrorKind → DaemonError

-- A call changes the files, and what it has done stays done where it fails.
abbrev pub Call : Type 0 → Type 0
Call A = Effect Files DaemonError A

-- A call of the file system, with `DaemonError::io(path, e)` for its errors.
abbrev pub io : {A : Type 0} → FilePath → (Files → Result ErrorKind A × Files) → Call A
io p call files =
    (elim ((call files).0) [ ok a ↦ ok a | err e ↦ err (io_error p e) ], (call files).1)

-- The stage that both marks begin with.
unfoldable pub find_stage :
    HashMap Text Workflow → (workflow_id stage_id : Text) → Result DaemonError Stage
find_stage workflows workflow_id stage_id = elim (HashMap.get workflow_id workflows) [
  | none ↦ err (workflow_not_found workflow_id)
  | some wf ↦ elim (parse stage_id) [
    | err e ↦ err (invalid_stage_id stage_id e)
    | ok sid ↦ ok_or (stage_by_id wf sid) (stage_not_found stage_id)
  ]
]

-- `feedback.unwrap_or("")`
abbrev pub feedback_text : Option Text → Text
feedback_text none = []
feedback_text (some t) = t

module _ (refused : Refusal) where
  -- The metadata of a file that is not there is no error.
  abbrev pub metadata : FilePath → Files → Result ErrorKind Bool × Files
  metadata p files = (try_exists refused p files, files)

  abbrev pub remove_if : FilePath → Bool → Call (Unit {0})
  remove_if p true = io p (remove_file refused p)
  remove_if p false = pure tt

  -- The marker of the other kind goes, if it is there.
  abbrev pub remove_stale : FilePath → Call (Unit {0})
  remove_stale p = do there ← io p (metadata p); remove_if p there

  abbrev pub write_control : FilePath → Option ControlOutcome → Call (Unit {0})
  write_control p none = pure tt
  write_control p (some outcome) = io p (write_file refused p (as_record outcome))

  -- What is done in the directory of the stage.
  unfoldable pub complete_in : FilePath → Option ControlOutcome → Call (Unit {0})
  complete_in dir outcome = do
    io (bytes ".complete" ∷ dir) (write_file refused (bytes ".complete" ∷ dir) [])
    remove_stale (bytes ".error" ∷ dir)
    write_control (bytes ".control" ∷ dir) outcome

  unfoldable pub error_in : FilePath → Option Text → Call (Unit {0})
  error_in dir feedback = do
    io (bytes ".error" ∷ dir) (write_file refused (bytes ".error" ∷ dir) (feedback_text feedback))
    remove_stale (bytes ".complete" ∷ dir)

  module _ (components : Text → FilePath) (workflows : HashMap Text Workflow) where
    unfoldable pub mark_stage_complete :
        (workflow_id stage_id : Text) → Option ControlOutcome → Call (Unit {0})
    mark_stage_complete workflow_id stage_id outcome = do
      stage ← lift (find_stage workflows workflow_id stage_id)
      complete_in (components stage.path) outcome

    unfoldable pub mark_stage_error : (workflow_id stage_id : Text) → Option Text → Call (Unit {0})
    mark_stage_error workflow_id stage_id feedback = do
      stage ← lift (find_stage workflows workflow_id stage_id)
      error_in (components stage.path) feedback
