-- ===== src/Engine/Marks/Ended.antt =====
-- crates/zerochain-engine/src/state.rs: what marking a stage does to the files, and to the outcome that
-- the plan reads from them.
use zerochain.Prelude.{
  ◌≡◌, refl, sym, ap, ◌∙◌, false, Option, none, some, [], ◌∷◌, if◌then◌else◌, Text, bytes, ok,
  arith, Option-cases, inl, inr, text_eq_instance,
}
use zerochain.Disk.{FilePath, path_eq, Files, Refusal, write_file}
use zerochain.Effect.{◌>>◌, >>-continues}
use zerochain.Text.{trim}
use zerochain.HashMap.{HashMap}
use zerochain.Stage.{Stage}
use zerochain.Workflow.{Workflow}
use zerochain.Atomic.Marks.{path_eq_refl}
use zerochain.Graph.Control.{
  ControlOutcome, cont, ret, escalate, fail, await, as_record, parse_record,
}
use zerochain.Engine.Marks.{
  io, find_stage, remove_stale, write_control, feedback_text, complete_in, error_in,
  mark_stage_complete, mark_stage_error,
}
use zerochain.Engine.Marks.Marked.{control_text, complete_in-ok, error_in-ok, outcome_in}

module _ (refused : Refusal) where
  remove_stale-succeeds :
      (p : FilePath) (files : Files) → refused p ≡ false → (remove_stale refused p files).0 ≡ ok tt
  remove_stale-succeeds p files e = elim (Option-cases (files p)) [
    | inl k ↦ ground (arith, e, k)
    | inr (c, k) ↦ ground (arith, e, k)
  ]

  write_control-succeeds :
      (p : FilePath) (outcome : Option ControlOutcome) (files : Files)
      → refused p ≡ false
      → (write_control refused p outcome files).0 ≡ ok tt
  write_control-succeeds p none files e = refl
  write_control-succeeds p (some outcome) files e = ground (arith, e)

  -- Nothing that a mark touches in the directory is refused.
  pub record IsFree (dir : FilePath) : Type 0 where
    pub complete_marker : refused (bytes ".complete" ∷ dir) ≡ false
    pub error_marker : refused (bytes ".error" ∷ dir) ≡ false
    pub control : refused (bytes ".control" ∷ dir) ≡ false

  complete_in-succeeds :
      (dir : FilePath) (outcome : Option ControlOutcome) (files : Files)
      → IsFree dir
      → (complete_in refused dir outcome files).0 ≡ ok tt
  unfolding complete_in
  complete_in-succeeds dir outcome files free =
      let marker = bytes ".complete" ∷ dir in
      let stale = remove_stale refused (bytes ".error" ∷ dir) in
      let control = write_control refused (bytes ".control" ∷ dir) outcome in
      >>-continues (io marker (write_file refused marker [])) (stale >> control) files
        (ground (arith, free.complete_marker))
        (λ t.
          >>-continues stale control t
            (remove_stale-succeeds (bytes ".error" ∷ dir) t free.error_marker)
            (λ u. write_control-succeeds (bytes ".control" ∷ dir) outcome u free.control))

  error_in-succeeds :
      (dir : FilePath) (feedback : Option Text) (files : Files)
      → IsFree dir
      → (error_in refused dir feedback files).0 ≡ ok tt
  unfolding error_in
  error_in-succeeds dir feedback files free =
      let marker = bytes ".error" ∷ dir in
      >>-continues (io marker (write_file refused marker (feedback_text feedback)))
        (remove_stale refused (bytes ".complete" ∷ dir)) files (ground (arith, free.error_marker))
        (λ t. remove_stale-succeeds (bytes ".complete" ∷ dir) t free.complete_marker)

-- A stage that is found is marked as complete where nothing is refused: the completion marker is there
-- and empty, the error marker is gone, the file with the outcome holds the record of the outcome if
-- there is one and is as it was if there is none, and every other file is as it was.
pub mark_stage_complete-Marks :
    (refused : Refusal) (components : Text → FilePath) (workflows : HashMap Text Workflow)
    (workflow_id stage_id : Text) (outcome : Option ControlOutcome) (files : Files) (stage : Stage)
    → find_stage workflows workflow_id stage_id ≡ ok stage
    → IsFree refused (components stage.path)
    → ((mark_stage_complete refused components workflows workflow_id stage_id outcome files).0
        ≡ ok tt)
      × ((q : FilePath)
          → (mark_stage_complete refused components workflows workflow_id stage_id outcome files).1
              q
            ≡ (if path_eq (bytes ".control" ∷ components stage.path) q
                then control_text outcome (files q)
                else if path_eq (bytes ".error" ∷ components stage.path) q
                then none
                else if path_eq (bytes ".complete" ∷ components stage.path) q
                then some []
                else files q))
unfolding mark_stage_complete
mark_stage_complete-Marks refused components workflows workflow_id stage_id outcome files stage
      found free =
    let dir = components stage.path in
    let done = complete_in-succeeds refused dir outcome files free in
    rw found (done, complete_in-ok refused dir outcome files done)

-- A stage that is found is marked as failed where nothing is refused: the error marker holds the
-- feedback, the completion marker is gone, and every other file is as it was, the one with the
-- outcome too.
pub mark_stage_error-Marks :
    (refused : Refusal) (components : Text → FilePath) (workflows : HashMap Text Workflow)
    (workflow_id stage_id : Text) (feedback : Option Text) (files : Files) (stage : Stage)
    → find_stage workflows workflow_id stage_id ≡ ok stage
    → IsFree refused (components stage.path)
    → ((mark_stage_error refused components workflows workflow_id stage_id feedback files).0
        ≡ ok tt)
      × ((q : FilePath)
          → (mark_stage_error refused components workflows workflow_id stage_id feedback files).1 q
            ≡ (if path_eq (bytes ".complete" ∷ components stage.path) q
                then none
                else if path_eq (bytes ".error" ∷ components stage.path) q
                then some (feedback_text feedback)
                else files q))
unfolding mark_stage_error
mark_stage_error-Marks refused components workflows workflow_id stage_id feedback files stage found
      free =
    let dir = components stage.path in
    let done = error_in-succeeds refused dir feedback files free in
    rw found (done, error_in-ok refused dir feedback files done)

-- The outcome that counts after a stage was marked as complete: its own, of which `Continue` is read
-- as none, or the one before.
abbrev pub next_outcome : Option ControlOutcome → Option ControlOutcome → Option ControlOutcome
next_outcome none before = before
next_outcome (some cont) before = none
next_outcome (some ret) before = some ret
next_outcome (some escalate) before = some escalate
next_outcome (some fail) before = some fail
next_outcome (some await) before = some await

record_read :
    (o : ControlOutcome) (before : Option ControlOutcome)
    → parse_record (as_record o) ≡ next_outcome (some o) before
unfolding parse_record as_record trim
record_read cont before = refl
record_read ret before = refl
record_read escalate before = refl
record_read fail before = refl
record_read await before = refl

abbrev read_outcome : Option Text → Option ControlOutcome
read_outcome none = none
read_outcome (some content) = parse_record content

outcome_in-free :
    (refused : Refusal) (dir : FilePath) (files : Files)
    → IsFree refused dir
    → outcome_in refused dir files ≡ read_outcome (files (bytes ".control" ∷ dir))
unfolding outcome_in
outcome_in-free refused dir files free = elim (Option-cases (files (bytes ".control" ∷ dir))) [
  | inl k ↦ rw (free.control, outcome_in) (rw (k, outcome_in) refl)
  | inr (c, k) ↦ rw (free.control, outcome_in) (rw (k, outcome_in) refl)
]

read_outcome-control_text :
    (outcome : Option ControlOutcome) (old : Option Text)
    → read_outcome (control_text outcome old) ≡ next_outcome outcome (read_outcome old)
read_outcome-control_text none old = refl
read_outcome-control_text (some o) old = record_read o (read_outcome old)

-- The plan then reads the outcome that the stage was marked with, or, if it was marked with none, the
-- outcome of an earlier run. `Continue` is read as no outcome.
pub mark_stage_complete-outcome_in :
    (refused : Refusal) (components : Text → FilePath) (workflows : HashMap Text Workflow)
    (workflow_id stage_id : Text) (outcome : Option ControlOutcome) (files : Files) (stage : Stage)
    → find_stage workflows workflow_id stage_id ≡ ok stage
    → IsFree refused (components stage.path)
    → outcome_in refused
        (components stage.path)
        ((mark_stage_complete refused components workflows workflow_id stage_id outcome files).1)
      ≡ next_outcome outcome (outcome_in refused (components stage.path) files)
mark_stage_complete-outcome_in refused components workflows workflow_id stage_id outcome files stage
      found free =
    let control = bytes ".control" ∷ components stage.path in
    let after =
      (mark_stage_complete refused components workflows workflow_id stage_id outcome files).1 in
    let marked =
      mark_stage_complete-Marks refused components workflows workflow_id stage_id outcome files
        stage found free in
    let other_files =
      if path_eq (bytes ".error" ∷ components stage.path) control
      then none
      else if path_eq (bytes ".complete" ∷ components stage.path) control
      then some []
      else files control in
    let now : after control ≡ control_text outcome (files control) =
      marked.1 control
      ∙ ap (λ b. if b then control_text outcome (files control) else other_files)
          (path_eq_refl control) in
    outcome_in-free refused (components stage.path) after free
    ∙ ap read_outcome now
    ∙ read_outcome-control_text outcome (files control)
    ∙ ap (next_outcome outcome) (sym (outcome_in-free refused (components stage.path) files free))
