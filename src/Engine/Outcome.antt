-- ===== src/Engine/Outcome.antt =====
-- crates/zerochain-engine/src/state.rs: the outcome that a stage has written into its result. The reader
-- of YAML is a parameter.
use zerochain.Prelude.{
  ◌≡◌, ◌≢◌, refl, ◌∙◌, Option, none, some, [], ◌∷◌, Text, bytes, ok, err, text_eq_instance, inl,
  inr, Result-cases, none-ne-some,
}
use zerochain.Text.{trim}
use zerochain.Text.Lines.{lines}
use zerochain.Disk.{FilePath, Files, Refusal, read_to_string}
use zerochain.HashMap.{HashMap}
use zerochain.Stage.{Stage}
use zerochain.Workflow.{Workflow}
use zerochain.Context.{split_frontmatter}
use zerochain.Graph.Control.{
  ControlOutcome, cont, ret, escalate, fail, await, parse_record, parse_record-eq_some_iff,
}
use zerochain.Engine.Marks.{find_stage, mark_stage_complete}
use zerochain.Engine.Marks.Marked.{outcome_in}
use zerochain.Engine.Marks.Ended.{IsFree, next_outcome, mark_stage_complete-outcome_in}

-- `body.lines().next().unwrap_or("")`
abbrev pub first_line : Text → Text
first_line body = elim (lines body) [ [] ↦ [] | l ∷ ls ↦ l ]

module _ {A : Type 0} (from_yaml : Text → Option A) (no_head : A) where
  abbrev pub outcome_of : Text → Option ControlOutcome
  outcome_of content = elim (split_frontmatter from_yaml no_head content) [
    | err e ↦ none
    | ok split ↦ parse_record (trim (first_line (split.1)))
  ]

  module _ (refused : Refusal) (components : Text → FilePath)
      (workflows : HashMap Text Workflow) where
    unfoldable pub detect_control_outcome :
        (workflow_id stage_id : Text) → Files → Option ControlOutcome
    detect_control_outcome workflow_id stage_id files =
        elim (find_stage workflows workflow_id stage_id) [
          | err e ↦ none
          | ok stage ↦
              elim (read_to_string refused (bytes "result.md" ∷ components stage.output_path)
                files) [ err e ↦ none | ok content ↦ outcome_of content ]
        ]

abbrev or_before : Option ControlOutcome → Option ControlOutcome → Option ControlOutcome
or_before none before = before
or_before (some o) before = some o

next_outcome-read :
    (o before : Option ControlOutcome) → o ≢ some cont → next_outcome o before ≡ or_before o before
next_outcome-read none before h = refl
next_outcome-read (some cont) before h = absurd (h refl)
next_outcome-read (some ret) before h = refl
next_outcome-read (some escalate) before h = refl
next_outcome-read (some fail) before h = refl
next_outcome-read (some await) before h = refl

parse_record-ne_cont : (t : Text) → parse_record t ≢ some cont
parse_record-ne_cont t h = (((parse_record-eq_some_iff t cont).0 h).1) refl

module _ {A : Type 0} (from_yaml : Text → Option A) (no_head : A) where
  outcome_of-ne_cont : (content : Text) → outcome_of from_yaml no_head content ≢ some cont
  outcome_of-ne_cont content h = elim (Result-cases (split_frontmatter from_yaml no_head content)) [
    | inr (e, k) ↦ none-ne-some (rw (k, outcome_of) at h)
    | inl (split, k) ↦ parse_record-ne_cont (trim (first_line (split.1))) (rw (k, outcome_of) at h)
  ]

  module _ (refused : Refusal) (components : Text → FilePath)
      (workflows : HashMap Text Workflow) where
    detect_control_outcome-ne_cont :
        (workflow_id stage_id : Text) (files : Files)
        → detect_control_outcome from_yaml no_head refused components workflows workflow_id stage_id
            files
          ≢ some cont
    unfolding detect_control_outcome
    detect_control_outcome-ne_cont workflow_id stage_id files h =
        elim (Result-cases (find_stage workflows workflow_id stage_id)) [
          | inr (e, k) ↦ none-ne-some (rw (k, detect_control_outcome) at h)
          | inl (stage, k) ↦
              let result =
                read_to_string refused (bytes "result.md" ∷ components stage.output_path) files in
              elim (Result-cases result) [
                | inr (e, j) ↦ none-ne-some (rw j at (rw (k, detect_control_outcome) at h))
                | inl (content, j) ↦
                    outcome_of-ne_cont content (rw j at (rw (k, detect_control_outcome) at h))
              ]
        ]

    -- Where a stage is marked as complete with what is found in its result, and nothing is refused, the
    -- plan then reads that outcome, or the one of an earlier run if none is found.
    pub mark_stage_complete-detect_control_outcome :
        (workflow_id stage_id : Text) (files : Files) (stage : Stage)
        → find_stage workflows workflow_id stage_id ≡ ok stage
        → IsFree refused (components stage.path)
        → (let outcome =
              detect_control_outcome from_yaml no_head refused components workflows workflow_id
                stage_id files in
            outcome_in refused (components stage.path) (
              (mark_stage_complete refused components workflows workflow_id stage_id outcome
                files).1)
            ≡ or_before outcome (outcome_in refused (components stage.path) files))
    mark_stage_complete-detect_control_outcome workflow_id stage_id files stage found free =
        let outcome =
          detect_control_outcome from_yaml no_head refused components workflows workflow_id stage_id
            files in
        mark_stage_complete-outcome_in refused components workflows workflow_id stage_id outcome
          files stage found free
        ∙ next_outcome-read outcome (outcome_in refused (components stage.path) files)
            (detect_control_outcome-ne_cont workflow_id stage_id files)
