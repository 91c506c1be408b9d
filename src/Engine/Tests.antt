-- ===== src/Engine/Tests.antt =====
-- Runs of crates/zerochain-engine/src/state.rs on small directories.
use mathlib.Core.List.{Perm}
use zerochain.Prelude.{
  ◌≡◌, ◌≢◌, ◌≤◌, refl, true, some, List, [], ◌∷◌, ◌++◌, Text, bytes, Ordering, length, All, arith,
  ok, false, none, if◌then◌else◌,
}
use zerochain.Text.Search.{starts_with}
use zerochain.Engine.Snapshots.{
  old_snapshots, find_latest_snapshot, compare_names, max_snapshots_per_workflow, snap_name,
  snapshot_chrono_key,
}
use zerochain.Engine.Snapshots.Kept.{
  kept_snapshots, old_snapshots-AreOld, find_latest_snapshot-IsNewest, find_latest_snapshot-other,
}
use zerochain.Text.{trim}
use zerochain.Text.{trim_start}
use zerochain.Text.Lines.{lines}
use zerochain.Context.{split_frontmatter, strip_bom, starts_frontmatter}
use zerochain.Engine.Outcome.{detect_control_outcome, mark_stage_complete-detect_control_outcome}
use zerochain.HashMap.{HashMap}
use zerochain.Disk.{FilePath, path_eq, Files, Refusal}
use zerochain.Stage.{Stage, parse, parse_parts, stage_id_eq}
use zerochain.Workflow.{Workflow, stage_by_id}
use zerochain.Graph.Control.{ret, await, fail, parse_record}
use zerochain.Engine.Marks.{find_stage, mark_stage_complete}
use zerochain.Engine.Marks.Marked.{control_text, outcome_in}
use zerochain.Engine.Marks.Ended.{IsFree, mark_stage_complete-Marks, mark_stage_complete-outcome_in}

abbrev two_snapshots : List Text
two_snapshots = bytes "00_a.20250101T000000Z.9" ∷ bytes "00_a.20250101T000000Z.10" ∷ []

old_snapshots-AreOld_example :
    Perm (old_snapshots two_snapshots ++ kept_snapshots two_snapshots) two_snapshots
    × (length (kept_snapshots two_snapshots) ≤ max_snapshots_per_workflow)
    × (max_snapshots_per_workflow ≤ length two_snapshots
        → length (kept_snapshots two_snapshots) ≡ max_snapshots_per_workflow)
    × All
        (λ old. All (λ new. compare_names old new ≢ Ordering.gt) (kept_snapshots two_snapshots))
        (old_snapshots two_snapshots)
old_snapshots-AreOld_example = old_snapshots-AreOld two_snapshots

find_latest_snapshot-IsNewest_example :
    (starts_with (bytes "00_a" ++ b'.' ∷ []) (bytes "00_a.20250101T000000Z.10") ≡ true)
    × All
        (λ n.
          starts_with (bytes "00_a" ++ b'.' ∷ []) n ≡ true
          → compare_names n (bytes "00_a.20250101T000000Z.10") ≢ Ordering.gt)
        two_snapshots
unfolding find_latest_snapshot compare_names snapshot_chrono_key
find_latest_snapshot-IsNewest_example =
    find_latest_snapshot-IsNewest (bytes "00_a") (bytes "00_a.20250101T000000Z.10") two_snapshots
      refl

find_latest_snapshot-other_example :
    find_latest_snapshot (bytes "00_a") (
      snap_name (bytes "00_a") (bytes "2024") 5
      ∷ snap_name (bytes "00_a" ++ b'.' ∷ bytes "b") (bytes "2025") 7
      ∷ [])
    ≡ some (snap_name (bytes "00_a" ++ b'.' ∷ bytes "b") (bytes "2025") 7)
find_latest_snapshot-other_example =
    find_latest_snapshot-other (bytes "00_a") (bytes "b") (bytes "2024") (bytes "2025") 5 7 refl
      refl (omega arith) (omega arith) refl

abbrev stage_a : Stage
stage_a = record {
  id = record { sequence = 0; name = bytes "a"; raw = bytes "00_a" };
  path = bytes "w/00_a";
  context_path = bytes "w/00_a/CONTEXT.md";
  input_path = bytes "w/00_a/input";
  output_path = bytes "w/00_a/output";
  is_complete = false;
  is_error = false;
  human_gate = false;
  container_image = none;
  command = none;
}

abbrev workflows : HashMap Text Workflow
workflows =
    (bytes "w", record { root = bytes "w"; id = bytes "w"; stages = stage_a ∷ []; task = none })
    ∷ []

-- One name for a path.
abbrev components : Text → FilePath
components p = p ∷ []

-- The stage failed, and was to wait in an earlier run.
abbrev failed_files : Files
failed_files p =
    if path_eq p (components (bytes "w/00_a"))
    then none
    else if path_eq p (bytes ".error" ∷ components (bytes "w/00_a"))
    then some (bytes "no")
    else if path_eq p (bytes ".control" ∷ components (bytes "w/00_a"))
    then some (bytes "zerochain.control.v1.await")
    else none

abbrev nothing_refused : Refusal
nothing_refused p = false

stage_a_IsFree : IsFree nothing_refused (components stage_a.path)
stage_a_IsFree = record { complete_marker = refl; error_marker = refl; control = refl }

stage_a_found : find_stage workflows (bytes "w") (bytes "00_a") ≡ ok stage_a
unfolding find_stage parse stage_by_id parse_parts stage_id_eq
stage_a_found = refl

mark_stage_complete-Marks_example :
    ((mark_stage_complete nothing_refused components workflows
        (bytes "w")
        (bytes "00_a")
        (some ret)
        failed_files).0
      ≡ ok tt)
    × ((q : FilePath)
        → (mark_stage_complete nothing_refused components workflows
              (bytes "w")
              (bytes "00_a")
              (some ret)
              failed_files).1
            q
          ≡ (if path_eq (bytes ".control" ∷ components stage_a.path) q
              then control_text (some ret) (failed_files q)
              else if path_eq (bytes ".error" ∷ components stage_a.path) q
              then none
              else if path_eq (bytes ".complete" ∷ components stage_a.path) q
              then some []
              else failed_files q))
mark_stage_complete-Marks_example =
    mark_stage_complete-Marks nothing_refused components workflows (bytes "w") (bytes "00_a")
      (some ret) failed_files stage_a stage_a_found stage_a_IsFree

-- The result is there, and begins with an outcome.
abbrev failing_files : Files
failing_files p =
    if path_eq p (bytes "result.md" ∷ components (bytes "w/00_a/output"))
    then some (bytes "zerochain.control.v1.fail" ++ b'\n' ∷ bytes "Too hard")
    else failed_files p

mark_stage_complete-detect_control_outcome_example :
    outcome_in nothing_refused (components (bytes "w/00_a")) (
      (mark_stage_complete nothing_refused components workflows
        (bytes "w")
        (bytes "00_a")
        (detect_control_outcome
          (λ s. some tt)
          tt
          nothing_refused
          components
          workflows
          (bytes "w")
          (bytes "00_a")
          failing_files)
        failing_files).1)
    ≡ some fail
unfolding detect_control_outcome find_stage parse stage_by_id parse_parts stage_id_eq
    split_frontmatter trim_start strip_bom starts_frontmatter trim parse_record lines
mark_stage_complete-detect_control_outcome_example =
    mark_stage_complete-detect_control_outcome (λ s. some tt) tt nothing_refused components
      workflows (bytes "w") (bytes "00_a") failing_files stage_a stage_a_found stage_a_IsFree

-- With no result, the outcome of the earlier run counts again.
earlier_outcome_counts :
    outcome_in nothing_refused (components (bytes "w/00_a")) (
      (mark_stage_complete nothing_refused components workflows
        (bytes "w")
        (bytes "00_a")
        none
        failed_files).1)
    ≡ some await
unfolding outcome_in parse_record trim
earlier_outcome_counts =
    mark_stage_complete-outcome_in nothing_refused components workflows (bytes "w") (bytes "00_a")
      none failed_files stage_a stage_a_found stage_a_IsFree
