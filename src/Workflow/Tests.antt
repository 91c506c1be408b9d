-- ===== src/Workflow/Tests.antt =====
-- Runs of crates/zerochain-core/src/workflow.rs on a small directory.
use mathlib.Core.List.{Perm, reverse}
use zerochain.Prelude.{
  ℕ, ◌≡◌, ◌≢◌, refl, true, false, not, Option, none, some, List, [], ◌∷◌, ◌++◌, nat_eq, Text, bytes,
  text_eq, text_eq_iff, Result, ok, err, All, arith, length, ◌≤◌, ok-injective, subst,
}
use zerochain.Text.{take_while}
use zerochain.Text.Decimal.{decimal, padded}
use zerochain.Stage.{Stage, parse, parse_parts, cmp, sort_key}
use zerochain.Stage.FromDir.{FileSystem, no_settings, from_dir, refresh_markers}
use zerochain.Task.{Task, stage_names}
use zerochain.Workflow.{Workflow, Tree, load, validate_stage_component, sort_stages, stage_index}
use zerochain.Workflow.Change.{
  Os, place_after, insert_stage_after, remove_stage, refresh_stages, set_at,
}
use zerochain.Workflow.Init.{sanitized_id, checked_names, stage_defs}
use zerochain.Workflow.Names.{IsComponent, checked_names-IsComponent}
use zerochain.Workflow.Loaded.{stage_dirs, raw_names, IsSorted, load-Sorted, AreJoined}
use zerochain.Workflow.Edited.{remove_stage-insert_stage_after}
use zerochain.Workflow.Refreshed.{refresh_stages-target, refresh_stages-shifted}

-- Behind the last slash.
abbrev last_name : Text → Option Text
last_name p = some (reverse (take_while (λ c. not (nat_eq c b'/')) (reverse p)))

-- The files of the tree: a marker of completion in each stage.
abbrev files : FileSystem
files = record {
  join = λ p n. p ++ b'/' ∷ n;
  file_name = last_name;
  try_exists = λ p. ok false;
  from_md_file = λ p. ok no_settings;
}

abbrev entries : List (Result (Unit {0}) Text)
entries = ok (bytes "01_b") ∷ ok (bytes ".git") ∷ ok (bytes "00_a") ∷ ok (bytes "notes") ∷ []

abbrev tree : Tree
tree = record {
  files = files;
  is_dir = λ p. ok (not (text_eq p (bytes "w/09_gone")));
  entry_is_dir = λ p. ok true;
  read_dir = λ p. ok entries;
  read_to_string = λ p. err tt;
  from_yaml = λ s. none;
}

abbrev stage_at : (sequence : ℕ) (name raw : Text) → Stage
stage_at sequence name raw = record {
  id = record { sequence = sequence; name = name; raw = raw };
  path = bytes "w/" ++ raw;
  context_path = bytes "w/" ++ raw ++ bytes "/CONTEXT.md";
  input_path = bytes "w/" ++ raw ++ bytes "/input";
  output_path = bytes "w/" ++ raw ++ bytes "/output";
  is_complete = false;
  is_error = false;
  human_gate = false;
  container_image = none;
  command = none;
}

abbrev stage_a : Stage
stage_a = stage_at 0 (bytes "a") (bytes "00_a")

abbrev stage_b : Stage
stage_b = stage_at 1 (bytes "b") (bytes "01_b")

abbrev flow : Workflow
flow = record { root = bytes "w"; id = bytes "w"; stages = stage_a ∷ stage_b ∷ []; task = none }

joined :
    (es : List (Result (Unit {0}) Text))
    → tree.read_dir (bytes "w") ≡ ok es
    → AreJoined files (bytes "w") es
joined es h =
    subst (AreJoined files (bytes "w")) (ok-injective h) (refl, (refl, (refl, (refl, tt))))

load-Sorted_example :
    (es : List (Result (Unit {0}) Text)) × (tree.read_dir (bytes "w") ≡ ok es)
    × Perm (raw_names flow.stages) (stage_dirs tree (bytes "w") es)
    × IsSorted flow.stages
    × (flow.stages ≢ [])
unfolding load from_dir parse parse_parts cmp sort_key
load-Sorted_example = load-Sorted tree (bytes "w") flow joined refl

-- Calls that change nothing the model of the tree shows.
abbrev os : Os
os = record {
  create_dir_all = λ p t. ok t;
  write = λ p c t. ok t;
  remove_dir_all = λ p t. ok t;
  symlink = λ p q t. ok t;
}

abbrev stage_c : Stage
stage_c = stage_at 2 (bytes "c") (bytes "02_c")

abbrev longer : Workflow
longer = record flow { stages = stage_a ∷ stage_b ∷ stage_c ∷ [] }

abbrev shorter : Workflow
shorter = record longer { stages = stage_a ∷ stage_b ∷ [] }

remove_stage-insert_stage_after_example : shorter ≡ flow
unfolding place_after insert_stage_after validate_stage_component stage_index padded decimal
    from_dir parse parse_parts remove_stage
remove_stage-insert_stage_after_example =
    remove_stage-insert_stage_after os flow longer tree tree (bytes "01_b") (bytes "c") 1
      (bytes "02_c") refl refl refl tree shorter refl

abbrev small_task : Task
small_task = record {
  head = record {
    id = bytes "a/../b";
    title = [];
    status = [];
    priority = none;
    execution = none;
    acceptance_criteria = [];
    parents = [];
  };
  description = [];
  source_path = none;
}

abbrev three_names : List Text
three_names = bytes "00_stage_0" ∷ bytes "01_stage_1" ∷ bytes "02_stage_2" ∷ []

checked_names-IsComponent_example :
    IsComponent (bytes "a---b")
    × (length (bytes "a---b") ≤ 128)
    × (three_names ≡ stage_defs small_task)
    × All IsComponent three_names
unfolding checked_names sanitized_id padded decimal validate_stage_component stage_names
checked_names-IsComponent_example =
    checked_names-IsComponent small_task (bytes "a---b") three_names refl refl

-- A NUL byte between two dots: the directory above.
sanitized_nul : sanitized_id (b'.' ∷ 0 ∷ b'.' ∷ []) ≡ bytes ".."
unfolding sanitized_id
sanitized_nul = refl

refresh_stages-target_example :
    refresh_stages tree (bytes "w") (bytes "01_b") flow.stages
    ≡ (ok tt, sort_stages (set_at 1 stage_b flow.stages))
unfolding refresh_markers parse parse_parts
refresh_stages-target_example =
    refresh_stages-target tree (bytes "w") (bytes "01_b") flow.stages entries stage_b.id 1 stage_b
      stage_b (refl, (refl, tt)) refl
      ((λ e. (1, refl)), ((λ e. absurd cc), ((λ e. (0, refl)), ((λ e. absurd cc), tt)))) refl refl
      refl refl

differ : (s t : Text) → text_eq s t ≡ false → s ≢ t
differ s t h e = ground (arith, h, text_eq_iff s t, e)

abbrev gone : Stage
gone = stage_at 9 (bytes "gone") (bytes "09_gone")

refresh_stages-shifted_example :
    refresh_stages tree (bytes "w") (bytes "00_a") (gone ∷ stage_a ∷ stage_b ∷ [])
    ≡ (ok tt, sort_stages (stage_a ∷ stage_b ∷ []))
unfolding refresh_markers parse parse_parts
refresh_stages-shifted_example =
    refresh_stages-shifted tree (bytes "w") gone stage_a stage_b stage_b [] entries stage_a.id refl
      (refl, (refl, tt)) refl
      ((λ e. (1, refl)), ((λ e. absurd cc), ((λ e. (0, refl)), ((λ e. absurd cc), tt)))) refl
      (differ (bytes "09_gone") (bytes "00_a") refl) (differ (bytes "00_a") (bytes "01_b") refl)
      refl
