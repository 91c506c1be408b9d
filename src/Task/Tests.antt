-- ===== src/Task/Tests.antt =====
-- Runs of crates/zerochain-core/src/task.rs on a small task file.
use zerochain.Prelude.{Option, none, some, [], ◌∷◌, ◌++◌, Text, bytes, text_eq, if◌then◌else◌}
use zerochain.Task.{Task, TaskFrontmatter}

abbrev head : TaskFrontmatter
head = record {
  id = bytes "t";
  title = bytes "T";
  status = [];
  priority = none;
  execution = none;
  acceptance_criteria = [];
  parents = [];
}

-- A reader that knows one head.
abbrev from_yaml : Text → Option TaskFrontmatter
from_yaml s = if text_eq s (b'\n' ∷ bytes "id: t") then some head else none

abbrev content : Text
content = bytes " ---" ++ b'\n' ∷ (bytes "id: t" ++ b'\n' ∷ (bytes "---" ++ b'\n' ∷ bytes "Do it"))

abbrev task : Task
task = record { head = head; description = bytes "Do it"; source_path = none }
