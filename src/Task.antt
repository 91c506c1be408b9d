-- ===== src/Task.antt =====
-- crates/zerochain-core/src/task.rs: a task, and reading it from a Markdown text with a YAML head.
-- The reader of YAML is a parameter.
mod Tests
use zerochain.Prelude.{
  ◌+◌, Bool, true, false, not, Option, none, some, List, [], ◌∷◌, ◌++◌, if◌then◌else◌, Text, bytes,
  Result, ok, err, ok_or, ◌>>=◌, take, drop, length, ◌≡◌, refl, sym, ap, ◌∙◌, arith, Bool-cases,
  inl, inr, >>=-eq-ok, ok-injective, subst,
}
use zerochain.Text.{trim_start}
use zerochain.Text.Search.{starts_with, find_text, find_text-split, starts_with-split}
use zerochain.Errors.{Error, task_parse, missing_frontmatter, unclosed_frontmatter, yaml_error}

pub record TaskExecution : Type 0 where
  pub stages : List Text
  pub strategy : Option Text

pub record TaskFrontmatter : Type 0 where
  pub id : Text
  pub title : Text
  pub status : Text
  pub priority : Option Text
  pub execution : Option TaskExecution
  pub acceptance_criteria : List Text
  pub parents : List Text

-- The fields of the head, the text below it, and the file.
pub record Task : Type 0 where
  pub head : TaskFrontmatter
  pub description : Text
  pub source_path : Option Text

abbrev pub fence : Text
fence = bytes "---"

-- "\n---"
abbrev pub closing : Text
closing = b'\n' ∷ bytes "---"

module _ (from_yaml : Text → Option TaskFrontmatter) where
  unfoldable pub parse : Text → Result Error Task
  parse content =
      let trimmed = trim_start content in
      let after_first = drop 3 trimmed in
      if not (starts_with fence trimmed) then err (task_parse missing_frontmatter) else do
        end_marker ← ok_or (find_text closing after_first) (task_parse unclosed_frontmatter)
        fm ← ok_or (from_yaml (take end_marker after_first)) (task_parse yaml_error)
        ok (record {
          head = fm;
          description = trim_start (drop (end_marker + 4) after_first);
          source_path = none;
        })

-- `self.execution.as_ref().map(|e| e.stages.clone()).unwrap_or_default()`
unfoldable pub stage_names : Task → List Text
stage_names t = elim t.head.execution [ none ↦ [] | some e ↦ e.stages ]

-- How a text that was read as a task is put together.
pub record IsTask (from_yaml : Text → Option TaskFrontmatter) (content : Text) (t : Task)
    : Type 0 where
  pub yaml : Text
  pub rest : Text
  pub split : trim_start content ≡ fence ++ yaml ++ closing ++ rest
  pub head : from_yaml yaml ≡ some t.head
  pub description : t.description ≡ trim_start rest
  pub unnamed : t.source_path ≡ none

ok_or-ok : {E A : Type 0} (o : Option A) (e : E) {a : A} → ok_or o e ≡ ok a → o ≡ some a
ok_or-ok none e h = absurd cc
ok_or-ok (some b) e h = ap some (ok-injective h)

-- A text that is read as a task is, but for white space in front, a line of dashes that opens a head
-- which the reader of YAML takes for the task's fields, a line of dashes that closes it, and below it
-- the description, less white space in front.
pub parse-IsTask :
    (from_yaml : Text → Option TaskFrontmatter) (content : Text) (t : Task)
    → parse from_yaml content ≡ ok t
    → IsTask from_yaml content t
unfolding parse
parse-IsTask from_yaml content t h =
    let trimmed = trim_start content in
    elim (Bool-cases (starts_with fence trimmed)) [
      | inr e ↦ ground (arith, e)
      | inl e ↦
          let k = rw e at h in
          let (i, found, h₁) =
            >>=-eq-ok (ok_or (find_text closing (drop 3 trimmed)) (task_parse unclosed_frontmatter))
              _ k in
          let (fm, read, h₂) =
            >>=-eq-ok (ok_or (from_yaml (take i (drop 3 trimmed))) (task_parse yaml_error)) _ h₁ in
          subst (IsTask from_yaml content) (ok-injective h₂) (record {
            yaml = take i (drop 3 trimmed);
            rest = drop (i + 4) (drop 3 trimmed);
            split =
                starts_with-split fence trimmed e
                ∙ ap (λ s. fence ++ s)
                    (find_text-split closing (drop 3 trimmed) i (ok_or-ok _ _ found));
            head = ok_or-ok _ _ read;
            description = refl;
            unnamed = refl;
          })
    ]
