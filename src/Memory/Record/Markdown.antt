-- ===== src/Memory/Record/Markdown.antt =====
-- crates/zerochain-memory/src/record.rs: a record as a Markdown file with a YAML head, and its
-- identifier. The hash of a canonical record in hexadecimal, and YAML, are parameters.
use zerochain.Prelude.{
  ℕ, ◌+◌, not, ◌&&◌, Option, none, some, List, [], ◌∷◌, ◌++◌, if◌then◌else◌, Text, bytes, text_eq,
  Result, ok, err, ok_or, ◌>>=◌, take, drop,
}
use zerochain.Text.{is_empty, trim_start}
use zerochain.Text.Search.{starts_with, find_text, strip_suffix, replace_crlf}
use zerochain.Text.Lines.{strip_prefix}
use zerochain.Disk.{FilePath, ErrorKind}
use zerochain.Memory.Record.{
  ContributionRecord, ContributionType, ContributionMetric, Verdict, InvalidInput, type_text,
  parse_type, verdict_text, parse_verdict, missing_frontmatter, unclosed_frontmatter, missing_type,
  missing_created, id_mismatch, hash_mismatch,
}

pub data MemoryError : Type 0 where
  io_error : FilePath → ErrorKind → MemoryError
  invalid_input : InvalidInput → MemoryError
  serialization : MemoryError
  other : Text → MemoryError

-- A record without its identifier.
pub record CanonicalRecord (F : Type 0) : Type 0 where
  pub record_type : ContributionType
  pub parents : List Text
  pub actor : Text
  pub created : ℕ
  pub workflow : Option Text
  pub stage : Option Text
  pub metric : Option (ContributionMetric F)
  pub tags : List Text
  pub artifacts : List Text
  pub verdict : Option Verdict
  pub target : Option Text
  pub body : Text

pub record RecordFrontmatter (F : Type 0) : Type 0 where
  pub id : Option Text
  pub record_type : Option Text
  pub parents : List Text
  pub actor : Option Text
  pub created : Option ℕ
  pub workflow : Option Text
  pub stage : Option Text
  pub metric : Option (ContributionMetric F)
  pub tags : List Text
  pub artifacts : List Text
  pub verdict : Option Text
  pub target : Option Text

-- `serde_json` with `blake3` in hexadecimal, and `serde_yml`.
pub record Formats (F : Type 0) : Type 0 where
  pub hash : CanonicalRecord F → Text
  pub to_yaml : RecordFrontmatter F → Option Text
  pub from_yaml : Text → Option (RecordFrontmatter F)

-- "\n---\n" and "\n---"
abbrev pub closing_line : Text
closing_line = b'\n' ∷ (bytes "---" ++ b'\n' ∷ [])

abbrev pub closing_end : Text
closing_end = b'\n' ∷ bytes "---"

abbrev pub or_default_text : Option Text → Text
or_default_text none = []
or_default_text (some s) = s

abbrev pub invalid : {A : Type 0} → Result InvalidInput A → Result MemoryError A
invalid (ok a) = ok a
invalid (err e) = err (invalid_input e)

-- `map(|v| Verdict::parse(&v)).transpose()`
abbrev pub verdict_of : Option Text → Result InvalidInput (Option Verdict)
verdict_of none = ok none
verdict_of (some s) = parse_verdict s >>= λ v. ok (some v)

abbrev pub canonical : {F : Type 0} → ContributionRecord F → CanonicalRecord F
canonical r = record {
  record_type = r.record_type;
  parents = r.parents;
  actor = r.actor;
  created = r.created;
  workflow = r.workflow;
  stage = r.stage;
  metric = r.metric;
  tags = r.tags;
  artifacts = r.artifacts;
  verdict = r.verdict;
  target = r.target;
  body = r.body;
}

-- What follows the opening fence, as the text of the head and the body.
abbrev pub split_body : Text → Option (Text × Text)
split_body after_first = elim (find_text closing_line after_first) [
  | some i ↦
      let raw = drop (i + 5) after_first in
      some (take i after_first, (elim (strip_prefix (bytes "\n") raw) [ none ↦ raw | some b ↦ b ]))
  | none ↦ elim (strip_suffix closing_end after_first) [ some yaml ↦ some (yaml, []) | none ↦ none ]
]

module _ {F : Type 0} (formats : Formats F) where
  unfoldable pub compute_id : ContributionRecord F → Text
  compute_id r = bytes "c-" ++ take 16 (formats.hash (canonical r))

  abbrev pub head_of : ContributionRecord F → RecordFrontmatter F
  head_of r = record {
    id = some (if is_empty r.id then compute_id r else r.id);
    record_type = some (type_text r.record_type);
    parents = r.parents;
    actor = some r.actor;
    created = some r.created;
    workflow = r.workflow;
    stage = r.stage;
    metric = r.metric;
    tags = r.tags;
    artifacts = r.artifacts;
    verdict = elim r.verdict [ none ↦ none | some v ↦ some (verdict_text v) ];
    target = r.target;
  }

  unfoldable pub to_markdown : ContributionRecord F → Result MemoryError Text
  to_markdown r = do
    yaml ← ok_or (formats.to_yaml (head_of r)) serialization
    ok (bytes "---\n" ++ (yaml ++ (bytes "---\n\n" ++ r.body)))

  abbrev pub record_of : RecordFrontmatter F → Text → Result MemoryError (ContributionRecord F)
  record_of fm body = do
    type_name ← ok_or fm.record_type (invalid_input missing_type)
    record_type ← invalid (parse_type type_name)
    created ← ok_or fm.created (invalid_input missing_created)
    verdict ← invalid (verdict_of fm.verdict)
    ok (record {
      id = or_default_text fm.id;
      record_type = record_type;
      parents = fm.parents;
      actor = or_default_text fm.actor;
      created = created;
      workflow = fm.workflow;
      stage = fm.stage;
      metric = fm.metric;
      tags = fm.tags;
      artifacts = fm.artifacts;
      verdict = verdict;
      target = fm.target;
      body = body;
    })

  -- What the head and the body are read as.
  abbrev pub read_parts : Option (Text × Text) → Result MemoryError (ContributionRecord F)
  read_parts split = do
    parts ← ok_or split (invalid_input unclosed_frontmatter)
    fm ← ok_or (formats.from_yaml (parts.0)) serialization
    record_of fm (parts.1)

  unfoldable pub from_markdown : Text → Result MemoryError (ContributionRecord F)
  from_markdown content =
      let trimmed = trim_start (replace_crlf content) in
      if not (starts_with (bytes "---") trimmed)
      then err (invalid_input missing_frontmatter)
      else read_parts (split_body (drop 3 trimmed))

  unfoldable pub from_markdown_with_id : Text → Text → Result MemoryError (ContributionRecord F)
  from_markdown_with_id content id = do
    r ← from_markdown content
    if not (is_empty r.id) && not (text_eq r.id id)
        then err (invalid_input (id_mismatch r.id))
        else if not (text_eq (compute_id r) id)
        then err (invalid_input (hash_mismatch id))
        else ok (record r { id = id })
