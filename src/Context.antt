-- ===== src/Context.antt =====
-- crates/zerochain-core/src/context.rs, and what crates/zerochain-core/src/okf.rs has of the head of a
-- Markdown file: a stage's context, read from its file or from a cache. The reader of YAML is a
-- parameter, as is the metric `M` of a head. Contexts in Lua are not modelled.
pub mod Head
pub mod Parts
pub mod Cached
mod Tests
use zerochain.Prelude.{
  ℕ, zero, suc, ◌+◌, Bool, true, false, not, ◌&&◌, Option, none, some, List, [], ◌∷◌, ◌++◌, nat_eq,
  if◌then◌else◌, Text, bytes, text_eq, text_eq_instance, Result, ok, err, ok_or, ◌>>=◌, take, drop,
}
use zerochain.Text.{is_empty, trim_start, take_while}
use zerochain.Text.Search.{starts_with}
use zerochain.Text.Lines.{strip_prefix}
use zerochain.Errors.{Error, io_error, unterminated_frontmatter, yaml_parse}
use zerochain.HashMap
use zerochain.HashMap.{HashMap}
use zerochain.Frontmatter.{ContextFrontmatter, default, merge}

-- The ending of a line of dashes: the number of bytes from the break before it to the body.
abbrev pub body_offset : Text → Option ℕ
body_offset [] = some 4
body_offset (c ∷ []) = if nat_eq c b'\n' then some 5 else none
body_offset (c ∷ d ∷ s) =
    if nat_eq c b'\n' then some 5 else if nat_eq c b'\r' && nat_eq d b'\n' then some 6 else none

-- The break before the closing line at the front of a text, if one is there.
abbrev pub closes_at : ℕ → Text → Option ℕ
closes_at c s =
    if nat_eq c b'\n' && starts_with (bytes "---") s then body_offset (drop 3 s) else none

-- The end of the head, and the start of the body.
unfoldable pub find_closing_delimiter : Text → Option (ℕ × ℕ)
find_closing_delimiter [] = none
find_closing_delimiter (c ∷ s) =
    let rest = find_closing_delimiter s in
    elim (closes_at c s) [
      | some n ↦ some (0, n)
      | none ↦ elim rest [ none ↦ none | some (i, j) ↦ some (suc i, suc j) ]
    ]

-- U+FEFF
abbrev pub bom : Text
bom = 0xef ∷ 0xbb ∷ 0xbf ∷ []

unfoldable pub strip_bom : Text → Text
strip_bom content = elim (strip_prefix bom content) [ none ↦ content | some rest ↦ rest ]

-- `trim_end_matches('\r')`
abbrev pub trim_returns : Text → Text
trim_returns [] = []
trim_returns (c ∷ s) =
    let rest = trim_returns s in if nat_eq c b'\r' && is_empty rest then [] else c ∷ rest

unfoldable pub starts_frontmatter : Text → Bool
starts_frontmatter trimmed =
    text_eq (trim_returns (take_while (λ c. not (nat_eq c b'\n')) trimmed)) (bytes "---")

pub record Context (M : Type 0) : Type 0 where
  pub frontmatter : ContextFrontmatter M
  pub body : Text
  pub source_path : Option Text

-- `okf::split_frontmatter`, for any head with a default.
module _ {A : Type 0} (from_yaml : Text → Option A) (no_head : A) where
  unfoldable pub split_frontmatter : Text → Result Error (A × Text)
  split_frontmatter content =
      let trimmed = trim_start (strip_bom content) in
      let after_first = drop 3 trimmed in
      if not (starts_frontmatter trimmed) then ok (no_head, content) else do
        ends ← ok_or (find_closing_delimiter after_first) unterminated_frontmatter
        fm ← ok_or (from_yaml (take (ends.0) after_first)) yaml_parse
        ok (fm, trim_start (drop (ends.1) after_first))

  unfoldable pub parse_frontmatter_only : Text → Result Error A
  parse_frontmatter_only content =
      let trimmed = trim_start (strip_bom content) in
      let after_first = drop 3 trimmed in
      if not (starts_frontmatter trimmed) then ok no_head else do
        ends ← ok_or (find_closing_delimiter after_first) unterminated_frontmatter
        ok_or (from_yaml (take (ends.0) after_first)) yaml_parse

module _ {M : Type 0} (from_yaml : Text → Option (ContextFrontmatter M)) where
  unfoldable pub parse : Text → Result Error (Context M)
  parse content =
      let trimmed = trim_start (strip_bom content) in
      let after_first = drop 3 trimmed in
      if not (starts_frontmatter trimmed)
      then ok (record { frontmatter = default; body = content; source_path = none })
      else do
        ends ← ok_or (find_closing_delimiter after_first) unterminated_frontmatter
        fm ← ok_or (from_yaml (take (ends.0) after_first)) yaml_parse
        ok (record {
          frontmatter = fm;
          body = trim_start (drop (ends.1) after_first);
          source_path = none;
        })

  -- A cache, by the texts that were read.
  abbrev pub ContextCache : Type 0
  ContextCache = HashMap Text (Context M)

  -- The file at a path is read by `read_to_string`; the cache comes back with what was entered.
  unfoldable pub from_md_file_cached :
      (Text → Result (Unit {0}) Text)
      → Text
      → ContextCache
      → Result Error (Context M) × ContextCache
  from_md_file_cached read_to_string path cache = elim (read_to_string path) [
    | err e ↦ (err (io_error path), cache)
    | ok content ↦ elim (HashMap.get content cache) [
      | some cached ↦ (ok cached, cache)
      | none ↦ elim (parse content) [
        | err e ↦ (err e, cache)
        | ok ctx ↦ (
          ok (record ctx { source_path = some path }),
          HashMap.insert content (record ctx { source_path = some path }) cache,
        )
      ]
    ]
  ]

unfoldable pub flatten : {M : Type 0} → Context M → Option (Context M) → Context M
flatten c parent = record c {
  frontmatter = merge c.frontmatter (elim parent [ none ↦ default | some p ↦ p.frontmatter ]);
}
