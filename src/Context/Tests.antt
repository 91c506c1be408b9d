-- ===== src/Context/Tests.antt =====
-- Runs of crates/zerochain-core/src/context.rs and of the head of a file in
-- crates/zerochain-core/src/okf.rs on a small file.
use zerochain.Prelude.{
  ℕ, ◌≡◌, ◌⊎◌, refl, Option, none, some, [], ◌∷◌, ◌++◌, Text, bytes, text_eq, text_eq_instance,
  if◌then◌else◌, Result, ok,
}
use zerochain.Text.{trim_start}
use zerochain.Frontmatter.{ContextFrontmatter, default}
use zerochain.Context.{
  Context, from_md_file_cached, split_frontmatter, strip_bom, starts_frontmatter,
  find_closing_delimiter,
}
use zerochain.Context.Cached.{IsCoherent, IsParsed, from_md_file_cached-IsCoherent}
use zerochain.Context.Head.{IsUnmarked, HasHead}
use zerochain.Context.Parts.{IsSplit, split_frontmatter-IsSplit}

abbrev head : ContextFrontmatter ℕ
head = record (default {M = ℕ}) { role = some (bytes "author") }

-- A reader that knows one head.
abbrev from_yaml : Text → Option (ContextFrontmatter ℕ)
from_yaml s = if text_eq s (b'\n' ∷ bytes "role: author") then some head else none

abbrev content : Text
content =
    bytes " ---" ++ b'\n' ∷ (bytes "role: author" ++ b'\n' ∷ (bytes "---" ++ b'\n' ∷ bytes "Write"))

split_frontmatter-IsSplit_example :
    (text : Text) × IsUnmarked content text
    × ((HasHead (trim_start text) → ⊥) × (head ≡ default) × (bytes "Write" ≡ content)
        ⊎ HasHead (trim_start text) × IsSplit from_yaml text head (bytes "Write"))
unfolding split_frontmatter trim_start strip_bom starts_frontmatter find_closing_delimiter
split_frontmatter-IsSplit_example =
    split_frontmatter-IsSplit from_yaml default head content (bytes "Write") refl

-- A disk that has the same file everywhere.
abbrev read_to_string : Text → Result (Unit {0}) Text
read_to_string path = ok content

from_md_file_cached-IsCoherent_example :
    IsCoherent from_yaml
      ((from_md_file_cached from_yaml read_to_string (bytes "a/CONTEXT.md") []).1)
    × ((text : Text)
        → read_to_string (bytes "a/CONTEXT.md") ≡ ok text
        → (c : Context ℕ)
        → (from_md_file_cached from_yaml read_to_string (bytes "a/CONTEXT.md") []).0 ≡ ok c
        → IsParsed from_yaml text c)
from_md_file_cached-IsCoherent_example =
    from_md_file_cached-IsCoherent from_yaml read_to_string (bytes "a/CONTEXT.md") []
      (λ text c h. absurd cc)
