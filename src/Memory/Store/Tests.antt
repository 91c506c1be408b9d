-- ===== src/Memory/Store/Tests.antt =====
-- Runs of crates/zerochain-memory/src/graph_store.rs with small formats: one record, one head.
use zerochain.Prelude.{
  ℕ, ◌≡◌, refl, sym, true, false, none, some, [], ◌∷◌, ◌++◌, Text, bytes, ok, All, some-inj, subst,
  ok-injective,
}
use zerochain.Text.{trim_start}
use zerochain.Text.Search.{contains_text}
use zerochain.Disk.{Files, FilePath}
use zerochain.Memory.Record.{ContributionRecord, insight, validate, type_text, parse_type}
use zerochain.Memory.Record.Markdown.{
  Formats, RecordFrontmatter, compute_id, head_of, to_markdown, from_markdown,
  from_markdown_with_id,
}
use zerochain.Memory.Record.Written.{IsYaml}
use zerochain.Memory.Store.{publish, get, list, read_entry, record_file, is_valid_record_id}
use zerochain.Memory.Store.Kept.{publish-kept}
use zerochain.Memory.Store.Published.{get-publish, publish-parents, list-IsAuthentic}

abbrev note : ContributionRecord ℕ
note = record {
  id = bytes "c-0123456789abcdef";
  record_type = insight;
  parents = [];
  actor = bytes "a";
  created = 5;
  workflow = none;
  stage = none;
  metric = none;
  tags = [];
  artifacts = [];
  verdict = none;
  target = none;
  body = bytes "seen";
}

abbrev note_head : RecordFrontmatter ℕ
note_head = record {
  id = some (bytes "c-0123456789abcdef");
  record_type = some (bytes "insight");
  parents = [];
  actor = some (bytes "a");
  created = some 5;
  workflow = none;
  stage = none;
  metric = none;
  tags = [];
  artifacts = [];
  verdict = none;
  target = none;
}

abbrev formats : Formats ℕ
formats = record {
  hash = λ c. bytes "0123456789abcdef";
  to_yaml = λ fm. some (bytes "x" ++ b'\n' ∷ []);
  from_yaml = λ s. some note_head;
}

note_head-IsYaml : IsYaml formats (head_of formats note)
unfolding type_text compute_id
note_head-IsYaml text h = (bytes "x", sym (some-inj h), refl, refl)

abbrev store_dir : FilePath
store_dir = bytes "contributions" ∷ []

abbrev no_files : Files
no_files = λ p. none

abbrev note_text : Text
note_text =
    bytes "---" ++ b'\n' ∷ (bytes "x" ++ b'\n' ∷ (bytes "---" ++ b'\n' ∷ (b'\n' ∷ bytes "seen")))

note_unix :
    (content : Text)
    → to_markdown formats note ≡ ok content
    → contains_text (bytes "\r\n") content ≡ false
unfolding to_markdown
note_unix content h = subst (λ t. contains_text (bytes "\r\n") t ≡ false) (ok-injective h) refl

get-publish_example :
    get formats
      (λ p. false)
      store_dir
      note.id
      ((publish formats (λ p. false) store_dir note no_files).1)
    ≡ ok (some note)
unfolding publish validate compute_id to_markdown
get-publish_example =
    get-publish formats (λ p. false) store_dir note note no_files note_head-IsYaml refl note_unix
      refl

publish-parents_example :
    (note.id ≡ compute_id formats note)
    × All
        (λ id.
          (is_valid_record_id id ≡ true)
          × ((p : ContributionRecord ℕ) × (get formats (λ p. false) store_dir id no_files
                ≡ ok (some p))))
        note.parents
unfolding publish validate compute_id to_markdown
publish-parents_example = publish-parents formats (λ p. false) store_dir note note no_files refl

publish-kept_example :
    (publish formats (λ p. false) store_dir note (λ p. some (bytes "old"))).1
      (record_file (bytes "c-1") ∷ store_dir)
    ≡ some (bytes "old")
publish-kept_example =
    publish-kept formats (λ p. false) store_dir note (λ p. some (bytes "old")) (bytes "c-1")
      (bytes "old") refl

list-IsAuthentic_example : All (λ r. r.id ≡ compute_id formats r) (note ∷ [])
unfolding list read_entry from_markdown_with_id from_markdown trim_start parse_type compute_id
list-IsAuthentic_example =
    list-IsAuthentic formats (λ p. false) store_dir
      (ok (bytes "c-0123456789abcdef.md") ∷ ok (bytes "notes.txt") ∷ []) (λ p. some note_text)
      (note ∷ []) refl
