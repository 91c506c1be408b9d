-- ===== src/Memory/Record/Written.antt =====
-- crates/zerochain-memory/src/record.rs: a record that is written is read back.
use zerochain.Prelude.{
  ◌≡◌, ◌≢◌, refl, sym, ap, ◌∙◌, subst, false, Option, none, some, [], ◌∷◌, ◌++◌, Text, bytes,
  text_eq_iff, ok, ok_or, ◌>>=◌, drop, arith, >>=-eq-ok, ok-injective, inl, inr, Option-cases,
}
use zerochain.Text.{trim_start, take-length_append}
use zerochain.Text.Search.{
  contains_text, find_text-fresh, replace_crlf, replace_crlf-absent, append_assoc, drop-past,
}
use zerochain.Memory.Record.{
  ContributionRecord, ContributionType, setup, result, insight, hypothesis, verification, report,
  Verdict, confirmed, partial, failed, type_text, parse_type, verdict_text, parse_verdict,
}
use zerochain.Memory.Record.Markdown.{
  Formats, RecordFrontmatter, MemoryError, verdict_of, closing_line, closing_end, split_body,
  compute_id, head_of, to_markdown, record_of, read_parts, from_markdown, from_markdown_with_id,
  serialization,
}

-- What YAML is relied on for at a head: its text ends its last line, is read back below the line
-- that opens the head, and holds no line of dashes alone.
abbrev pub IsYaml : {F : Type 0} → Formats F → RecordFrontmatter F → Type 0
IsYaml {F} formats fm =
    (text : Text)
    → formats.to_yaml fm ≡ some text
    → (lines : Text) × (text ≡ lines ++ b'\n' ∷ [])
      × (formats.from_yaml (b'\n' ∷ lines) ≡ some fm)
      × (contains_text closing_line (b'\n' ∷ lines ++ closing_end) ≡ false)

type-parsed : (t : ContributionType) → parse_type (type_text t) ≡ ok t
unfolding parse_type type_text
type-parsed setup = refl
type-parsed result = refl
type-parsed insight = refl
type-parsed hypothesis = refl
type-parsed verification = refl
type-parsed report = refl

verdict-parsed : (v : Verdict) → parse_verdict (verdict_text v) ≡ ok v
unfolding parse_verdict verdict_text
verdict-parsed confirmed = refl
verdict-parsed partial = refl
verdict-parsed failed = refl

ok_or-ok : {A : Type 0} (o : Option A) (e : MemoryError) {a : A} → ok_or o e ≡ ok a → o ≡ some a
ok_or-ok none e h = absurd cc
ok_or-ok (some b) e h = ap some (ok-injective h)

pub compute_id-ne_nil :
    {F : Type 0} (formats : Formats F) (r : ContributionRecord F) → compute_id formats r ≢ []
unfolding compute_id
compute_id-ne_nil formats r e = absurd cc

-- The text after the opening fence is split where the writer put the closing one.
split_body-written :
    (lines body : Text)
    → contains_text closing_line (b'\n' ∷ lines ++ closing_end) ≡ false
    → split_body (b'\n' ∷ lines ++ (closing_end ++ b'\n' ∷ b'\n' ∷ body))
      ≡ some (b'\n' ∷ lines, body)
split_body-written lines body h =
    let head = b'\n' ∷ lines in
    let found = find_text-fresh head closing_end b'\n' (b'\n' ∷ body) h in
    let rest = closing_end ++ b'\n' ∷ b'\n' ∷ body in
    rw (found, split_body) (rw (take-length_append head rest) (rw (drop-past head rest 5) refl))

from_markdown-split :
    {F : Type 0} (formats : Formats F) (after_first yaml body : Text) (fm : RecordFrontmatter F)
    → replace_crlf after_first ≡ after_first
    → split_body after_first ≡ some (yaml, body)
    → formats.from_yaml yaml ≡ some fm
    → from_markdown formats (bytes "---" ++ after_first) ≡ record_of formats fm body
unfolding from_markdown trim_start
from_markdown-split formats after_first yaml body fm unix parts read =
    ap (λ t. read_parts formats (split_body t)) unix
    ∙ ap (read_parts formats) parts
    ∙ ap (λ o. ok_or o serialization >>= λ fm. record_of formats fm body) read

module _ {F : Type 0} (formats : Formats F) (r : ContributionRecord F) where
  verdict_of-written : verdict_of ((head_of formats r).verdict) ≡ ok r.verdict
  verdict_of-written = elim (Option-cases r.verdict) [
    | inl e ↦ ground (arith, e)
    | inr (v, e) ↦ ground (arith, e, verdict-parsed v)
  ]

  record_of-written : r.id ≢ [] → record_of formats (head_of formats r) r.body ≡ ok r
  record_of-written some_id = ground (arith, type-parsed r.record_type, verdict_of-written, some_id)

  -- A record with an identifier, whose text has no line that ends in a carriage return, is read back
  -- from the text that is written for it.
  pub from_markdown-to_markdown :
      (text : Text)
      → IsYaml formats (head_of formats r)
      → r.id ≢ []
      → to_markdown formats r ≡ ok text
      → contains_text (bytes "\r\n") text ≡ false
      → from_markdown formats text ≡ ok r
  unfolding to_markdown
  from_markdown-to_markdown text yaml some_id h unix =
      let (head, e₁, h₁) =
        >>=-eq-ok (ok_or (formats.to_yaml (head_of formats r)) serialization) _ h in
      let (lines, ended, read, clean) = yaml head (ok_or-ok _ _ e₁) in
      let tail = closing_end ++ b'\n' ∷ b'\n' ∷ r.body in
      let after_first = b'\n' ∷ lines ++ tail in
      let spelled : text ≡ bytes "---" ++ after_first =
        sym (ok-injective h₁)
        ∙ ap (λ l. bytes "---\n" ++ (l ++ (bytes "---\n\n" ++ r.body))) ended
        ∙ ap (λ l. bytes "---\n" ++ l)
            (append_assoc lines (b'\n' ∷ []) (bytes "---\n\n" ++ r.body)) in
      let kept = subst (λ t. replace_crlf t ≡ t) spelled (replace_crlf-absent text unix) in
      ap (from_markdown formats) spelled
      ∙ from_markdown-split formats after_first (b'\n' ∷ lines) r.body (head_of formats r)
          (ap (λ t. drop 3 t) kept) (split_body-written lines r.body clean) read
      ∙ record_of-written some_id

  -- A record whose identifier is that of its content is read back under it from the text that is
  -- written for it, unless a line of that text ends in a carriage return.
  pub from_markdown_with_id-to_markdown :
      (text : Text)
      → IsYaml formats (head_of formats r)
      → r.id ≡ compute_id formats r
      → to_markdown formats r ≡ ok text
      → contains_text (bytes "\r\n") text ≡ false
      → from_markdown_with_id formats text r.id ≡ ok r
  unfolding from_markdown_with_id
  from_markdown_with_id-to_markdown text yaml own h unix =
      let some_id : r.id ≢ [] = λ e. compute_id-ne_nil formats r (sym own ∙ e) in
      rw (from_markdown-to_markdown text yaml some_id h unix)
        (ground (arith, text_eq_iff r.id r.id, text_eq_iff (compute_id formats r) r.id, sym own))
