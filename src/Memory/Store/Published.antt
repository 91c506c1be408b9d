-- ===== src/Memory/Store/Published.antt =====
-- crates/zerochain-memory/src/graph_store.rs: a record that was published is found.
use zerochain.Prelude.{
  ◌≡◌, refl, sym, ap, ◌∙◌, subst, true, false, not, ◌&&◌, some, List, [], ◌∷◌, Text, bytes, text_eq,
  text_eq_iff, Result, ok, err, arith, All, Bool-cases, Option-cases, Result-cases, inl, inr,
  ok-injective, err-ne-ok, some-inj, >>=-eq-ok,
}
use zerochain.Text.{is_empty}
use zerochain.Text.Search.{contains_text, strip_suffix}
use zerochain.Disk.{FilePath, path_eq_iff, Files, Refusal, read_to_string, ErrorKind}
use zerochain.Memory.Record.{ContributionRecord}
use zerochain.Memory.Record.Markdown.{
  Formats, MemoryError, to_markdown, head_of, compute_id, from_markdown, from_markdown_with_id,
}
use zerochain.Memory.Record.Written.{IsYaml, from_markdown_with_id-to_markdown}
use zerochain.Memory.Store.Kept.{publish-IsChecked}
use zerochain.Memory.Store.{
  list, read_entry, record_file, tmp_file, identified, check_parents, check_target, write_record,
  publish, get, is_path_shaped, is_valid_record_id,
}

module _ {F : Type 0} (formats : Formats F) (refused : Refusal) (dir : FilePath) where
  -- What a publication that succeeds has checked and written.
  pub record IsPublished (files after : Files) (r : ContributionRecord F) : Type 0 where
    pub own : r.id ≡ compute_id formats r
    pub parents : check_parents formats refused dir r.parents files ≡ ok tt
    pub target : check_target formats refused dir r.target files ≡ ok tt
    pub content : Text
    pub printed : to_markdown formats r ≡ ok content
    pub readable : refused (record_file r.id ∷ dir) ≡ false
    pub written : after (record_file r.id ∷ dir) ≡ some content

  identified-own :
      (given r : ContributionRecord F)
      → identified formats refused dir given ≡ ok r
      → r.id ≡ compute_id formats r
  unfolding compute_id
  identified-own given r h = elim (Bool-cases (is_empty given.id)) [
    | inl e ↦ ground (arith, e, h)
    | inr e ↦ elim (Bool-cases (text_eq given.id (compute_id formats given))) [
      | inl k ↦
          let same : given ≡ r = ok-injective (rw k at (rw e at h)) in
          subst (λ (x : ContributionRecord F). x.id ≡ compute_id formats x) same
            ((text_eq_iff given.id (compute_id formats given)).0 k)
      | inr k ↦ absurd (err-ne-ok (rw k at (rw e at h)))
    ]
  ]

  write_record-written :
      (r r' : ContributionRecord F) (content : Text) (files : Files)
      → (write_record formats refused dir r content files).0 ≡ ok r'
      → (r ≡ r')
        × (refused (record_file r.id ∷ dir) ≡ false)
        × ((write_record formats refused dir r content files).1 (record_file r.id ∷ dir)
            ≡ some content)
  write_record-written r r' content files h = elim (Bool-cases (refused (record_file r.id ∷ dir))) [
    | inl e ↦ ground (arith, e)
    | inr e ↦ elim (Option-cases (files (record_file r.id ∷ dir))) [
      | inr (existing, k) ↦ elim (Bool-cases (text_eq existing content)) [
        | inl same ↦ ground (arith, e, k, same, h, text_eq_iff existing content)
        | inr other ↦ ground (arith, e, k, other, h)
      ]
      | inl k ↦ elim (Bool-cases (refused (tmp_file r.id ∷ dir))) [
        | inl stop ↦ ground (arith, e, k, stop, h)
        | inr free ↦ ground (
          arith,
          e,
          k,
          free,
          h,
          path_eq_iff (tmp_file r.id ∷ dir) (tmp_file r.id ∷ dir),
          path_eq_iff (record_file r.id ∷ dir) (record_file r.id ∷ dir),
        )
      ]
    ]
  ]

  -- A publication that succeeds has checked the identifier, the parents and the target, and the
  -- record's text stands in its file.
  pub publish-IsPublished :
      (given r : ContributionRecord F) (files : Files)
      → (publish formats refused dir given files).0 ≡ ok r
      → IsPublished files ((publish formats refused dir given files).1) r
  publish-IsPublished given r files h = elim (publish-IsChecked formats refused dir given files) [
    | inl (e, k) ↦ ground (arith, k, h)
    | inr c ↦
        let result = λ (x : Result MemoryError (ContributionRecord F) × Files). x.0 in
        let (same, readable, written) =
          write_record-written c.checked r c.content files (sym (ap result c.rest) ∙ h) in
        subst (IsPublished files ((publish formats refused dir given files).1)) same (record {
          own = identified-own given c.checked c.own;
          parents = c.parents;
          target = c.target;
          content = c.content;
          printed = c.printed;
          readable = readable;
          written =
              ap
                (λ (x : Result MemoryError (ContributionRecord F) × Files).
                  x.1 (record_file c.checked.id ∷ dir))
                c.rest
              ∙ written;
        })
  ]

  -- A record that was published is found under its identifier, unless a line of its text ends in a
  -- carriage return. Its identifier is no path, and YAML is written and read as relied on.
  pub get-publish :
      (given r : ContributionRecord F) (files : Files)
      → IsYaml formats (head_of formats r)
      → is_path_shaped r.id ≡ false
      → ((content : Text)
          → to_markdown formats r ≡ ok content
          → contains_text (bytes "\r\n") content ≡ false)
      → (publish formats refused dir given files).0 ≡ ok r
      → get formats refused dir r.id ((publish formats refused dir given files).1) ≡ ok (some r)
  unfolding get
  get-publish given r files yaml plain unix h =
      let p = publish-IsPublished given r files h in
      let back =
        from_markdown_with_id-to_markdown formats r p.content yaml p.own p.printed
          (unix p.content p.printed) in
      ground (arith, plain, p.readable, p.written, back)

  check_parents-All :
      (parents : List Text) (files : Files)
      → check_parents formats refused dir parents files ≡ ok tt
      → All
          (λ id.
            (is_valid_record_id id ≡ true)
            × ((r : ContributionRecord F) × (get formats refused dir id files ≡ ok (some r))))
          parents
  check_parents-All [] files h = tt
  check_parents-All (id ∷ parents) files h = elim (Bool-cases (is_valid_record_id id)) [
    | inr e ↦ ground (arith, e, h)
    | inl e ↦ elim (Result-cases (get formats refused dir id files)) [
      | inr (x, k) ↦ ground (arith, e, k, h)
      | inl (o, k) ↦ elim (Option-cases o) [
        | inl f ↦ ground (arith, e, k, f, h)
        | inr (r, f) ↦
            ((e, (r, k ∙ ap ok f)), check_parents-All parents files (ground (arith, e, k, f, h)))
      ]
    ]
  ]

  -- A record that was published has the identifier of its content, and its parents are records that
  -- were there, under identifiers of the right form.
  pub publish-parents :
      (given r : ContributionRecord F) (files : Files)
      → (publish formats refused dir given files).0 ≡ ok r
      → (r.id ≡ compute_id formats r)
        × All
            (λ id.
              (is_valid_record_id id ≡ true)
              × ((p : ContributionRecord F) × (get formats refused dir id files ≡ ok (some p))))
            r.parents
  publish-parents given r files h =
      let p = publish-IsPublished given r files h in
      (p.own, check_parents-All r.parents files p.parents)

  from_markdown_with_id-own :
      (content id : Text) (r : ContributionRecord F)
      → from_markdown_with_id formats content id ≡ ok r
      → (r.id ≡ id) × (r.id ≡ compute_id formats r)
  unfolding from_markdown_with_id compute_id
  from_markdown_with_id-own content id r h =
      let (given, e, k) = >>=-eq-ok (from_markdown formats content) _ h in
      elim (Bool-cases (not (is_empty given.id) && not (text_eq given.id id))) [
        | inl a ↦ absurd (err-ne-ok (rw a at k))
        | inr a ↦ elim (Bool-cases (text_eq (compute_id formats given) id)) [
          | inr b ↦ absurd (err-ne-ok (rw b at (rw a at k)))
          | inl b ↦
              let same : record given { id = id } ≡ r = ok-injective (rw b at (rw a at k)) in
              let own = sym ((text_eq_iff (compute_id formats given) id).0 b) in
              subst (λ (x : ContributionRecord F). (x.id ≡ id) × (x.id ≡ compute_id formats x)) same
                (refl, own)
        ]
      ]

  read_entry-own :
      (name : Text) (files : Files) (r : ContributionRecord F)
      → read_entry formats refused dir name files ≡ some r
      → r.id ≡ compute_id formats r
  unfolding read_entry
  read_entry-own name files r h = elim (Option-cases (strip_suffix (bytes ".md") name)) [
    | inl e ↦ ground (arith, e, h)
    | inr (id, e) ↦ elim (Bool-cases (is_empty id)) [
      | inl k ↦ ground (arith, e, k, h)
      | inr k ↦ elim (Result-cases (read_to_string refused (name ∷ dir) files)) [
        | inr (x, l) ↦ ground (arith, e, k, l, h)
        | inl (content, l) ↦ elim (Result-cases (from_markdown_with_id formats content id)) [
          | inr (x, m) ↦ ground (arith, e, k, l, m, h)
          | inl (given, m) ↦
              let same : given ≡ r =
                some-inj (rw m at (rw l at (rw k at (rw (e, read_entry) at h)))) in
              subst (λ (x : ContributionRecord F). x.id ≡ compute_id formats x) same
                ((from_markdown_with_id-own content id given m).1)
        ]
      ]
    ]
  ]

  -- Every record that is listed has the identifier of its content, whatever the files hold.
  pub list-IsAuthentic :
      (entries : List (Result ErrorKind Text)) (files : Files)
      (records : List (ContributionRecord F))
      → list formats refused dir entries files ≡ ok records
      → All (λ r. r.id ≡ compute_id formats r) records
  unfolding list
  list-IsAuthentic [] files records h =
      subst (All (λ r. r.id ≡ compute_id formats r)) (ok-injective h) tt
  list-IsAuthentic (err e ∷ entries) files records h = absurd (err-ne-ok h)
  list-IsAuthentic (ok name ∷ entries) files records h =
      elim (Option-cases (read_entry formats refused dir name files)) [
        | inl e ↦ list-IsAuthentic entries files records (rw (e, list) at h)
        | inr (r, e) ↦ elim (Result-cases (list formats refused dir entries files)) [
          | inr (x, k) ↦ absurd (err-ne-ok (rw k at (rw (e, list) at h)))
          | inl (rest, k) ↦
              subst (All (λ r. r.id ≡ compute_id formats r))
                (ok-injective (rw k at (rw (e, list) at h)))
                (read_entry-own name files r e, list-IsAuthentic entries files rest k)
        ]
      ]
