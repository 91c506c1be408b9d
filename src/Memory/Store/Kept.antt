-- ===== src/Memory/Store/Kept.antt =====
-- crates/zerochain-memory/src/graph_store.rs: publishing takes nothing away.
use zerochain.Prelude.{
  ℕ, ◌≡◌, ◌≢◌, ◌⊎◌, refl, sym, ap, ◌∙◌, some, [], ◌∷◌, ◌++◌, Text, bytes, Result, ok, err, arith,
  Result-cases, inl, inr,
}
use zerochain.Disk.{FilePath, path_eq_iff, Files, Refusal}
use zerochain.Memory.Record.{ContributionRecord, validate}
use zerochain.Memory.Record.Markdown.{Formats, MemoryError, invalid, to_markdown}
use zerochain.Memory.Store.{
  record_file, tmp_file, identified, check_parents, check_target, write_record, publish,
}

abbrev last_byte : ℕ → Text → ℕ
last_byte d [] = d
last_byte d (c ∷ s) = last_byte c s

last_byte-append : (d : ℕ) (s : Text) (c : ℕ) (t : Text) → last_byte d (s ++ c ∷ t) ≡ last_byte c t
last_byte-append d [] c t = refl
last_byte-append d (x ∷ s) c t = last_byte-append x s c t

-- A record's file is never one of the files that are being written.
pub record_file-ne-tmp_file : (a b : Text) → record_file a ≢ tmp_file b
record_file-ne-tmp_file a b e =
    let same = ap (last_byte 0) e in
    let md = last_byte-append 0 a b'.' (bytes "md") in
    let tmp = last_byte-append 0 b b'.' (bytes "md.tmp") in
    let differ : ◌≡◌ {A = ℕ} b'd' b'p' = sym md ∙ same ∙ tmp in omega (arith, differ)

module _ {F : Type 0} (formats : Formats F) (refused : Refusal) (dir : FilePath) where
  write_record-kept :
      (r : ContributionRecord F) (content : Text) (files : Files) (id c : Text)
      → files (record_file id ∷ dir) ≡ some c
      → (write_record formats refused dir r content files).1 (record_file id ∷ dir) ≡ some c
  write_record-kept r content files id c h = ground (
    arith,
    h,
    record_file-ne-tmp_file id r.id,
    path_eq_iff (tmp_file r.id ∷ dir) (record_file id ∷ dir),
    path_eq_iff (record_file r.id ∷ dir) (record_file id ∷ dir),
    path_eq_iff (tmp_file r.id ∷ dir) (tmp_file r.id ∷ dir),
  )

  -- What is checked before the record is written.
  pub record IsChecked (given : ContributionRecord F) (files : Files) : Type 0 where
    pub checked : ContributionRecord F
    pub content : Text
    pub own : identified formats refused dir given ≡ ok checked
    pub parents : check_parents formats refused dir checked.parents files ≡ ok tt
    pub target : check_target formats refused dir checked.target files ≡ ok tt
    pub printed : to_markdown formats checked ≡ ok content
    pub rest :
        publish formats refused dir given files
        ≡ write_record formats refused dir checked content files

  abbrev pub IsRefused : ContributionRecord F → Files → Type 0
  IsRefused given files =
      (e : MemoryError) × (publish formats refused dir given files ≡ (err e, files))

  -- A publication is refused before anything is written, or all checks succeed.
  pub publish-IsChecked :
      (given : ContributionRecord F) (files : Files) → IsRefused given files ⊎ IsChecked given files
  unfolding publish
  publish-IsChecked given files = elim (Result-cases (invalid (validate given))) [
    | inr (e, k) ↦ inl (e, ground (arith, k))
    | inl (v, k) ↦ elim (Result-cases (identified formats refused dir given)) [
      | inr (e, k₁) ↦ inl (e, ground (arith, k, k₁))
      | inl (r, k₁) ↦ elim (Result-cases (check_parents formats refused dir r.parents files)) [
        | inr (e, k₂) ↦ inl (e, ground (arith, k, k₁, k₂))
        | inl (p, k₂) ↦ elim (Result-cases (check_target formats refused dir r.target files)) [
          | inr (e, k₃) ↦ inl (e, ground (arith, k, k₁, k₂, k₃))
          | inl (t, k₃) ↦ elim (Result-cases (to_markdown formats r)) [
            | inr (e, k₄) ↦ inl (e, ground (arith, k, k₁, k₂, k₃, k₄))
            | inl (content, k₄) ↦ inr (record {
              checked = r;
              content = content;
              own = k₁;
              parents = k₂;
              target = k₃;
              printed = k₄;
              rest = ground (arith, k, k₁, k₂, k₃, k₄);
            })
          ]
        ]
      ]
    ]
  ]

  -- Whatever is published, and whether that succeeds or fails: every record file that was there is
  -- there with the same content.
  pub publish-kept :
      (given : ContributionRecord F) (files : Files) (id content : Text)
      → files (record_file id ∷ dir) ≡ some content
      → (publish formats refused dir given files).1 (record_file id ∷ dir) ≡ some content
  publish-kept given files id content h = elim (publish-IsChecked given files) [
    | inl (e, k) ↦
        ap (λ (x : Result MemoryError (ContributionRecord F) × Files). x.1 (record_file id ∷ dir)) k
        ∙ h
    | inr c ↦
        ap (λ (x : Result MemoryError (ContributionRecord F) × Files). x.1 (record_file id ∷ dir))
          c.rest
        ∙ write_record-kept c.checked c.content files id content h
  ]
