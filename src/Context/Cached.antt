-- ===== src/Context/Cached.antt =====
-- crates/zerochain-core/src/context.rs: reading through the cache is reading the file.
use zerochain.Prelude.{
  ◌≡◌, refl, sym, ◌∙◌, subst, Option, some, Text, text_eq_instance, Result, ok, err, Option-cases,
  Result-cases, inl, inr, ok-injective, err-ne-ok,
}
use zerochain.Errors.{Error, io_error}
use zerochain.HashMap
use zerochain.HashMap.{HashMap, get-insert_cases}
use zerochain.Frontmatter.{ContextFrontmatter}
use zerochain.Context.{Context, parse, from_md_file_cached}

-- Equal but for the file that they came from.
abbrev pub IsSame : {M : Type 0} → Context M → Context M → Type 0
IsSame a b = (a.frontmatter ≡ b.frontmatter) × (a.body ≡ b.body)

module _ {M : Type 0} (from_yaml : Text → Option (ContextFrontmatter M)) where
  -- Every entry is what its text is parsed as, but for the file.
  abbrev pub IsCoherent : HashMap Text (Context M) → Type 0
  IsCoherent cache =
      (content : Text) (c : Context M)
      → HashMap.get content cache ≡ some c
      → (p : Context M) × (parse from_yaml content ≡ ok p) × IsSame c p

  -- What a text is parsed as, but for the file.
  abbrev pub IsParsed : Text → Context M → Type 0
  IsParsed content c = (p : Context M) × (parse from_yaml content ≡ ok p) × IsSame c p

  insert-IsCoherent :
      (cache : HashMap Text (Context M)) (content : Text) (entry : Context M)
      → IsCoherent cache
      → IsParsed content entry
      → IsCoherent (HashMap.insert content entry cache)
  insert-IsCoherent cache content entry coherent parsed text c h =
      elim (get-insert_cases text content entry c cache h) [
        | inl (same, e) ↦ subst (λ t. IsParsed t c) same (subst (IsParsed content) (sym e) parsed)
        | inr (other, k) ↦ coherent text c k
      ]

  module _ (read_to_string : Text → Result (Unit {0}) Text) (path : Text) where
    abbrev IsRead : Result Error (Context M) × HashMap Text (Context M) → Type 0
    IsRead x =
        IsCoherent x.1
        × ((content : Text)
            → read_to_string path ≡ ok content
            → (c : Context M) → x.0 ≡ ok c
            → IsParsed content c)

    IsRead-err :
        (cache : HashMap Text (Context M)) (e : Error) → IsCoherent cache → IsRead (err e, cache)
    IsRead-err cache e coherent = (coherent, λ content k c h. absurd (err-ne-ok h))

    IsRead-ok :
        (cache : HashMap Text (Context M)) (content : Text) (found : Context M)
        → IsCoherent cache
        → read_to_string path ≡ ok content
        → IsParsed content found
        → IsRead (ok found, cache)
    IsRead-ok cache content found coherent k parsed = (
      coherent,
      λ text l c h.
          subst (λ t. IsParsed t c) (ok-injective (sym k ∙ l))
            (subst (IsParsed content) (ok-injective h) parsed),
    )

    -- From a cache whose entries are what their texts are parsed as, but for the file they name, a
    -- file is read as what its text is parsed as, but for the file, and the cache stays one of that
    -- kind, also where reading or parsing fails.
    pub from_md_file_cached-IsCoherent :
        (cache : HashMap Text (Context M))
        → IsCoherent cache
        → IsCoherent ((from_md_file_cached from_yaml read_to_string path cache).1)
          × ((content : Text)
              → read_to_string path ≡ ok content
              → (c : Context M) → (from_md_file_cached from_yaml read_to_string path cache).0 ≡ ok c
              → IsParsed content c)
    unfolding from_md_file_cached
    from_md_file_cached-IsCoherent cache coherent = elim (Result-cases (read_to_string path)) [
      | inr (e, k) ↦
          subst IsRead (sym (rw (k, from_md_file_cached) refl))
            (IsRead-err cache (io_error path) coherent)
      | inl (content, k) ↦ elim (Option-cases (HashMap.get content cache)) [
        | inr (c, hit) ↦
            subst IsRead (sym (rw (k, from_md_file_cached) (rw hit refl)))
              (IsRead-ok cache content c coherent k (coherent content c hit))
        | inl miss ↦ elim (Result-cases (parse from_yaml content)) [
          | inr (e, bad) ↦
              subst IsRead (sym (rw (k, from_md_file_cached) (rw miss (rw bad refl))))
                (IsRead-err cache e coherent)
          | inl (p, good) ↦
              let entry : Context M = record p { source_path = some path } in
              let parsed : IsParsed content entry = (p, good, (refl, refl)) in
              let entered = insert-IsCoherent cache content entry coherent parsed in
              subst IsRead (sym (rw (k, from_md_file_cached) (rw miss (rw good refl))))
                (IsRead-ok (HashMap.insert content entry cache) content entry entered k parsed)
        ]
      ]
    ]
