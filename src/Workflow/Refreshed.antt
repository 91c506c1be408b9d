-- ===== src/Workflow/Refreshed.antt =====
-- crates/zerochain-core/src/workflow.rs: which stage `refresh_stage` refreshes.
use zerochain.Prelude.{
  ℕ, zero, suc, ◌≡◌, ◌≢◌, refl, sym, ap, ◌∙◌, true, false, some, List, [], ◌∷◌, Text, text_eq,
  text_eq_iff, Result, ok, err, All, select, arith, Bool-cases, inl, inr, Option-cases, some-inj,
}
use zerochain.Stage.{Stage, StageId, parse}
use zerochain.Stage.FromDir.{refresh_markers}
use zerochain.Workflow.{Tree, index_of, is_stage_name, sort_stages}
use zerochain.Workflow.Change.{
  nth, set_at, is_there, add_new, refreshed_idx, refresh_at, refresh_stages, sorted_if_ok,
  added_stages, refresh_behind,
}

-- The directories of the stages are still there.
abbrev pub AreThere : Tree → List Stage → Type 0
AreThere t = All (λ s. is_there t s.path ≡ true)

-- The entries that are stages are loaded, and none failed.
abbrev pub AreKnown : List Stage → List (Result (Unit {0}) Text) → Type 0
AreKnown stages [] = Unit
AreKnown stages (err e ∷ entries) = ⊥
AreKnown stages (ok name ∷ entries) =
    (is_stage_name name ≡ true → (i : ℕ) × (index_of name stages ≡ some i))
    × AreKnown stages entries

module _ (t : Tree) where
  select-there :
      (stages : List Stage) → AreThere t stages → select (λ s. is_there t s.path) stages ≡ stages
  select-there [] h = refl
  select-there (s ∷ stages) h = ground (arith, select-there stages h.1, h.0)

  add_new-known :
      (root : Text) (entries : List (Result (Unit {0}) Text)) (stages : List Stage)
      → AreKnown stages entries
      → add_new t root entries stages ≡ (ok tt, stages)
  add_new-known root [] stages h = refl
  add_new-known root (err e ∷ entries) stages h = absurd h
  add_new-known root (ok name ∷ entries) stages h =
      let ih = add_new-known root entries stages h.1 in
      elim (Bool-cases (is_stage_name name)) [
        | inr e ↦ ground (arith, e, ih)
        | inl e ↦ let (i, k) = h.0 e in ground (arith, e, k, ih)
      ]

  nth-index_of :
      (raw : Text) (stages : List Stage) (i : ℕ)
      → index_of raw stages ≡ some i
      → (s : Stage) × (nth i stages ≡ some s) × (s.id.raw ≡ raw)
  nth-index_of raw [] i h = absurd cc
  nth-index_of raw (s ∷ stages) i h = elim (Bool-cases (text_eq s.id.raw raw)) [
    | inl e ↦
        let zeroth : i ≡ zero = ground (arith, e, h) in
        (s, ap (λ n. nth n (s ∷ stages)) zeroth, (text_eq_iff s.id.raw raw).0 e)
    | inr e ↦ elim (Option-cases (index_of raw stages)) [
      | inl k ↦ ground (arith, e, k, h)
      | inr (j, k) ↦
          let later : i ≡ suc j = ground (arith, e, k, h) in
          let (x, f, g) = nth-index_of raw stages j k in
          (x, ap (λ n. nth n (s ∷ stages)) later ∙ f, g)
    ]
  ]

  refresh_stages-behind :
      (root raw : Text) (stages kept : List Stage) (entries : List (Result (Unit {0}) Text))
      (id : StageId)
      → parse raw ≡ ok id
      → select (λ s. is_there t s.path) stages ≡ kept
      → t.read_dir root ≡ ok entries
      → add_new t root entries kept ≡ (ok tt, kept)
      → refresh_stages t root raw stages
        ≡ refresh_behind t (index_of raw stages) id.raw (ok tt, kept)
  unfolding refresh_stages
  refresh_stages-behind root raw stages kept entries id parsed here listed added =
      rw (parsed, refresh_stages)
        (rw here
          (rw (listed, added_stages) (ap (refresh_behind t (index_of raw stages) id.raw) added)))

  refresh_at-found :
      (i : ℕ) (s s' : Stage) (stages : List Stage)
      → nth i stages ≡ some s
      → refresh_markers t.files s ≡ ok s'
      → refresh_at t (some i) stages ≡ (ok tt, set_at i s' stages)
  refresh_at-found i s s' stages e f = rw (e, refresh_at) (rw f refl)

  -- If no directory of a loaded stage went away and no new one came, refreshing a stage reads its
  -- markers anew, and sorts.
  pub refresh_stages-target :
      (root raw : Text) (stages : List Stage) (entries : List (Result (Unit {0}) Text))
      (id : StageId) (i : ℕ) (s s' : Stage)
      → AreThere t stages
      → t.read_dir root ≡ ok entries
      → AreKnown stages entries
      → parse raw ≡ ok id
      → index_of raw stages ≡ some i
      → nth i stages ≡ some s
      → refresh_markers t.files s ≡ ok s'
      → refresh_stages t root raw stages ≡ (ok tt, sort_stages (set_at i s' stages))
  unfolding refresh_stages
  refresh_stages-target root raw stages entries id i s s' there listed known parsed at found fresh =
      let (x, f, g) = nth-index_of raw stages i at in
      let same : x ≡ s = some-inj (sym f ∙ found) in
      let own : index_of s.id.raw stages ≡ some i =
        ap (λ r. index_of r stages) (ap (λ (y : Stage). y.id.raw) (sym same) ∙ g) ∙ at in
      let kept = select-there stages there in
      let added = add_new-known root entries stages known in
      let target : refreshed_idx (index_of raw stages) id.raw stages ≡ some i =
        ground (arith, at, found, own) in
      refresh_stages-behind root raw stages stages entries id parsed kept listed added
      ∙ ap (λ j. sorted_if_ok (refresh_at t j stages)) target
      ∙ ap sorted_if_ok (refresh_at-found i s s' stages found fresh)

  -- If the directory of the first stage went away, refreshing the second one by its name reads the
  -- markers of the third anew, and leaves those of the second as they were. The directories of the
  -- others are there, no new one came, and the names of the three differ.
  pub refresh_stages-shifted :
      (root : Text) (gone x y y' : Stage) (rest : List Stage)
      (entries : List (Result (Unit {0}) Text)) (id : StageId)
      → is_there t gone.path ≡ false
      → AreThere t (x ∷ y ∷ rest)
      → t.read_dir root ≡ ok entries
      → AreKnown (x ∷ y ∷ rest) entries
      → parse x.id.raw ≡ ok id
      → gone.id.raw ≢ x.id.raw
      → x.id.raw ≢ y.id.raw
      → refresh_markers t.files y ≡ ok y'
      → refresh_stages t root x.id.raw (gone ∷ x ∷ y ∷ rest) ≡ (ok tt, sort_stages (x ∷ y' ∷ rest))
  unfolding refresh_stages
  refresh_stages-shifted root gone x y y' rest entries id lost there listed known parsed ne₁ ne₂
        fresh =
      let kept = select-there (x ∷ y ∷ rest) there in
      let added = add_new-known root entries (x ∷ y ∷ rest) known in
      let now = x ∷ y ∷ rest in
      let here : select (λ s. is_there t s.path) (gone ∷ now) ≡ now = rw lost kept in
      let target : refreshed_idx (index_of x.id.raw (gone ∷ now)) id.raw now ≡ some 1 = ground (
        arith,
        ne₁,
        ne₂,
        text_eq_iff gone.id.raw x.id.raw,
        text_eq_iff x.id.raw x.id.raw,
        text_eq_iff x.id.raw y.id.raw,
        text_eq_iff y.id.raw y.id.raw,
      ) in
      refresh_stages-behind root x.id.raw (gone ∷ now) now entries id parsed here listed added
      ∙ ap (λ j. sorted_if_ok (refresh_at t j now)) target
      ∙ ap sorted_if_ok (refresh_at-found 1 y y' now refl fresh)
