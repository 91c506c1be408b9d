-- ===== src/Workflow/Edited.antt =====
-- crates/zerochain-core/src/workflow.rs: what `insert_stage_after` and `remove_stage` make of the
-- stages of a workflow.
use zerochain.Prelude.{
  ℕ, zero, suc, ◌+◌, ◌<◌, ◌≡◌, ◌≢◌, refl, sym, ap, ◌∙◌, subst, false, Option, none, some, List, [],
  ◌∷◌, ◌++◌, nat_eq, ltb, Text, bytes, text_eq, text_eq_iff, ok, ok_or, >>=-eq-ok, ok-injective,
  any, arith, Bool-cases, inl, inr, some-inj,
}
use zerochain.Text.Decimal.{padded, padded-digits, padded-value, padded-ne_nil}
use zerochain.Errors.{Error, invalid_stage_name}
use zerochain.Stage.{Stage, StageId, parse, u32_mod}
use zerochain.Stage.Shape.{parse-eq-ok_iff}
use zerochain.Stage.FromDir.{from_dir, from_dir-IsRead}
use zerochain.Workflow.{Workflow, Tree, io_or, index_of, stage_index, validate_stage_component}
use zerochain.Workflow.Change.{
  Os, nth, insert_at, remove_at, place_after, insert_stage_after, remove_stage, context_content,
}
use zerochain.Workflow.Loaded.{parse-raw}

-- What the checks of an insertion have found: the anchor, and that the new name is free.
pub record Place (w : Workflow) (after_raw new_name : Text) (idx : ℕ) (raw : Text) : Type 0 where
  pub valid : validate_stage_component new_name ≡ ok tt
  pub anchor : Stage
  pub found : nth idx w.stages ≡ some anchor
  pub first : index_of after_raw w.stages ≡ some idx
  pub fits : anchor.id.sequence + 1 < u32_mod
  pub spelled : raw ≡ padded (anchor.id.sequence + 1) ++ b'_' ∷ new_name
  pub free : any (λ (s : Stage). text_eq s.id.raw raw) w.stages ≡ false
  pub unused : any (λ (s : Stage). nat_eq s.id.sequence (anchor.id.sequence + 1)) w.stages ≡ false

ok_or-ok : {A : Type 0} (o : Option A) (e : Error) {a : A} → ok_or o e ≡ ok a → o ≡ some a
ok_or-ok none e h = absurd cc
ok_or-ok (some b) e h = ap some (ok-injective h)

place_after-Place :
    (w : Workflow) (after_raw new_name : Text) (idx : ℕ) (raw : Text)
    → place_after w after_raw new_name ≡ ok (idx, raw)
    → Place w after_raw new_name idx raw
unfolding place_after stage_index
place_after-Place w after_raw new_name idx raw h =
    let (valid, e₁, h₁) = >>=-eq-ok (validate_stage_component new_name) _ h in
    let (i, e₂, h₂) =
      >>=-eq-ok (ok_or (index_of after_raw w.stages) (invalid_stage_name after_raw)) _ h₁ in
    let (s, e₃, h₃) = >>=-eq-ok (ok_or (nth i w.stages) (invalid_stage_name after_raw)) _ h₂ in
    let n = s.id.sequence + 1 in
    let new_raw = padded n ++ b'_' ∷ new_name in
    elim (Bool-cases (ltb n u32_mod)) [
      | inr e ↦ ground (arith, e, h₃)
      | inl e ↦ elim (Bool-cases (any (λ (r : Stage). text_eq r.id.raw new_raw) w.stages)) [
        | inl f ↦ ground (arith, e, f, h₃)
        | inr f ↦ elim (Bool-cases (any (λ (r : Stage). nat_eq r.id.sequence n) w.stages)) [
          | inl g ↦ ground (arith, e, f, g, h₃)
          | inr g ↦
              let same : ◌≡◌ {A = ℕ × Text} (i, new_raw) (idx, raw) =
                ok-injective (rw g at (rw f at (rw e at h₃))) in
              let at_i : i ≡ idx = ap (λ (p : ℕ × Text). p.0) same in
              let is_raw : new_raw ≡ raw = ap (λ (p : ℕ × Text). p.1) same in
              record {
                valid = e₁;
                anchor = s;
                found = subst (λ j. nth j w.stages ≡ some s) at_i (ok_or-ok _ _ e₃);
                first = ok_or-ok _ _ e₂ ∙ ap some at_i;
                fits = ground (arith, e);
                spelled = sym is_raw;
                free =
                    subst (λ r. any (λ (x : Stage). text_eq x.id.raw r) w.stages ≡ false) is_raw f;
                unused = g;
              }
        ]
      ]
    ]

append_nil : (s : Text) → s ++ [] ≡ s
append_nil [] = refl
append_nil (c ∷ s) = ap (λ l. c ∷ l) (append_nil s)

-- A padded number and a name are read back as the stage with that number and that name.
pub parse-padded :
    (n : ℕ) (name : Text)
    → name ≢ []
    → n < u32_mod
    → parse (padded n ++ b'_' ∷ name)
      ≡ ok (record { sequence = n; name = name; raw = padded n ++ b'_' ∷ name })
parse-padded n name some_name fits = (parse-eq-ok_iff (padded n ++ b'_' ∷ name) _).1 (record {
  digits = padded n;
  letter = [];
  suffix = name;
  split = ap (λ l. l ++ b'_' ∷ name) (sym (append_nil (padded n)));
  numeric = padded-digits n;
  some_digit = padded-ne_nil n;
  one_letter = tt;
  some_suffix = some_name;
  fits = subst (λ m. m < u32_mod) (sym (padded-value n)) fits;
  read =
      ap (λ m. record { sequence = m; name = name; raw = padded n ++ b'_' ∷ name })
        (sym (padded-value n));
})

insert_at-split :
    (i : ℕ) (a x : Stage) (stages : List Stage)
    → nth i stages ≡ some a
    → (before : List Stage) × (after : List Stage) × (stages ≡ before ++ a ∷ after)
      × (insert_at (suc i) x stages ≡ before ++ a ∷ x ∷ after)
insert_at-split i a x [] h = absurd cc
insert_at-split zero a x (s ∷ stages) h = ([], stages, ground (arith, h), ground (arith, h))
insert_at-split (suc i) a x (s ∷ stages) h =
    let (before, after, e, f) = insert_at-split i a x stages h in
    (s ∷ before, after, ap (λ l. s ∷ l) e, ap (λ l. s ∷ l) f)

remove_at-insert_at :
    (i : ℕ) (a x : Stage) (stages : List Stage)
    → nth i stages ≡ some a
    → (remove_at (suc i) (insert_at (suc i) x stages) ≡ stages)
      × (nth (suc i) (insert_at (suc i) x stages) ≡ some x)
remove_at-insert_at i a x [] h = absurd cc
remove_at-insert_at zero a x (s ∷ stages) h = (refl, refl)
remove_at-insert_at (suc i) a x (s ∷ stages) h =
    let (e, f) = remove_at-insert_at i a x stages h in (ap (λ l. s ∷ l) e, f)

index_of-insert_at :
    (i : ℕ) (a x : Stage) (stages : List Stage)
    → nth i stages ≡ some a
    → any (λ (s : Stage). text_eq s.id.raw x.id.raw) stages ≡ false
    → index_of x.id.raw (insert_at (suc i) x stages) ≡ some (suc i)
index_of-insert_at i a x [] h k = absurd cc
index_of-insert_at zero a x (s ∷ stages) h k = ground (arith, k, text_eq_iff x.id.raw x.id.raw)
index_of-insert_at (suc i) a x (s ∷ stages) h k =
    let ih = index_of-insert_at i a x stages h (ground (arith, k)) in ground (arith, k, ih)

name-ne_nil : (name : Text) → validate_stage_component name ≡ ok tt → name ≢ []
unfolding validate_stage_component
name-ne_nil [] h e = absurd cc
name-ne_nil (c ∷ name) h e = absurd cc

-- A stage stands behind the anchor in a workflow that is otherwise the same, with the next number and
-- the given name.
pub record Inserted (w : Workflow) (after_raw new_name raw : Text) (w' : Workflow) : Type 0 where
  pub before : List Stage
  pub behind : List Stage
  pub anchor : Stage
  pub new : Stage
  pub old_stages : w.stages ≡ before ++ anchor ∷ behind
  pub new_stages : w'.stages ≡ before ++ anchor ∷ new ∷ behind
  pub same_root : w'.root ≡ w.root
  pub sequence : new.id.sequence ≡ anchor.id.sequence + 1
  pub name : new.id.name ≡ new_name
  pub raw_name : new.id.raw ≡ raw
  pub fresh : any (λ (s : Stage). nat_eq s.id.sequence (anchor.id.sequence + 1)) w.stages ≡ false

module _ (os : Os) (w w' : Workflow) (t t' : Tree) (after_raw new_name : Text) (idx : ℕ)
    (raw : Text) (placed : place_after w after_raw new_name ≡ ok (idx, raw))
    (inserted : insert_stage_after os after_raw new_name t w ≡ ok (t', w'))
    (named : t'.files.file_name (t.files.join w.root raw) ≡ some raw) where
  new_stage :
      (s : Stage) × (from_dir t'.files (t.files.join w.root raw) ≡ ok s)
      × (w' ≡ record w { stages = insert_at (idx + 1) s w.stages })
  unfolding insert_stage_after
  new_stage =
      let dir = t.files.join w.root raw in
      let (place, e₀, h₀) = >>=-eq-ok (place_after w after_raw new_name) _ inserted in
      let at : place ≡ (idx, raw) = ok-injective (sym e₀ ∙ placed) in
      let dir₀ = t.files.join w.root place.1 in
      let (t₁, e₁, h₁) =
        >>=-eq-ok (io_or dir₀ (os.create_dir_all (t.files.join dir₀ (bytes "input")) t)) _ h₀ in
      let (t₂, e₂, h₂) =
        >>=-eq-ok (io_or dir₀ (os.create_dir_all (t.files.join dir₀ (bytes "output")) t₁)) _ h₁ in
      let file = t.files.join dir₀ (bytes "CONTEXT.md") in
      let (t₃, e₃, h₃) =
        >>=-eq-ok (io_or file (os.write file (context_content new_name) t₂)) _ h₂ in
      let (s, e₄, h₄) = >>=-eq-ok (from_dir t₃.files dir₀) _ h₃ in
      let same = ok-injective h₄ in
      let tree : t₃ ≡ t' = ap (λ (p : Tree × Workflow). p.0) same in
      (
        s,
        subst (λ (u : Tree). from_dir u.files dir ≡ ok s) tree
            (subst (λ (p : ℕ × Text). from_dir t₃.files (t.files.join w.root p.1) ≡ ok s) at e₄),
        sym (ap (λ (p : Tree × Workflow). p.1) same)
            ∙ ap (λ (p : ℕ × Text). record w { stages = insert_at (p.0 + 1) s w.stages }) at,
      )

  -- Where the checks of an insertion succeed and the insertion too, the new stage stands right behind
  -- the one it was to follow, has the next sequence number, which no stage had, and has the name that
  -- was asked for; the other stages and the root are as before. The path of the new directory has the
  -- file name that was joined to the root.
  pub insert_stage_after-Inserted : Inserted w after_raw new_name raw w'
  insert_stage_after-Inserted =
      let p = place_after-Place w after_raw new_name idx raw placed in
      let (s, read, e) = new_stage in
      let (before, behind, f, g) = insert_at-split idx p.anchor s w.stages p.found in
      let r = from_dir-IsRead t'.files (t.files.join w.root raw) s read in
      let own : r.name ≡ raw = some-inj (sym r.named ∙ named) in
      let id = ok-injective (
        sym (subst (λ n. parse n ≡ ok s.id) (own ∙ p.spelled) r.parsed)
        ∙ parse-padded (p.anchor.id.sequence + 1) new_name (name-ne_nil new_name p.valid) p.fits) in
      let stages : w'.stages ≡ insert_at (idx + 1) s w.stages = ap (λ (v : Workflow). v.stages) e in
      let next : idx + 1 ≡ suc idx = omega arith in
      record {
        before = before;
        behind = behind;
        anchor = p.anchor;
        new = s;
        old_stages = f;
        new_stages = stages ∙ ap (λ n. insert_at n s w.stages) next ∙ g;
        same_root = ap (λ (v : Workflow). v.root) e;
        sequence = ap (λ (i : StageId). i.sequence) id;
        name = ap (λ (i : StageId). i.name) id;
        raw_name = ap (λ (i : StageId). i.raw) id ∙ sym p.spelled;
        fresh = p.unused;
      }

  -- Removing the stage that was just inserted gives the workflow back, where the checks of the
  -- insertion, the insertion and the removal succeed. The path of the new directory has the file name
  -- that was joined to the root.
  pub remove_stage-insert_stage_after :
      (t'' : Tree) (w'' : Workflow) → remove_stage os raw t' w' ≡ ok (t'', w'') → w'' ≡ w
  unfolding remove_stage stage_index
  remove_stage-insert_stage_after t'' w'' h =
      let p = place_after-Place w after_raw new_name idx raw placed in
      let (s, read, e) = new_stage in
      let r = from_dir-IsRead t'.files (t.files.join w.root raw) s read in
      let own : r.name ≡ raw = some-inj (sym r.named ∙ named) in
      let is_raw : s.id.raw ≡ raw =
        parse-raw raw s.id (subst (λ n. parse n ≡ ok s.id) own r.parsed) in
      let next : idx + 1 ≡ suc idx = omega arith in
      let stages : w'.stages ≡ insert_at (suc idx) s w.stages =
        ap (λ (v : Workflow). v.stages) e ∙ ap (λ n. insert_at n s w.stages) next in
      let (back, there) = remove_at-insert_at idx p.anchor s w.stages p.found in
      let position : index_of raw w'.stages ≡ some (suc idx) =
        ap (λ l. index_of raw l) stages
        ∙ subst (λ q. index_of q (insert_at (suc idx) s w.stages) ≡ some (suc idx)) is_raw
            (index_of-insert_at idx p.anchor s w.stages p.found (
              subst (λ q. any (λ (x : Stage). text_eq x.id.raw q) w.stages ≡ false) (sym is_raw)
                p.free)) in
      let (i, e₁, h₁) = >>=-eq-ok (ok_or (index_of raw w'.stages) (invalid_stage_name raw)) _ h in
      let at : i ≡ suc idx = some-inj (sym (ok_or-ok _ _ e₁) ∙ position) in
      let (x, e₂, h₂) = >>=-eq-ok (ok_or (nth i w'.stages) (invalid_stage_name raw)) _ h₁ in
      let (u, e₃, h₃) = >>=-eq-ok (io_or x.path (os.remove_dir_all x.path t')) _ h₂ in
      let left : remove_at i w'.stages ≡ w.stages =
        ap (λ n. remove_at n w'.stages) at ∙ ap (λ l. remove_at (suc idx) l) stages ∙ back in
      sym (ap (λ (q : Tree × Workflow). q.1) (ok-injective h₃))
      ∙ ap (λ l. record w' { stages = l }) left
      ∙ ap (λ (v : Workflow). record v { stages = w.stages }) e
