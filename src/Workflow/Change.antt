-- ===== src/Workflow/Change.antt =====
-- crates/zerochain-core/src/workflow.rs: the operations that change a loaded workflow and its
-- directory.
use zerochain.Prelude.{
  ℕ, zero, suc, ◌+◌, Bool, false, not, Option, none, some, List, [], ◌∷◌, ◌++◌, nat_eq, ltb,
  if◌then◌else◌, Text, bytes, text_eq, Result, ok, err, ok_or, ◌>>=◌, any, select, ◌||◌,
}
use zerochain.Text.Decimal.{padded}
use zerochain.Errors.{
  Error, io_error, invalid_stage_name, plan_error, sequence_overflow, stage_exists, sequence_taken,
}
use zerochain.Stage.{Stage, parse, u32_mod}
use zerochain.Stage.FromDir.{from_dir, refresh_markers}
use zerochain.Workflow.{
  Workflow, Tree, io_or, is_stage_name, validate_stage_component, sort_stages, stage_index,
  index_of,
}

-- The calls of the operating system that change a directory tree.
pub record Os : Type 0 where
  pub create_dir_all : Text → Tree → Result (Unit {0}) Tree
  pub write : Text → Text → Tree → Result (Unit {0}) Tree
  pub remove_dir_all : Text → Tree → Result (Unit {0}) Tree
  pub symlink : Text → Text → Tree → Result (Unit {0}) Tree

-- `format!("---\nrole: {name}\n---\n# {name}\n")`
abbrev pub context_content : Text → Text
context_content name =
    bytes "---"
    ++ b'\n'
      ∷ (bytes "role: "
          ++ name
          ++ b'\n' ∷ (bytes "---" ++ b'\n' ∷ (bytes "# " ++ name ++ b'\n' ∷ [])))

-- `stages[idx]`
abbrev pub nth : ℕ → List Stage → Option Stage
nth n [] = none
nth zero (s ∷ stages) = some s
nth (suc n) (s ∷ stages) = nth n stages

-- `Vec::insert`, `Vec::remove`, and replacing an element.
abbrev pub insert_at : ℕ → Stage → List Stage → List Stage
insert_at zero x stages = x ∷ stages
insert_at (suc n) x [] = []
insert_at (suc n) x (s ∷ stages) = s ∷ insert_at n x stages

abbrev pub remove_at : ℕ → List Stage → List Stage
remove_at n [] = []
remove_at zero (s ∷ stages) = stages
remove_at (suc n) (s ∷ stages) = s ∷ remove_at n stages

abbrev pub set_at : ℕ → Stage → List Stage → List Stage
set_at n x [] = []
set_at zero x (s ∷ stages) = x ∷ stages
set_at (suc n) x (s ∷ stages) = s ∷ set_at n x stages

-- The checks of `insert_stage_after`: the place, and the name of the new directory.
unfoldable pub place_after : Workflow → Text → Text → Result Error (ℕ × Text)
place_after w after_raw new_stage_name = do
  valid ← validate_stage_component new_stage_name
  idx ← ok_or (stage_index w after_raw) (invalid_stage_name after_raw)
  after_stage ← ok_or (nth idx w.stages) (invalid_stage_name after_raw)
  let new_seq = after_stage.id.sequence + 1
  let new_raw = padded new_seq ++ b'_' ∷ new_stage_name
  if not (ltb new_seq u32_mod)
      then err (plan_error (sequence_overflow after_raw))
      else if any (λ (s : Stage). text_eq s.id.raw new_raw) w.stages
      then err (plan_error (stage_exists new_raw))
      else if any (λ (s : Stage). nat_eq s.id.sequence new_seq) w.stages
      then err (plan_error (sequence_taken new_seq))
      else ok (idx, new_raw)

module _ (os : Os) where
  -- A failure leaves the list of stages as it was; what was created by then is not modelled.
  unfoldable pub insert_stage_after : Text → Text → Tree → Workflow → Result Error (Tree × Workflow)
  insert_stage_after after_raw new_stage_name t w = do
    place ← place_after w after_raw new_stage_name
    let new_dir = t.files.join w.root place.1
    t₁ ← io_or new_dir (os.create_dir_all (t.files.join new_dir (bytes "input")) t)
    t₂ ← io_or new_dir (os.create_dir_all (t.files.join new_dir (bytes "output")) t₁)
    let file = t.files.join new_dir (bytes "CONTEXT.md")
    t₃ ← io_or file (os.write file (context_content new_stage_name) t₂)
    new_stage ← from_dir t₃.files new_dir
    ok (t₃, record w { stages = insert_at (place.0 + 1) new_stage w.stages })

  unfoldable pub remove_stage : Text → Tree → Workflow → Result Error (Tree × Workflow)
  remove_stage raw t w = do
    idx ← ok_or (stage_index w raw) (invalid_stage_name raw)
    s ← ok_or (nth idx w.stages) (invalid_stage_name raw)
    t₁ ← io_or s.path (os.remove_dir_all s.path t)
    ok (t₁, record w { stages = remove_at idx w.stages })

-- The index that the stage had before the changes is looked up in the list behind them.
abbrev pub refreshed_idx : Option ℕ → Text → List Stage → Option ℕ
refreshed_idx old_idx raw stages =
    elim (elim old_idx as (λ _. Option ℕ) [
      | none ↦ none
      | some i ↦ elim (nth i stages) [ none ↦ none | some s ↦ index_of s.id.raw stages ]
    ]) [ some i ↦ some i | none ↦ index_of raw stages ]

abbrev pub sorted_if_ok :
    Result Error (Unit {0}) × List Stage → Result Error (Unit {0}) × List Stage
sorted_if_ok (ok done, stages) = (ok done, sort_stages stages)
sorted_if_ok (err e, stages) = (err e, stages)

module _ (t : Tree) where
  -- `Ok(m) if m.is_dir()`, and `unwrap_or(false)`
  abbrev pub is_there : Text → Bool
  is_there path = elim (t.is_dir path) [ ok b ↦ b | err e ↦ false ]

  -- The loop over the entries of the root, on the stages so far, which an error leaves in place.
  abbrev pub add_new :
      Text → List (Result (Unit {0}) Text) → List Stage → Result Error (Unit {0}) × List Stage
  add_new root [] stages = (ok tt, stages)
  add_new root (err e ∷ entries) stages = (err (io_error root), stages)
  add_new root (ok name ∷ entries) stages =
      let path = t.files.join root name in
      let rest = add_new root entries stages in
      if not (is_stage_name name) || not (is_there path)
      then rest
      else elim (index_of name stages) [
        | some i ↦ rest
        | none ↦ elim (from_dir t.files path) [
          | err e ↦ (err e, stages)
          | ok s ↦ add_new root entries (stages ++ s ∷ [])
        ]
      ]

  -- A stage whose second marker cannot be read keeps the first: that stage is not modelled.
  abbrev pub refresh_at : Option ℕ → List Stage → Result Error (Unit {0}) × List Stage
  refresh_at none stages = (ok tt, stages)
  refresh_at (some i) stages = elim (nth i stages) [
    | none ↦ (ok tt, stages)
    | some s ↦ elim (refresh_markers t.files s) [
      | err e ↦ (err e, stages)
      | ok s' ↦ (ok tt, set_at i s' stages)
    ]
  ]

  abbrev pub added_stages : Text → List Stage → Result Error (Unit {0}) × List Stage
  added_stages root stages = elim (t.read_dir root) [
    | err e ↦ (err (io_error root), stages)
    | ok entries ↦ add_new root entries stages
  ]

  abbrev pub refresh_behind :
      Option ℕ → Text → Result Error (Unit {0}) × List Stage → Result Error (Unit {0}) × List Stage
  refresh_behind old_idx raw (err e, stages) = (err e, stages)
  refresh_behind old_idx raw (ok done, stages) =
      sorted_if_ok (refresh_at (refreshed_idx old_idx raw stages) stages)

  unfoldable pub refresh_stages : Text → Text → List Stage → Result Error (Unit {0}) × List Stage
  refresh_stages root stage_raw stages = elim (parse stage_raw) [
    | err e ↦ (err (invalid_stage_name stage_raw), stages)
    | ok sid ↦
        refresh_behind (index_of stage_raw stages) sid.raw
          (added_stages root (select (λ s. is_there s.path) stages))
  ]

  unfoldable pub refresh_stage : Text → Workflow → Result Error (Unit {0}) × Workflow
  unfolding refresh_stages
  refresh_stage stage_raw w =
      let result = refresh_stages w.root stage_raw w.stages in
      (result.0, record w { stages = result.1 })
