-- ===== src/Workflow/Loaded.antt =====
-- crates/zerochain-core/src/workflow.rs: what `Workflow::from_dir` finds in a directory.
use mathlib.Core.List.{Perm}
use zerochain.Prelude.{
  ◌≡◌, ◌≢◌, sym, ap, ◌∙◌, subst, true, false, Option, some, List, [], ◌∷◌, map, if◌then◌else◌, Text,
  Result, ok, err, >>=-eq-ok, ok-injective, arith, Bool-cases, inl, inr, Ordering-cases, insert_by,
  some-inj, err-ne-ok,
}
use zerochain.Prelude.SortLaws.{IsSortedBy, sort_by-perm, sort_by-IsSortedBy}
use zerochain.Stage.{Stage, StageId, parse, cmp}
use zerochain.Stage.Order.{cmp-flip, cmp_preorder}
use zerochain.Stage.Shape.{parse-eq-ok_iff}
use zerochain.Stage.FromDir.{FileSystem, from_dir, from_dir-IsRead}
use zerochain.Task.{Task}
use zerochain.Workflow.{
  Workflow, Tree, io_or, is_stage_name, find_task, load_stages, load, sort_stages, sorted_workflow,
}

-- The directories among the entries that are named like stages, up to an entry that fails.
abbrev pub stage_dirs : Tree → Text → List (Result (Unit {0}) Text) → List Text
stage_dirs t path [] = []
stage_dirs t path (err e ∷ entries) = []
stage_dirs t path (ok name ∷ entries) =
    let rest = stage_dirs t path entries in
    if is_stage_name name
    then (elim (t.entry_is_dir (t.files.join path name)) [
      | ok true ↦ name ∷ rest
      | ok false ↦ rest
      | err e ↦ rest
    ])
    else rest

abbrev pub IsSorted : List Stage → Type 0
IsSorted = IsSortedBy (λ a b. cmp a.id b.id)

abbrev pub raw_names : List Stage → List Text
raw_names = map (λ s. s.id.raw)

-- The path that joins the name of an entry to the directory has that name as its file name.
abbrev pub AreJoined : FileSystem → Text → List (Result (Unit {0}) Text) → Type 0
AreJoined fs path [] = Unit
AreJoined fs path (err e ∷ entries) = AreJoined fs path entries
AreJoined fs path (ok name ∷ entries) =
    (fs.file_name (fs.join path name) ≡ some name) × AreJoined fs path entries

pub sort_stages-IsSorted : (stages : List Stage) → IsSorted (sort_stages stages)
sort_stages-IsSorted =
    sort_by-IsSortedBy (λ a b. cmp a.id b.id) (λ a b. cmp-flip a.id b.id)
      (λ a b c. cmp_preorder a.id b.id c.id)

pub parse-raw : (name : Text) (id : StageId) → parse name ≡ ok id → id.raw ≡ name
parse-raw name id h = ap (λ (i : StageId). i.raw) (((parse-eq-ok_iff name id).0 h).read)

pub from_dir-raw :
    (fs : FileSystem) (path name : Text) (s : Stage)
    → fs.file_name (fs.join path name) ≡ some name
    → from_dir fs (fs.join path name) ≡ ok s
    → s.id.raw ≡ name
from_dir-raw fs path name s joined h =
    let r = from_dir-IsRead fs (fs.join path name) s h in
    let same : r.name ≡ name = some-inj (sym r.named ∙ joined) in
    parse-raw name s.id (subst (λ n. parse n ≡ ok s.id) same r.parsed)

pub io_or-eq-ok :
    {A : Type 0} (path : Text) (r : Result (Unit {0}) A) {a : A} → io_or path r ≡ ok a → r ≡ ok a
io_or-eq-ok path (ok b) h = ap ok (ok-injective h)
io_or-eq-ok path (err e) h = absurd cc

insert_by-ne_nil :
    (s : Stage) (stages : List Stage) → insert_by (λ a b. cmp a.id b.id) s stages ≢ []
insert_by-ne_nil s [] e = cc
insert_by-ne_nil s (x ∷ stages) e = elim (Ordering-cases (cmp x.id s.id)) [
  | inl k ↦ ground (arith, e, k)
  | inr (inl k) ↦ ground (arith, e, k)
  | inr (inr k) ↦ ground (arith, e, k)
]

sort_stages-ne_nil : (s : Stage) (stages : List Stage) → sort_stages (s ∷ stages) ≢ []
sort_stages-ne_nil s stages = insert_by-ne_nil s (sort_stages stages)

sorted_workflow-ok :
    (path id : Text) (task : Option Task) (stages : List Stage) {w : Workflow}
    → sorted_workflow path id task stages ≡ ok w
    → (w.stages ≡ sort_stages stages) × (w.stages ≢ [])
sorted_workflow-ok path id task [] h = absurd (err-ne-ok h)
sorted_workflow-ok path id task (s ∷ stages) h =
    let same = sym (ap (λ (w : Workflow). w.stages) (ok-injective h)) in
    (same, λ e. sort_stages-ne_nil s stages (sym same ∙ e))

module _ (t : Tree) (path : Text) where
  load_stages-names :
      (entries : List (Result (Unit {0}) Text)) (stages : List Stage)
      → AreJoined t.files path entries
      → load_stages t path entries ≡ ok stages
      → raw_names stages ≡ stage_dirs t path entries
  load_stages-names [] stages joined h = ap raw_names (sym (ok-injective h))
  load_stages-names (err e ∷ entries) stages joined h = absurd cc
  load_stages-names (ok name ∷ entries) stages joined h = elim (Bool-cases (is_stage_name name)) [
    | inr e ↦ ground (arith, e, load_stages-names entries stages joined.1)
    | inl e ↦
        let stage_path = t.files.join path name in
        let h₀ = rw e at h in
        let (b, dir, h₁) = >>=-eq-ok (io_or stage_path (t.entry_is_dir stage_path)) _ h₀ in
        elim (Bool-cases b) [
          | inr k ↦
              let found : t.entry_is_dir stage_path ≡ ok false =
                io_or-eq-ok stage_path _ dir ∙ ap ok k in
              ground (arith, e, found, load_stages-names entries stages joined.1 (rw k at h₁))
          | inl k ↦
              let found : t.entry_is_dir stage_path ≡ ok true =
                io_or-eq-ok stage_path _ dir ∙ ap ok k in
              let (s, read, h₂) = >>=-eq-ok (from_dir t.files stage_path) _ (rw k at h₁) in
              let (rest, e₁, h₃) = >>=-eq-ok (load_stages t path entries) _ h₂ in
              let ih = load_stages-names entries rest joined.1 e₁ in
              let raw = from_dir-raw t.files path name s joined.0 read in
              let split : s ∷ rest ≡ stages = ok-injective h₃ in
              ground (arith, e, found, ih, raw, split)
        ]
  ]

  -- A workflow that was loaded from a directory has stages, in the order of their identifiers. Their
  -- names are, up to order and each as often as it is listed, the subdirectories that are named like
  -- stages. Joining the name of an entry to the path gives a path with that file name.
  pub load-Sorted :
      (w : Workflow)
      → ((entries : List (Result (Unit {0}) Text))
          → t.read_dir path ≡ ok entries
          → AreJoined t.files path entries)
      → load t path ≡ ok w
      → (entries : List (Result (Unit {0}) Text)) × (t.read_dir path ≡ ok entries)
        × Perm (raw_names w.stages) (stage_dirs t path entries)
        × IsSorted w.stages
        × (w.stages ≢ [])
  unfolding load
  load-Sorted w joined h =
      let (is_dir, e₁, h₁) = >>=-eq-ok (io_or path (t.is_dir path)) _ h in
      elim (Bool-cases is_dir) [
        | inr k ↦ absurd (err-ne-ok (rw k at h₁))
        | inl k ↦
            let (task, e₂, h₂) = >>=-eq-ok (find_task t path) _ (rw k at h₁) in
            let (entries, e₃, h₃) = >>=-eq-ok (io_or path (t.read_dir path)) _ h₂ in
            let (stages, e₄, h₄) = >>=-eq-ok (load_stages t path entries) _ h₃ in
            let (sorted, some_stage) = sorted_workflow-ok path _ task stages h₄ in
            (
              entries,
              io_or-eq-ok path (t.read_dir path) e₃,
              subst (λ l. Perm (raw_names l) (stage_dirs t path entries)) (sym sorted)
                  (subst (λ l. Perm (raw_names (sort_stages stages)) l)
                    (load_stages-names entries stages
                      (joined entries (io_or-eq-ok path (t.read_dir path) e₃)) e₄)
                    (sort_by-perm (λ a b. cmp a.id b.id) (λ s. s.id.raw) stages)),
              subst IsSorted (sym sorted) (sort_stages-IsSorted stages),
              some_stage,
            )
      ]
