-- ===== src/Stage/FromDir.antt =====
-- crates/zerochain-core/src/stage.rs: a stage is read from its directory. What the standard library
-- and the reader of CONTEXT.md answer is a parameter.
use zerochain.Prelude.{
  ◌≡◌, refl, ap, Bool, true, false, Option, none, some, Text, bytes, Result, ok, err, ok_or, ◌>>=◌,
  >>=-eq-ok, ok-injective, arith, subst,
}
use zerochain.Errors.{Error, invalid_stage_name, io_error}
use zerochain.Stage.{Stage, StageId, parse}

-- The fields of the frontmatter that a stage keeps.
pub record Settings : Type 0 where
  pub human_gate : Bool
  pub container : Option Text
  pub command : Option Text

-- Paths, and the files at one moment: whether there is one, and what `Context::from_md_file` reads.
pub record FileSystem : Type 0 where
  pub join : Text → Text → Text
  pub file_name : Text → Option Text
  pub try_exists : Text → Result (Unit {0}) Bool
  pub from_md_file : Text → Result Error Settings

abbrev pub no_settings : Settings
no_settings = record { human_gate = false; container = none; command = none }

-- `try_exists(file).map_err(|e| io_err(path, e))`
abbrev pub exists_or : FileSystem → Text → Text → Result Error Bool
exists_or fs file path = elim (fs.try_exists file) [ ok b ↦ ok b | err e ↦ err (io_error path) ]

abbrev pub settings_of : FileSystem → Text → Bool → Result Error Settings
settings_of fs context_path true = fs.from_md_file context_path
settings_of fs context_path false = ok no_settings

abbrev pub stage_from : FileSystem → Text → StageId → Bool → Bool → Settings → Stage
stage_from fs dir id is_complete is_error settings = record {
  id = id;
  path = dir;
  context_path = fs.join dir (bytes "CONTEXT.md");
  input_path = fs.join dir (bytes "input");
  output_path = fs.join dir (bytes "output");
  is_complete = is_complete;
  is_error = is_error;
  human_gate = settings.human_gate;
  container_image = settings.container;
  command = settings.command;
}

unfoldable pub from_dir : FileSystem → Text → Result Error Stage
from_dir fs dir = do
  dir_name ← ok_or (fs.file_name dir) (invalid_stage_name dir)
  id ← parse dir_name
  is_complete ← exists_or fs (fs.join dir (bytes ".complete")) dir
  is_error ← exists_or fs (fs.join dir (bytes ".error")) dir
  let context_path = fs.join dir (bytes "CONTEXT.md")
  has_context ← exists_or fs context_path context_path
  settings ← settings_of fs context_path has_context
  ok (stage_from fs dir id is_complete is_error settings)

-- A stage that cannot be refreshed keeps its first marker if the second one fails; the error is
-- returned, and the stage with it is not modelled.
unfoldable pub refresh_markers : FileSystem → Stage → Result Error Stage
refresh_markers fs s = do
  is_complete ← exists_or fs (fs.join s.path (bytes ".complete")) s.path
  is_error ← exists_or fs (fs.join s.path (bytes ".error")) s.path
  ok (record s { is_complete = is_complete; is_error = is_error })

-- How a stage that was read depends on the files.
pub record IsRead (fs : FileSystem) (dir : Text) (s : Stage) : Type 0 where
  pub name : Text
  pub named : fs.file_name dir ≡ some name
  pub parsed : parse name ≡ ok s.id
  pub path : s.path ≡ dir
  pub complete : fs.try_exists (fs.join dir (bytes ".complete")) ≡ ok s.is_complete
  pub error : fs.try_exists (fs.join dir (bytes ".error")) ≡ ok s.is_error
  pub settings : Settings
  pub context : Bool
  pub has_context : fs.try_exists (fs.join dir (bytes "CONTEXT.md")) ≡ ok context
  pub read : settings_of fs (fs.join dir (bytes "CONTEXT.md")) context ≡ ok settings
  pub gate : s.human_gate ≡ settings.human_gate

ok_or-eq-ok {ℓ κ} :
    {A : Type ℓ} {E : Type κ} (o : Option A) (e : E) {a : A} → ok_or o e ≡ ok a → o ≡ some a
ok_or-eq-ok none e h = absurd cc
ok_or-eq-ok (some b) e h = ap some (ok-injective h)

exists_or-eq-ok :
    (fs : FileSystem) (file path : Text) (b : Bool)
    → exists_or fs file path ≡ ok b
    → fs.try_exists file ≡ ok b
exists_or-eq-ok fs file path b h = ground (arith, h)

-- A stage that is read from a directory has the identifier that the directory's name spells, the
-- markers that are in the directory, and the gate of its CONTEXT.md, or none without that file.
pub from_dir-IsRead :
    (fs : FileSystem) (dir : Text) (s : Stage) → from_dir fs dir ≡ ok s → IsRead fs dir s
unfolding from_dir
from_dir-IsRead fs dir s h =
    let (name, e₁, h₁) = >>=-eq-ok (ok_or (fs.file_name dir) (invalid_stage_name dir)) _ h in
    let (id, e₂, h₂) = >>=-eq-ok (parse name) _ h₁ in
    let (c, e₃, h₃) = >>=-eq-ok (exists_or fs (fs.join dir (bytes ".complete")) dir) _ h₂ in
    let (x, e₄, h₄) = >>=-eq-ok (exists_or fs (fs.join dir (bytes ".error")) dir) _ h₃ in
    let md = fs.join dir (bytes "CONTEXT.md") in
    let (k, e₅, h₅) = >>=-eq-ok (exists_or fs md md) _ h₄ in
    let (t, e₆, h₆) = >>=-eq-ok (settings_of fs md k) _ h₅ in
    subst (IsRead fs dir) (ok-injective h₆) (record {
      name = name;
      named = ok_or-eq-ok _ _ e₁;
      parsed = e₂;
      path = refl;
      complete = exists_or-eq-ok fs _ dir c e₃;
      error = exists_or-eq-ok fs _ dir x e₄;
      settings = t;
      context = k;
      has_context = exists_or-eq-ok fs _ _ k e₅;
      read = e₆;
      gate = refl;
    })

-- Refreshing a stage that was read from a directory, after the files changed, gives it the markers
-- that reading the directory anew gives.
pub refresh_markers-from_dir :
    (before after : FileSystem) (dir : Text) (s t : Stage)
    → from_dir before dir ≡ ok s
    → from_dir after dir ≡ ok t
    → refresh_markers after s ≡ ok (record s { is_complete = t.is_complete; is_error = t.is_error })
unfolding refresh_markers
refresh_markers-from_dir before after dir s t h k =
    let old = from_dir-IsRead before dir s h in
    let new = from_dir-IsRead after dir t k in ground (arith, old.path, new.complete, new.error)
