-- ===== src/Atomic.antt =====
-- crates/zerochain-fs/src/atomic.rs: files that are written whole, the marker files of a stage, and
-- the lock file of a directory. A process is its identifier, the clock it reads and what it finds
-- alive; what changes is the files, the counter of temporary names, and the registry of held locks.
pub mod Marks
pub mod Refinement
pub mod Lock
pub mod Race
mod Tests
use zerochain.Prelude.{
  ℕ, suc, ◌+◌, ◌-◌, ◌^◌, ◌%◌, Bool, true, false, ◌&&◌, not, Option, none, some, List, [], ◌∷◌, ◌++◌,
  nat_eq, if◌then◌else◌, Text, bytes, Result, ok, err,
}
use zerochain.Text.{parse_uint}
use zerochain.Text.Decimal.{decimal}
use zerochain.Text.Lines.{lines, strip_prefix}
use zerochain.Disk.{
  FilePath, path_eq, ErrorKind, not_found, already_exists, other, Files, Refusal, set_file,
  create_dir_all, write_file, rename_file, create_new, read_to_string, try_exists,
}
use zerochain.Disk
use zerochain.Effect.{Effect, ◌>>=◌, ◌>>◌, raise}

pub data FsError : Type 0 where
  io_error : FilePath → ErrorKind → FsError
  atomic_write_failed : FilePath → FsError
  lock_held : FilePath → ℕ → FsError

-- `std::process::id()`, `epoch_secs()`, `is_pid_alive` and the refusals of the operating system.
pub record Process : Type 0 where
  pub id : ℕ
  pub epoch_secs : ℕ
  pub is_pid_alive : ℕ → Bool
  pub refused : Refusal

-- The files, `TEMP_COUNTER` and `held_locks()`.
pub record World : Type 0 where
  pub files : Files
  pub temp_counter : ℕ
  pub held_locks : FilePath → Option ℕ

-- A call returns a result, and leaves what it has done also where it fails.
abbrev pub Action : Type 0 → Type 0
Action A = Effect World FsError A

-- A call of the file system, with `io_err(path, e)` for its errors.
abbrev pub io : {A : Type 0} → FilePath → (Files → Result ErrorKind A × Files) → Action A
io p call w = (
  elim ((call w.files).0) [ ok a ↦ ok a | err e ↦ err (io_error p e) ],
  record w { files = (call w.files).1 },
)

abbrev pub complete_marker : Text
complete_marker = bytes ".complete"

abbrev pub error_marker : Text
error_marker = bytes ".error"

abbrev pub executing_marker : Text
executing_marker = bytes ".executing"

abbrev pub lock_file : Text
lock_file = bytes ".lock"

-- `Ok` and `NotFound` are both a success.
abbrev pub found_or_absent : Result ErrorKind (Unit {0}) → Result ErrorKind (Unit {0})
found_or_absent (ok a) = ok a
found_or_absent (err not_found) = ok tt
found_or_absent (err already_exists) = err already_exists
found_or_absent (err other) = err other

abbrev pub or_empty : Option Text → Text
or_empty none = []
or_empty (some t) = t

module _ (process : Process) where
  abbrev pub remove_marker : FilePath → Action (Unit {0})
  remove_marker p = io p (λ files. (
    found_or_absent ((Disk.remove_file process.refused p files).0),
    (Disk.remove_file process.refused p files).1,
  ))

  -- `format!(".tmp.{}.{}.{}", ..)`
  abbrev pub tmp_name : Text → ℕ → Text
  tmp_name file_name n = bytes ".tmp." ++ file_name ++ b'.' ∷ decimal process.id ++ b'.' ∷ decimal n

  abbrev pub next_tmp : Action ℕ
  next_tmp w = (ok w.temp_counter, record w { temp_counter = suc w.temp_counter % 2 ^ 64 })

  abbrev pub write_atomic : FilePath → Text → Action (Unit {0})
  write_atomic [] content = raise (atomic_write_failed [])
  write_atomic (file_name ∷ parent) content = do
    io parent (create_dir_all process.refused parent)
    n ← next_tmp
    let tmp_path = tmp_name file_name n ∷ parent
    io tmp_path (write_file process.refused tmp_path content)
    io (file_name ∷ parent) (rename_file process.refused tmp_path (file_name ∷ parent))

  unfoldable pub mark_complete : FilePath → Option Text → Action (Unit {0})
  mark_complete dir metadata = do
    write_atomic (complete_marker ∷ dir) (or_empty metadata)
    remove_marker (error_marker ∷ dir)
    remove_marker (executing_marker ∷ dir)

  unfoldable pub mark_error : FilePath → Text → Action (Unit {0})
  mark_error dir error = do
    write_atomic (error_marker ∷ dir) error
    remove_marker (complete_marker ∷ dir)
    remove_marker (executing_marker ∷ dir)

  -- `format!("PID:{}\nTIMESTAMP:{}\n", std::process::id(), epoch_secs())`
  abbrev pub lock_content : Text
  lock_content =
      bytes "PID:"
      ++ decimal process.id
      ++ b'\n' ∷ (bytes "TIMESTAMP:" ++ decimal process.epoch_secs ++ b'\n' ∷ [])

  unfoldable pub mark_executing : FilePath → Action (Unit {0})
  mark_executing dir = write_atomic (executing_marker ∷ dir) lock_content

  unfoldable pub clear_executing : FilePath → Action (Unit {0})
  clear_executing dir = remove_marker (executing_marker ∷ dir)

  -- `try_exists(..).await.unwrap_or(false)`
  abbrev pub exists : FilePath → World → Bool
  exists p w = elim (try_exists process.refused p w.files) [ ok b ↦ b | err e ↦ false ]

  abbrev pub is_complete : FilePath → World → Bool
  is_complete dir = exists (complete_marker ∷ dir)

  abbrev pub is_error : FilePath → World → Bool
  is_error dir = exists (error_marker ∷ dir)

  abbrev pub is_executing : FilePath → World → Bool
  is_executing dir = exists (executing_marker ∷ dir)
