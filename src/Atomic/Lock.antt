-- ===== src/Atomic/Lock.antt =====
-- crates/zerochain-fs/src/atomic.rs: the lock file of a directory, with the registry of the locks
-- that the guards of this process hold. Nothing else runs during a call; Atomic/Race lets it.
pub mod Content
pub mod Exclusion
use zerochain.Prelude.{
  ℕ, suc, ◌+◌, ◌-◌, ◌^◌, Bool, true, false, ◌&&◌, not, Option, none, some, List, [], ◌∷◌, ◌++◌,
  nat_eq, if◌then◌else◌, Text, bytes, Result, ok, err,
}
use zerochain.Text.{parse_uint}
use zerochain.Text.Lines.{lines, strip_prefix}
use zerochain.Disk.{
  FilePath, path_eq, ErrorKind, not_found, already_exists, other, set_file, create_dir_all,
  write_file, create_new, read_to_string,
}
use zerochain.Disk
use zerochain.Effect.{◌>>=◌, ◌>>◌}
use zerochain.Atomic.{
  FsError, io_error, lock_held, Process, World, Action, io, lock_file, lock_content, remove_marker,
}

-- One round of the loop over the lines: the values of `PID:` and `TIMESTAMP:` so far.
abbrev pub read_line : Option ℕ × Option ℕ → Text → Option ℕ × Option ℕ
read_line (pid, timestamp) line = elim (strip_prefix (bytes "PID:") line) [
  | some rest ↦ (parse_uint (2 ^ 32) rest, timestamp)
  | none ↦ elim (strip_prefix (bytes "TIMESTAMP:") line) [
    | some rest ↦ (pid, parse_uint (2 ^ 64) rest)
    | none ↦ (pid, timestamp)
  ]
]

abbrev pub read_lines : Option ℕ × Option ℕ → List Text → Option ℕ × Option ℕ
read_lines found [] = found
read_lines found (l ∷ ls) = read_lines (read_line found l) ls

-- `Some((pid?, timestamp?))`
abbrev pub both : Option ℕ × Option ℕ → Option (ℕ × ℕ)
both (none, t) = none
both (some p, none) = none
both (some p, some t) = some (p, t)

unfoldable pub parse_lock_content : Text → Option (ℕ × ℕ)
parse_lock_content content = both (read_lines (none, none) (lines content))

pub record LockGuard : Type 0 where
  pub lock_path : FilePath
  pub released : Bool

abbrev pub set_held : FilePath → Option ℕ → World → World
set_held p count w = record w { held_locks = λ q. if path_eq p q then count else w.held_locks q }

abbrev pub count_of : Option ℕ → ℕ
count_of none = 0
count_of (some n) = n

-- `*entry(path).or_insert(0) += 1`
abbrev pub register_lock : FilePath → World → World
register_lock p w = set_held p (some (suc (count_of (w.held_locks p)))) w

abbrev pub is_already_exists : FsError → Bool
is_already_exists (io_error p already_exists) = true
is_already_exists _ = false

module _ (process : Process) where
  -- The file goes whatever the answer of the operating system: `.ok()`.
  abbrev pub drop_entry : FilePath → World → World
  drop_entry p w = record (set_held p none w) {
    files = (Disk.remove_file process.refused p w.files).1;
  }

  unfoldable pub unregister_lock : FilePath → World → World
  unregister_lock p w = elim (w.held_locks p) [
    | none ↦ drop_entry p w
    | some count ↦ if nat_eq (count - 1) 0 then drop_entry p w else set_held p (some (count - 1)) w
  ]

  unfoldable pub release : LockGuard → World → World
  release guard w = unregister_lock guard.lock_path w

  -- `Drop`
  unfoldable pub drop : LockGuard → World → World
  drop guard w = if guard.released then w else unregister_lock guard.lock_path w

  abbrev pub create_lock_file : FilePath → Text → Action (Unit {0})
  create_lock_file p content = do
    io p (create_new process.refused p)
    io p (write_file process.refused p content)

  abbrev pub read_lock_pid : FilePath → World → Option (ℕ × ℕ)
  read_lock_pid p w = elim (read_to_string process.refused p w.files) [
    | ok content ↦ parse_lock_content content
    | err e ↦ none
  ]

  -- The process that a lock file that exists is refused for: a guard of this process, or a process
  -- that is alive.
  abbrev pub live_holder : FilePath → World → Option ℕ
  live_holder p w = elim (read_lock_pid p w) [
    | none ↦ none
    | some (pid, timestamp) ↦
        if nat_eq pid process.id
        then (elim (w.held_locks p) [ none ↦ none | some count ↦ some pid ])
        else if process.is_pid_alive pid
        then some pid
        else none
  ]

  abbrev pub owned : FilePath → World → Result FsError LockGuard × World
  owned p w = (ok (record { lock_path = p; released = false }), register_lock p w)

  -- Who won the race for the second creation, as far as that can be told.
  abbrev pub new_holder : FilePath → World → ℕ
  new_holder p w = elim (read_lock_pid p w) [
    | none ↦ 0
    | some (pid, timestamp) ↦ if nat_eq pid process.id then 0 else pid
  ]

  abbrev pub second_try : FilePath → Action LockGuard
  second_try p w =
      let tried = create_lock_file p (lock_content process) w in
      elim tried.0 [
        | ok done ↦ owned p tried.1
        | err e ↦
            if is_already_exists e
            then (err (lock_held p (new_holder p tried.1)), tried.1)
            else (err e, tried.1)
      ]

  -- The lock file is there: it is refused, or it is stale and is removed.
  abbrev pub contend : FilePath → Action LockGuard
  contend p w = elim (live_holder p w) [
    | some pid ↦ (err (lock_held p pid), w)
    | none ↦ (remove_marker process p >>= λ done. second_try p) w
  ]

  abbrev pub first_try : FilePath → Action LockGuard
  first_try p w =
      let tried = create_lock_file p (lock_content process) w in
      elim tried.0 [
        | ok done ↦ owned p tried.1
        | err e ↦ if is_already_exists e then contend p tried.1 else (err e, tried.1)
      ]

  unfoldable pub acquire_lock : FilePath → Action LockGuard
  acquire_lock dir = do io dir (create_dir_all process.refused dir); first_try (lock_file ∷ dir)

  unfoldable pub is_locked : FilePath → World → Bool
  is_locked dir w = elim (read_to_string process.refused (lock_file ∷ dir) w.files) [
    | err e ↦ false
    | ok content ↦ elim (parse_lock_content content) [
      | none ↦ false
      | some (pid, timestamp) ↦ not (nat_eq pid process.id) && process.is_pid_alive pid
    ]
  ]
