-- ===== src/Atomic/Lock/Exclusion.antt =====
-- crates/zerochain-fs/src/atomic.rs: who gets the lock of a directory, and what releasing it undoes,
-- where one call runs at a time.
use zerochain.Prelude.{
  ℕ, suc, ◌^◌, ◌<◌, ◌≡◌, ◌≢◌, sym, ◌∙◌, subst, none-ne-some, true, false, ◌&&◌, not, none, some,
  ◌∷◌, nat_eq, nat_eq_iff, if◌then◌else◌, Text, ok, err, arith, Option-cases, Bool-cases, inl, inr,
  ◌⊎◌,
}
use zerochain.Disk.{FilePath, path_eq}
use zerochain.Atomic.{lock_held, Process, World, lock_file, lock_content}
use zerochain.Atomic.Marks.{path_eq_refl}
use zerochain.Atomic.Lock.{
  LockGuard, live_holder, parse_lock_content, acquire_lock, is_locked, count_of,
}
use zerochain.Atomic.Lock.Content.{parse_lock_content-lock_content}

-- The guard of a lock file.
abbrev pub guard_of : FilePath → LockGuard
guard_of dir = record { lock_path = lock_file ∷ dir; released = false }

-- Nothing is refused at the directory and its lock file.
abbrev pub IsPermitted : Process → FilePath → Type 0
IsPermitted process dir =
    (process.refused dir ≡ false) × (process.refused (lock_file ∷ dir) ≡ false)

-- The text of a file names a process that holds the lock: the process itself, if its registry has the
-- lock, or another process that it finds alive.
abbrev pub HeldBy : Process → FilePath → World → ℕ → Type 0
HeldBy process p w pid =
    (content : Text) × (timestamp : ℕ) × (w.files p ≡ some content)
    × (parse_lock_content content ≡ some (pid, timestamp))
    × ((pid ≡ process.id) × ((count : ℕ) × (w.held_locks p ≡ some count))
        ⊎ (pid ≢ process.id) × (process.is_pid_alive pid ≡ true))

module _ (process : Process) (p : FilePath) (w : World) (readable : process.refused p ≡ false) where
  live_holder-HeldBy : (pid : ℕ) → live_holder process p w ≡ some pid → HeldBy process p w pid
  live_holder-HeldBy pid h = elim (Option-cases (w.files p)) [
    | inl e ↦ ground (arith, readable, e, h)
    | inr (content, e) ↦ elim (Option-cases (parse_lock_content content)) [
      | inl k ↦ ground (arith, readable, e, k, h)
      | inr (written, k) ↦ elim (Bool-cases (nat_eq written.0 process.id)) [
        | inl own ↦ elim (Option-cases (w.held_locks p)) [
          | inl free ↦ ground (arith, readable, e, k, own, free, h)
          | inr (count, held) ↦
              let same : written.0 ≡ pid = ground (arith, readable, e, k, own, held, h) in
              subst (HeldBy process p w) same (
                content,
                written.1,
                e,
                k,
                inl ((nat_eq_iff written.0 process.id).0 own, (count, held)),
              )
        ]
        | inr foreign ↦ elim (Bool-cases (process.is_pid_alive written.0)) [
          | inr dead ↦ ground (arith, readable, e, k, foreign, dead, h)
          | inl alive ↦
              let same : written.0 ≡ pid = ground (arith, readable, e, k, foreign, alive, h) in
              subst (HeldBy process p w) same
                (content, written.1, e, k, inr ((λ q. ground (arith, foreign, q)), alive))
        ]
      ]
    ]
  ]

  HeldBy-live_holder : (pid : ℕ) → HeldBy process p w pid → live_holder process p w ≡ some pid
  HeldBy-live_holder pid (content, timestamp, e, k, inl (own, (count, held))) =
      ground (arith, readable, e, k, own, held)
  HeldBy-live_holder pid (content, timestamp, e, k, inr (foreign, alive)) =
      ground (arith, readable, e, k, foreign, alive)

module _ (process : Process) (dir : FilePath) (permitted : IsPermitted process dir)
    (w : World) where
  abbrev path : FilePath
  path = lock_file ∷ dir

  -- The world in which the lock was just taken.
  abbrev pub Taken : World → Type 0
  Taken v =
      ((q : FilePath)
        → v.files q
          ≡ (if path_eq (lock_file ∷ dir) q then some (lock_content process) else w.files q))
      × ((q : FilePath)
          → v.held_locks q ≡ (
              if path_eq (lock_file ∷ dir) q
              then some (suc (count_of (w.held_locks (lock_file ∷ dir))))
              else w.held_locks q))
      × (v.temp_counter ≡ w.temp_counter)

  acquire_lock-absent :
      w.files (lock_file ∷ dir) ≡ none
      → ((acquire_lock process dir w).0 ≡ ok (guard_of dir)) × Taken (acquire_lock process dir w).1
  unfolding acquire_lock
  acquire_lock-absent e = (
    ground (arith, permitted.0, permitted.1, e),
    (
      λ q. ground (arith, permitted.0, permitted.1, e),
      λ q. ground (arith, permitted.0, permitted.1, e),
      ground (arith, permitted.0, permitted.1, e),
    ),
  )

  acquire_lock-stale :
      (c : Text)
      → w.files (lock_file ∷ dir) ≡ some c
      → live_holder process (lock_file ∷ dir) w ≡ none
      → ((acquire_lock process dir w).0 ≡ ok (guard_of dir)) × Taken (acquire_lock process dir w).1
  unfolding acquire_lock
  acquire_lock-stale c e h = (
    ground (arith, permitted.0, permitted.1, e, h, path_eq_refl (lock_file ∷ dir)),
    (
      λ q. ground (arith, permitted.0, permitted.1, e, h, path_eq_refl (lock_file ∷ dir)),
      λ q. ground (arith, permitted.0, permitted.1, e, h, path_eq_refl (lock_file ∷ dir)),
      ground (arith, permitted.0, permitted.1, e, h, path_eq_refl (lock_file ∷ dir)),
    ),
  )

  acquire_lock-refused :
      (pid : ℕ)
      → live_holder process (lock_file ∷ dir) w ≡ some pid
      → acquire_lock process dir w ≡ (err (lock_held (lock_file ∷ dir) pid), w)
  unfolding acquire_lock
  acquire_lock-refused pid h = elim (Option-cases (w.files (lock_file ∷ dir))) [
    | inl e ↦ ground (arith, permitted.0, permitted.1, e, h)
    | inr (c, e) ↦ ground (arith, permitted.0, permitted.1, e, h)
  ]

  -- Where nothing is refused at the directory and its lock file, a process gets the lock if the lock
  -- file is missing or names no process that holds it: not this one, with the lock in its registry,
  -- nor another one that it finds alive. Then the lock file holds the process's identifier and clock,
  -- its registry counts one guard more, and nothing else changed. If the lock file names one, the
  -- error is that this process holds the lock, and nothing changed at all.
  pub acquire_lock-Decides :
      (((pid : ℕ) → HeldBy process (lock_file ∷ dir) w pid → ⊥)
        × ((acquire_lock process dir w).0 ≡ ok (guard_of dir))
        × Taken (acquire_lock process dir w).1)
      ⊎ ((pid : ℕ) × HeldBy process (lock_file ∷ dir) w pid
          × (acquire_lock process dir w ≡ (err (lock_held (lock_file ∷ dir) pid), w)))
  acquire_lock-Decides =
      let file = lock_file ∷ dir in
      elim (Option-cases (live_holder process file w)) [
        | inr (pid, h) ↦
            inr
              (pid, live_holder-HeldBy process file w permitted.1 pid h, acquire_lock-refused pid h)
        | inl h ↦
            let nobody : (pid : ℕ) → HeldBy process file w pid → ⊥ = λ pid by.
              none-ne-some (sym h ∙ HeldBy-live_holder process file w permitted.1 pid by) in
            elim (Option-cases (w.files file)) [
              | inl e ↦ (let taken = acquire_lock-absent e in inl (nobody, taken.0, taken.1))
              | inr (c, e) ↦
                  (let taken = acquire_lock-stale c e h in inl (nobody, taken.0, taken.1))
            ]
      ]

-- The lock file that a process wrote, as another process finds it, or the same process again.
module _ (owner other : Process) (dir : FilePath) (small : owner.id < 2 ^ 32)
    (clock : owner.epoch_secs < 2 ^ 64) (permitted : IsPermitted other dir) (w : World)
    (written : w.files (lock_file ∷ dir) ≡ some (lock_content owner)) where
  -- A process sees the directory as locked exactly if the owner of the lock file is another process
  -- that it finds alive.
  pub is_locked-written :
      is_locked other dir w ≡ (not (nat_eq owner.id other.id) && other.is_pid_alive owner.id)
  unfolding is_locked
  is_locked-written =
      ground (arith, permitted.1, written, parse_lock_content-lock_content owner small clock)
