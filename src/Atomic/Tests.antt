-- ===== src/Atomic/Tests.antt =====
-- Runs of the calls of crates/zerochain-fs/src/atomic.rs on small directories.
use zerochain.Prelude.{
  ℕ, ◌≡◌, ◌≢◌, refl, true, false, none, some, [], ◌∷◌, bytes, ok, err, nat_eq, ◌⊎◌, arith,
}
use zerochain.Text.Decimal.{decimal}
use zerochain.Disk.{FilePath, set_file}
use zerochain.Atomic.{
  Process, World, mark_complete, lock_file, lock_content, error_marker, lock_held,
}
use zerochain.Atomic.Marks.{status, mark_complete-status}
use zerochain.Atomic.Refinement.{completed, started, perform_all, replay, perform_all-refines}
use zerochain.Atomic.Lock.{acquire_lock, parse_lock_content}
use zerochain.Atomic.Lock.Content.{parse_lock_content-lock_content}
use zerochain.Atomic.Lock.Exclusion.{guard_of, Taken, acquire_lock-Decides, HeldBy}
use zerochain.Atomic.Race.{
  Race, Reach, here, next, create, write, quiet, move, new_file, fill, holding, created, held_once,
  both_hold, IsPatient,
}

-- Process 7 finds nobody alive, process 8 finds 7 alive.
abbrev seven : Process
seven = record { id = 7; epoch_secs = 1000; is_pid_alive = λ p. false; refused = λ p. false }

abbrev eight : Process
eight = record { id = 8; epoch_secs = 2000; is_pid_alive = λ p. nat_eq p 7; refused = λ p. false }

abbrev stage_dir : FilePath
stage_dir = bytes "00_plan" ∷ bytes "flow" ∷ []

abbrev empty : World
empty = record { files = λ p. none; temp_counter = 0; held_locks = λ p. none }

abbrev failing : World
failing = record empty {
  files = set_file (error_marker ∷ stage_dir) (some (bytes "boom")) (λ p. none);
}

-- The world in which process 7 has written the lock file.
abbrev locked : World
locked = record empty {
  files = set_file (lock_file ∷ stage_dir) (some (lock_content seven)) (λ p. none);
}

mark_complete-status_example :
    status seven stage_dir (mark_complete seven stage_dir none failing).1
    ≡ record { complete = true; error = false; executing = false }
unfolding mark_complete decimal
mark_complete-status_example = mark_complete-status seven stage_dir failing none refl

perform_all-refines_example :
    ((perform_all seven stage_dir (started ∷ completed none ∷ []) failing).0 ≡ ok tt)
    × (status seven stage_dir
          (perform_all seven stage_dir (started ∷ completed none ∷ []) failing).1
        ≡ replay (status seven stage_dir failing) (started ∷ completed none ∷ []))
perform_all-refines_example =
    perform_all-refines seven stage_dir (λ p. refl) (started ∷ completed none ∷ []) failing

parse_lock_content-lock_content_example : parse_lock_content (lock_content eight) ≡ some (8, 2000)
parse_lock_content-lock_content_example =
    parse_lock_content-lock_content eight (omega arith) (omega arith)

acquire_lock-Decides_example :
    (((pid : ℕ) → HeldBy eight (lock_file ∷ stage_dir) locked pid → ⊥)
      × ((acquire_lock eight stage_dir locked).0 ≡ ok (guard_of stage_dir))
      × Taken eight stage_dir (refl, refl) locked (acquire_lock eight stage_dir locked).1)
    ⊎ ((pid : ℕ) × HeldBy eight (lock_file ∷ stage_dir) locked pid
        × (acquire_lock eight stage_dir locked
            ≡ (err (lock_held (lock_file ∷ stage_dir) pid), locked)))
acquire_lock-Decides_example = acquire_lock-Decides eight stage_dir (refl, refl) locked

both_hold_example : (r : Race) × Reach quiet r × (r.phase 1 ≡ holding) × (r.phase 2 ≡ holding)
both_hold_example = both_hold 1 2 (omega arith)

-- Process 1 creates the lock file and writes it.
abbrev first_created : Race
first_created = move 1 created (some (new_file 1)) quiet

abbrev first_holds : Race
first_holds = move 1 holding (fill 1 first_created.file) first_created

abbrev first_run : Reach quiet first_holds
first_run = next (next here (create 1 refl refl)) (write 1 refl)

abbrev first_run_IsPatient : IsPatient first_run
first_run_IsPatient = (λ p. ground arith, (λ p. ground arith, tt))

held_once_example : first_holds.phase 2 ≢ holding
held_once_example = held_once first_run first_run_IsPatient 1 2 (omega arith) refl
