-- ===== src/Atomic/Refinement.antt =====
-- crates/zerochain-fs/src/atomic.rs: a run of marker operations is a run on the state of the stage.
use zerochain.Prelude.{
  ◌≡◌, refl, ap, ◌∙◌, true, false, Option, List, [], ◌∷◌, Text, ok, arith, Option-cases, inl, inr,
}
use zerochain.Disk.{FilePath}
use zerochain.Effect.{◌>>◌, pure, >>-continues}
use zerochain.Atomic.{
  Process, World, Action, tmp_name, write_atomic, remove_marker, mark_complete, mark_error,
  mark_executing, clear_executing, complete_marker, error_marker, executing_marker, or_empty,
  lock_content,
}
use zerochain.Atomic.Marks.{
  Status, status, marked, path_eq_refl, mark_complete-status, mark_error-status,
  mark_executing-status, clear_executing-status,
}

-- The calls that a stage's directory receives.
pub data Mark : Type 0 where
  completed : Option Text → Mark
  failed : Text → Mark
  started : Mark
  cleared : Mark

unfoldable pub perform : Process → FilePath → Mark → Action (Unit {0})
perform process dir (completed metadata) = mark_complete process dir metadata
perform process dir (failed message) = mark_error process dir message
perform process dir started = mark_executing process dir
perform process dir cleared = clear_executing process dir

unfoldable pub perform_all : Process → FilePath → List Mark → Action (Unit {0})
perform_all process dir [] = pure tt
perform_all process dir (m ∷ ms) = perform process dir m >> perform_all process dir ms

-- The same calls on the state of a stage.
abbrev pub after : Status → Mark → Status
after s (completed metadata) = record { complete = true; error = false; executing = false }
after s (failed message) = record { complete = false; error = true; executing = false }
after s started = record s { executing = true }
after s cleared = record s { executing = false }

abbrev pub replay : Status → List Mark → Status
replay s [] = s
replay s (m ∷ ms) = replay (after s m) ms

module _ (process : Process) (permitted : (p : FilePath) → process.refused p ≡ false) where
  write_atomic-permitted :
      (name : Text) (dir : FilePath) (content : Text) (w : World)
      → (write_atomic process (name ∷ dir) content w).0 ≡ ok tt
  write_atomic-permitted name dir content w = ground (
    arith,
    permitted dir,
    permitted (tmp_name process name w.temp_counter ∷ dir),
    permitted (name ∷ dir),
    path_eq_refl (tmp_name process name w.temp_counter ∷ dir),
  )

  remove_marker-permitted : (p : FilePath) (w : World) → (remove_marker process p w).0 ≡ ok tt
  remove_marker-permitted p w = elim (Option-cases (w.files p)) [
    | inl e ↦ ground (arith, permitted p, e)
    | inr (c, e) ↦ ground (arith, permitted p, e)
  ]

  marked-permitted :
      (dir : FilePath) (written first second content : Text) (w : World)
      → (marked process dir written first second content w).0 ≡ ok tt
  marked-permitted dir written first second content w =
      let drop_first = remove_marker process (first ∷ dir) in
      let drop_second = remove_marker process (second ∷ dir) in
      >>-continues (write_atomic process (written ∷ dir) content) (drop_first >> drop_second) w
        (write_atomic-permitted written dir content w)
        (λ v.
          >>-continues drop_first drop_second v (remove_marker-permitted (first ∷ dir) v)
            (remove_marker-permitted (second ∷ dir)))

  pub perform-permitted :
      (dir : FilePath) (m : Mark) (w : World) → (perform process dir m w).0 ≡ ok tt
  unfolding perform mark_complete mark_error mark_executing clear_executing
  perform-permitted dir (completed metadata) w =
      marked-permitted dir complete_marker error_marker executing_marker (or_empty metadata) w
  perform-permitted dir (failed message) w =
      marked-permitted dir error_marker complete_marker executing_marker message w
  perform-permitted dir started w =
      write_atomic-permitted executing_marker dir (lock_content process) w
  perform-permitted dir cleared w = remove_marker-permitted (executing_marker ∷ dir) w

module _ (process : Process) (dir : FilePath) where
  perform-status :
      (m : Mark) (w : World)
      → (perform process dir m w).0 ≡ ok tt
      → status process dir (perform process dir m w).1 ≡ after (status process dir w) m
  unfolding perform
  perform-status (completed metadata) w h = mark_complete-status process dir w metadata h
  perform-status (failed message) w h = mark_error-status process dir w message h
  perform-status started w h = mark_executing-status process dir w h
  perform-status cleared w h = clear_executing-status process dir w h

  -- Where the operating system refuses nothing, every sequence of marker calls on the directory of a
  -- stage succeeds, and afterwards its markers stand for the state that the same sequence makes of
  -- the state they stood for before.
  pub perform_all-refines :
      (permitted : (p : FilePath) → process.refused p ≡ false) (ms : List Mark) (w : World)
      → ((perform_all process dir ms w).0 ≡ ok tt)
        × (status process dir (perform_all process dir ms w).1 ≡ replay (status process dir w) ms)
  unfolding perform_all
  perform_all-refines permitted [] w = (refl, refl)
  perform_all-refines permitted (m ∷ ms) w =
      let done = perform-permitted process permitted dir m w in
      let rest = perform_all-refines permitted ms ((perform process dir m w).1) in
      let step = perform-status m w done in
      (ground (arith, done, rest.0), ground (arith, done) ∙ rest.1 ∙ ap (λ s. replay s ms) step)
