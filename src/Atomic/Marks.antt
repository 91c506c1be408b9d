-- ===== src/Atomic/Marks.antt =====
-- crates/zerochain-fs/src/atomic.rs: the marker files of a stage's directory, against the state of a
-- stage that they stand for.
use zerochain.Prelude.{
  ◌≡◌, refl, ap, ◌∙◌, Bool, true, false, Option, none, some, ◌∷◌, if◌then◌else◌, Text, text_eq, ok,
  arith, Bool-cases, inl, inr, Option-cases,
}
use zerochain.Disk.{FilePath, path_eq, path_eq_iff}
use zerochain.Effect.{◌>>◌, >>-ok}
use zerochain.Atomic.{
  Process, World, Action, tmp_name, write_atomic, remove_marker, mark_complete, mark_error,
  mark_executing, clear_executing, is_complete, is_error, is_executing, complete_marker,
  error_marker, executing_marker, or_empty, lock_content,
}

pub path_eq_refl : (p : FilePath) → path_eq p p ≡ true
path_eq_refl p = (path_eq_iff p p).1 refl

module _ (process : Process) where
  remove_marker-ok :
      (p : FilePath) (w : World)
      → (remove_marker process p w).0 ≡ ok tt
      → (process.refused p ≡ false)
        × ((q : FilePath)
            → (remove_marker process p w).1.files q ≡ (if path_eq p q then none else w.files q))
  remove_marker-ok p w h = elim (Bool-cases (process.refused p)) [
    | inl e ↦ ground (arith, e)
    | inr e ↦ (
      e,
      λ q. elim (Option-cases (w.files p)) [
        | inl k ↦ ground (arith, e, k, path_eq_iff p q)
        | inr (c, k) ↦ ground (arith, e, k)
      ],
    )
  ]

  write_atomic-ok :
      (name : Text) (parent : FilePath) (content : Text) (w : World)
      → text_eq (tmp_name process name w.temp_counter) name ≡ false
      → (write_atomic process (name ∷ parent) content w).0 ≡ ok tt
      → (process.refused (name ∷ parent) ≡ false)
        × ((q : FilePath)
            → (write_atomic process (name ∷ parent) content w).1.files q ≡ (
                if path_eq (name ∷ parent) q
                then some content
                else if path_eq (tmp_name process name w.temp_counter ∷ parent) q
                then none
                else w.files q))
  write_atomic-ok name parent content w d h = elim (Bool-cases (process.refused parent)) [
    | inl e ↦ ground (arith, e)
    | inr e ↦ elim (Bool-cases (process.refused (tmp_name process name w.temp_counter ∷ parent))) [
      | inl k ↦ ground (arith, e, k)
      | inr k ↦ elim (Bool-cases (process.refused (name ∷ parent))) [
        | inl r ↦
            ground (arith, e, k, r, path_eq_refl (tmp_name process name w.temp_counter ∷ parent))
        | inr r ↦ (
          r,
          λ q.
              ground
                (arith, e, k, r, path_eq_refl (tmp_name process name w.temp_counter ∷ parent), d),
        )
      ]
    ]
  ]

-- What `mark_complete` and `mark_error` do: one marker is written, then two are removed.
abbrev pub marked : Process → FilePath → (written first second : Text) → Text → Action (Unit {0})
marked process dir written first second content = do
  write_atomic process (written ∷ dir) content
  remove_marker process (first ∷ dir)
  remove_marker process (second ∷ dir)

module _ (process : Process) (dir : FilePath) where
  marked-ok :
      (written first second content : Text) (w : World)
      → text_eq (tmp_name process written w.temp_counter) written ≡ false
      → (marked process dir written first second content w).0 ≡ ok tt
      → (process.refused (written ∷ dir) ≡ false)
        × (process.refused (first ∷ dir) ≡ false)
        × (process.refused (second ∷ dir) ≡ false)
        × ((q : FilePath)
            → (marked process dir written first second content w).1.files q ≡ (
                if path_eq (second ∷ dir) q
                then none
                else if path_eq (first ∷ dir) q
                then none
                else if path_eq (written ∷ dir) q
                then some content
                else if path_eq (tmp_name process written w.temp_counter ∷ dir) q
                then none
                else w.files q))
  marked-ok written first second content w d h =
      let put = write_atomic process (written ∷ dir) content in
      let drop_first = remove_marker process (first ∷ dir) in
      let drop_second = remove_marker process (second ∷ dir) in
      let (e₁, h₁, s₁) = >>-ok put (drop_first >> drop_second) w tt h in
      let (e₂, e₃, s₂) = >>-ok drop_first drop_second ((put w).1) tt h₁ in
      let one = write_atomic-ok process written dir content w d e₁ in
      let two = remove_marker-ok process (first ∷ dir) ((put w).1) e₂ in
      let three = remove_marker-ok process (second ∷ dir) ((drop_first ((put w).1)).1) e₃ in
      (
        one.0,
        two.0,
        three.0,
        λ q.
            ap (λ (x : World). x.files q) (s₁ ∙ s₂)
            ∙ three.1 q
            ∙ ap (λ f. if path_eq (second ∷ dir) q then none else f)
                (two.1 q ∙ ap (λ f. if path_eq (first ∷ dir) q then none else f) (one.1 q)),
      )

-- The state of a stage that its markers stand for.
pub record Status : Type 0 where
  pub complete : Bool
  pub error : Bool
  pub executing : Bool

unfoldable pub status : Process → FilePath → World → Status
status process dir w = record {
  complete = is_complete process dir w;
  error = is_error process dir w;
  executing = is_executing process dir w;
}

module _ (process : Process) (dir : FilePath) (w : World) where
  -- When marking a stage as complete succeeds, the stage has the completion marker and neither of the
  -- other two, whatever was there before.
  pub mark_complete-status :
      (metadata : Option Text)
      → (mark_complete process dir metadata w).0 ≡ ok tt
      → status process dir (mark_complete process dir metadata w).1
        ≡ record { complete = true; error = false; executing = false }
  unfolding mark_complete status
  mark_complete-status metadata h =
      let (a, b, c, f) =
        marked-ok process dir complete_marker error_marker executing_marker (or_empty metadata) w
          refl h in
      ground (
        arith,
        a,
        b,
        c,
        f (complete_marker ∷ dir),
        f (error_marker ∷ dir),
        f (executing_marker ∷ dir),
        path_eq_refl dir,
      )

  -- When marking a stage as failed succeeds, the stage has the error marker and neither of the other
  -- two, whatever was there before.
  pub mark_error-status :
      (message : Text)
      → (mark_error process dir message w).0 ≡ ok tt
      → status process dir (mark_error process dir message w).1
        ≡ record { complete = false; error = true; executing = false }
  unfolding mark_error status
  mark_error-status message h =
      let (a, b, c, f) =
        marked-ok process dir error_marker complete_marker executing_marker message w refl h in
      ground (
        arith,
        a,
        b,
        c,
        f (complete_marker ∷ dir),
        f (error_marker ∷ dir),
        f (executing_marker ∷ dir),
        path_eq_refl dir,
      )

  pub mark_executing-status :
      (mark_executing process dir w).0 ≡ ok tt
      → status process dir (mark_executing process dir w).1
        ≡ record (status process dir w) { executing = true }
  unfolding mark_executing status
  mark_executing-status h =
      let (a, f) = write_atomic-ok process executing_marker dir (lock_content process) w refl h in
      ground (
        arith,
        a,
        f (complete_marker ∷ dir),
        f (error_marker ∷ dir),
        f (executing_marker ∷ dir),
        path_eq_refl dir,
      )

  pub clear_executing-status :
      (clear_executing process dir w).0 ≡ ok tt
      → status process dir (clear_executing process dir w).1
        ≡ record (status process dir w) { executing = false }
  unfolding clear_executing status
  clear_executing-status h =
      let (a, f) = remove_marker-ok process (executing_marker ∷ dir) w h in
      ground (
        arith,
        a,
        f (complete_marker ∷ dir),
        f (error_marker ∷ dir),
        f (executing_marker ∷ dir),
        path_eq_refl dir,
      )
