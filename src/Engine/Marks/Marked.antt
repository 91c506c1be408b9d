-- ===== src/Engine/Marks/Marked.antt =====
-- crates/zerochain-engine/src/state.rs: the files after a stage was marked, and the outcome that the
-- plan reads from them.
use zerochain.Prelude.{
  ◌≡◌, refl, ap, ◌∙◌, subst, Option, none, some, [], ◌∷◌, if◌then◌else◌, Text, bytes, ok, err,
  arith, Bool-cases, Option-cases, inl, inr,
}
use zerochain.Disk.{FilePath, path_eq, path_eq_iff, Files, Refusal, write_file, read_to_string}
use zerochain.Effect.{◌>>◌, >>-ok}
use zerochain.Graph.Control.{ControlOutcome, as_record, parse_record}
use zerochain.Engine.Marks.{io, remove_stale, write_control, feedback_text, complete_in, error_in}

-- The file with the outcome, which stays if there is none.
abbrev pub control_text : Option ControlOutcome → Option Text → Option Text
control_text none old = old
control_text (some outcome) old = some (as_record outcome)

module _ (refused : Refusal) where
  write_file-ok :
      (p : FilePath) (content : Text) (files : Files)
      → (io p (write_file refused p content) files).0 ≡ ok tt
      → (q : FilePath)
      → (io p (write_file refused p content) files).1 q
        ≡ (if path_eq p q then some content else files q)
  write_file-ok p content files h q = elim (Bool-cases (refused p)) [
    | inl e ↦ ground (arith, e)
    | inr e ↦ ground (arith, e)
  ]

  remove_stale-ok :
      (p : FilePath) (files : Files)
      → (remove_stale refused p files).0 ≡ ok tt
      → (q : FilePath)
      → (remove_stale refused p files).1 q ≡ (if path_eq p q then none else files q)
  remove_stale-ok p files h q = elim (Bool-cases (refused p)) [
    | inl e ↦ ground (arith, e)
    | inr e ↦ elim (Option-cases (files p)) [
      | inl k ↦ ground (arith, e, k, path_eq_iff p q)
      | inr (c, k) ↦ ground (arith, e, k)
    ]
  ]

  write_control-ok :
      (p : FilePath) (outcome : Option ControlOutcome) (files : Files)
      → (write_control refused p outcome files).0 ≡ ok tt
      → (q : FilePath)
      → (write_control refused p outcome files).1 q
        ≡ (if path_eq p q then control_text outcome (files q) else files q)
  write_control-ok p none files h q = ground arith
  write_control-ok p (some outcome) files h q = write_file-ok p (as_record outcome) files h q

  -- The file with the outcome is none of the two markers.
  control_last :
      (dir : FilePath) (outcome : Option ControlOutcome) (files : Files) (q : FilePath)
      → (let other =
            if path_eq (bytes ".error" ∷ dir) q
            then none
            else if path_eq (bytes ".complete" ∷ dir) q
            then some []
            else files q in
          if path_eq (bytes ".control" ∷ dir) q then control_text outcome other else other)
        ≡ (if path_eq (bytes ".control" ∷ dir) q
            then control_text outcome (files q)
            else if path_eq (bytes ".error" ∷ dir) q
            then none
            else if path_eq (bytes ".complete" ∷ dir) q
            then some []
            else files q)
  control_last dir outcome files q = elim (Bool-cases (path_eq (bytes ".control" ∷ dir) q)) [
    | inr e ↦ rw e refl
    | inl e ↦
        let same : bytes ".control" ∷ dir ≡ q = (path_eq_iff (bytes ".control" ∷ dir) q).0 e in
        rw e (
          subst
            (λ p.
              control_text outcome (
                if path_eq (bytes ".error" ∷ dir) p
                then none
                else if path_eq (bytes ".complete" ∷ dir) p
                then some []
                else files p)
              ≡ control_text outcome (files p))
            same refl)
  ]

  pub complete_in-ok :
      (dir : FilePath) (outcome : Option ControlOutcome) (files : Files)
      → (complete_in refused dir outcome files).0 ≡ ok tt
      → (q : FilePath)
      → (complete_in refused dir outcome files).1 q ≡ (
          if path_eq (bytes ".control" ∷ dir) q
          then control_text outcome (files q)
          else if path_eq (bytes ".error" ∷ dir) q
          then none
          else if path_eq (bytes ".complete" ∷ dir) q
          then some []
          else files q)
  unfolding complete_in
  complete_in-ok dir outcome files h q =
      let marker = bytes ".complete" ∷ dir in
      let (a, rest, s) =
        >>-ok (io marker (write_file refused marker []))
          (remove_stale refused (bytes ".error" ∷ dir)
            >> write_control refused (bytes ".control" ∷ dir) outcome)
          files tt h in
      let t = (io marker (write_file refused marker []) files).1 in
      let (b, c, u) =
        >>-ok (remove_stale refused (bytes ".error" ∷ dir))
          (write_control refused (bytes ".control" ∷ dir) outcome) t tt rest in
      let v = (remove_stale refused (bytes ".error" ∷ dir) t).1 in
      let pick = λ (x : Option Text).
        if path_eq (bytes ".control" ∷ dir) q then control_text outcome x else x in
      let written = write_file-ok marker [] files a q in
      let removed = remove_stale-ok (bytes ".error" ∷ dir) t b q in
      let control = write_control-ok (bytes ".control" ∷ dir) outcome v c q in
      ap (λ (f : Files). f q) (s ∙ u)
      ∙ control
      ∙ ap pick removed
      ∙ ap (λ o. pick (if path_eq (bytes ".error" ∷ dir) q then none else o)) written
      ∙ control_last dir outcome files q

  pub error_in-ok :
      (dir : FilePath) (feedback : Option Text) (files : Files)
      → (error_in refused dir feedback files).0 ≡ ok tt
      → (q : FilePath)
      → (error_in refused dir feedback files).1 q ≡ (
          if path_eq (bytes ".complete" ∷ dir) q
          then none
          else if path_eq (bytes ".error" ∷ dir) q
          then some (feedback_text feedback)
          else files q)
  unfolding error_in
  error_in-ok dir feedback files h q =
      let marker = bytes ".error" ∷ dir in
      let text = feedback_text feedback in
      let (a, b, s) =
        >>-ok (io marker (write_file refused marker text))
          (remove_stale refused (bytes ".complete" ∷ dir)) files tt h in
      let t = (io marker (write_file refused marker text) files).1 in
      ap (λ (f : Files). f q) s
      ∙ remove_stale-ok (bytes ".complete" ∷ dir) t b q
      ∙ ap (λ o. if path_eq (bytes ".complete" ∷ dir) q then none else o)
          (write_file-ok marker text files a q)

-- What `ExecutionPlan::from_graph` reads of a stage's directory.
unfoldable pub outcome_in : Refusal → FilePath → Files → Option ControlOutcome
outcome_in refused dir files = elim (read_to_string refused (bytes ".control" ∷ dir) files) [
  | err e ↦ none
  | ok content ↦ parse_record content
]
