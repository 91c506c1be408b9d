-- ===== src/Workflow/Names.antt =====
-- crates/zerochain-core/src/workflow.rs: names that are joined to a path stay below it.
use zerochain.Prelude.{
  ℕ, ◌≤◌, ◌≡◌, ◌≢◌, refl, sym, ap, Bool, false, ◌&&◌, ◌||◌, List, [], ◌∷◌, nat_eq, ltb, Text, bytes,
  ok, length, All, arith, Bool-cases, inl, inr, >>=-eq-ok, ok-injective, subst, err-ne-ok,
}
use zerochain.Text.{is_empty, contains_byte}
use zerochain.Text.Search.{contains_text}
use zerochain.Task.{Task}
use zerochain.Workflow.{validate_stage_component}
use zerochain.Workflow.Init.{
  replace_separators, replace_dots, remove_nul, sanitized_id, stage_defs, validate_all,
  checked_names,
}

-- A name of one component, which is not empty and does not lead up.
pub record IsComponent (name : Text) : Type 0 where
  pub some_name : is_empty name ≡ false
  pub slash : contains_byte b'/' name ≡ false
  pub backslash : contains_byte b'\\' name ≡ false
  pub no_dots : contains_text (bytes "..") name ≡ false

-- A stage name that is accepted is one component that does not lead up.
pub validate_stage_component-IsComponent :
    (name : Text) → validate_stage_component name ≡ ok tt → IsComponent name
unfolding validate_stage_component
validate_stage_component-IsComponent name h = record {
  some_name = ground (arith, h);
  slash = ground (arith, h);
  backslash = ground (arith, h);
  no_dots = ground (arith, h);
}

validate_all-IsComponent : (names : List Text) → validate_all names ≡ ok tt → All IsComponent names
validate_all-IsComponent [] h = tt
validate_all-IsComponent (name ∷ names) h =
    let (valid, e, k) = >>=-eq-ok (validate_stage_component name) _ h in
    (validate_stage_component-IsComponent name e, validate_all-IsComponent names k)

separators_gone :
    (s : Text)
    → (contains_byte b'/' (replace_separators s) ≡ false)
      × (contains_byte b'\\' (replace_separators s) ≡ false)
separators_gone [] = (refl, refl)
separators_gone (c ∷ s) = ground (arith, separators_gone s)

separators-nul :
    (s : Text) → contains_byte 0 s ≡ false → contains_byte 0 (replace_separators s) ≡ false
separators-nul [] h = refl
separators-nul (c ∷ s) h = ground (arith, separators-nul s)

-- A byte other than a dash that is not in a text is not in it without its dots.
dots-absent :
    (b : ℕ) (s : Text)
    → b ≢ b'-'
    → contains_byte b s ≡ false
    → contains_byte b (replace_dots s) ≡ false
dots-absent b [] ne h = refl
dots-absent b (c ∷ []) ne h = h
dots-absent b (c ∷ d ∷ s) ne h = ground (arith, dots-absent b s ne, dots-absent b (d ∷ s) ne)

remove_nul-absent : (s : Text) → contains_byte 0 s ≡ false → remove_nul s ≡ s
remove_nul-absent [] h = refl
remove_nul-absent (c ∷ s) h = ground (arith, remove_nul-absent s)

abbrev starts_with_dot : Text → Bool
starts_with_dot [] = false
starts_with_dot (c ∷ s) = nat_eq c b'.'

dots-head : (s : Text) → starts_with_dot s ≡ false → starts_with_dot (replace_dots s) ≡ false
dots-head [] h = refl
dots-head (c ∷ []) h = h
dots-head (c ∷ d ∷ s) h = ground arith

no_dots-cons :
    (c : ℕ) (s : Text)
    → contains_text (bytes "..") s ≡ false
    → (nat_eq c b'.' && starts_with_dot s) ≡ false
    → contains_text (bytes "..") (c ∷ s) ≡ false
no_dots-cons c [] h k = ground arith
no_dots-cons c (d ∷ s) h k = ground arith

dots_gone : (s : Text) → contains_text (bytes "..") (replace_dots s) ≡ false
dots_gone [] = refl
dots_gone (c ∷ []) = ground arith
dots_gone (c ∷ d ∷ s) = elim (Bool-cases (nat_eq c b'.' && nat_eq d b'.')) [
  | inl e ↦ rw (e, replace_dots, contains_text) (dots_gone s)
  | inr e ↦
      rw (e, replace_dots)
        (no_dots-cons c (replace_dots (d ∷ s)) (dots_gone (d ∷ s))
          (ground (arith, e, dots-head (d ∷ s))))
]

-- An identifier without a NUL byte is sanitized to one that has no separator and no two dots in a row.
sanitized_id-safe :
    (id : Text)
    → contains_byte 0 id ≡ false
    → (contains_byte b'/' (sanitized_id id) ≡ false)
      × (contains_byte b'\\' (sanitized_id id) ≡ false)
      × (contains_text (bytes "..") (sanitized_id id) ≡ false)
unfolding sanitized_id
sanitized_id-safe id h =
    let s = replace_separators id in
    let nul = dots-absent 0 s (omega arith) (separators-nul id h) in
    let (slash, backslash) = separators_gone id in
    rw (remove_nul-absent (replace_dots s) nul) (
      dots-absent b'/' s (omega arith) slash,
      dots-absent b'\\' s (omega arith) backslash,
      dots_gone s,
    )

-- Where the checks of a task succeed, the name of the root and those of all stages are single
-- components that do not lead up, and the root's has at most 128 bytes. The task's identifier has no
-- NUL byte.
pub checked_names-IsComponent :
    (task : Task) (id : Text) (names : List Text)
    → contains_byte 0 task.head.id ≡ false
    → checked_names task ≡ ok (id, names)
    → IsComponent id × (length id ≤ 128) × (names ≡ stage_defs task) × All IsComponent names
unfolding checked_names
checked_names-IsComponent task id names nul h =
    let s = sanitized_id task.head.id in
    elim (Bool-cases (is_empty s || ltb 128 (length s))) [
      | inl e ↦ absurd (err-ne-ok (rw e at h))
      | inr e ↦
          let (valid, e₁, h₁) = >>=-eq-ok (validate_all (stage_defs task)) _ (rw e at h) in
          let same : ◌≡◌ {A = Text × List Text} (s, stage_defs task) (id, names) =
            ok-injective h₁ in
          let own : s ≡ id = ap (λ (p : Text × List Text). p.0) same in
          let defs : stage_defs task ≡ names = ap (λ (p : Text × List Text). p.1) same in
          let (slash, backslash, dots) = sanitized_id-safe task.head.id nul in
          (
            subst IsComponent own (record {
              some_name = ground (arith, e);
              slash = slash;
              backslash = backslash;
              no_dots = dots;
            }),
            subst (λ l. length l ≤ 128) own (ground (arith, e)),
            sym defs,
            subst (All IsComponent) defs (validate_all-IsComponent (stage_defs task) e₁),
          )
    ]
