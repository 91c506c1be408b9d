-- ===== src/Context/Head.antt =====
-- crates/zerochain-core/src/okf.rs: which texts begin with a head.
use zerochain.Prelude.{
  ℕ, ◌≡◌, ◌≢◌, ◌⊎◌, ◌↔◌, refl, sym, ap, ◌∙◌, subst, true, false, not, ◌&&◌, some, [], ◌∷◌, ◌++◌,
  nat_eq, nat_eq_iff, Text, bytes, text_eq_iff, All, arith, Bool-cases, Option-cases, inl, inr,
  some-inj, none-ne-some,
}
use zerochain.Text.{
  is_empty, take_while, drop_while, starts_with_class, take_while-drop_while, take_while-append,
}
use zerochain.Text.Lines.{strip_prefix}
use zerochain.Text.Search.{append_assoc}
use zerochain.Context.{bom, strip_bom, trim_returns, starts_frontmatter}

-- The text less a byte order mark in front, if it has one.
abbrev pub IsUnmarked : (content text : Text) → Type 0
IsUnmarked content text =
    (content ≡ bom ++ text) ⊎ ((text ≡ content) × ((t : Text) → content ≢ bom ++ t))

strip_prefix-split : (p s t : Text) → strip_prefix p s ≡ some t → s ≡ p ++ t
strip_prefix-split [] s t h = some-inj h
strip_prefix-split (c ∷ p) [] t h = absurd cc
strip_prefix-split (c ∷ p) (d ∷ s) t h = elim (Bool-cases (nat_eq c d)) [
  | inl e ↦
      let rest = strip_prefix-split p s t (rw e at h) in
      subst (λ x. d ∷ s ≡ x ∷ (p ++ t)) (sym ((nat_eq_iff c d).0 e)) (ap (λ l. d ∷ l) rest)
  | inr e ↦ absurd (none-ne-some (rw e at h))
]

strip_prefix-append : (p t : Text) → strip_prefix p (p ++ t) ≡ some t
strip_prefix-append [] t = refl
strip_prefix-append (c ∷ p) t = ground (arith, strip_prefix-append p t, nat_eq_iff c c)

pub strip_bom-IsUnmarked : (content : Text) → IsUnmarked content (strip_bom content)
unfolding strip_bom
strip_bom-IsUnmarked content = elim (Option-cases (strip_prefix bom content)) [
  | inr (t, e) ↦ rw (e, strip_bom) (inl (strip_prefix-split bom content t e))
  | inl e ↦
      rw (e, strip_bom)
        (inr
          (refl, λ t h. none-ne-some (sym e ∙ ap (strip_prefix bom) h ∙ strip_prefix-append bom t)))
]

-- The first line is three dashes, and may end in carriage returns.
abbrev pub HasHead : Text → Type 0
HasHead text =
    (returns : Text) × (rest : Text) × (text ≡ bytes "---" ++ (returns ++ rest))
    × All (λ c. c ≡ b'\r') returns
    × ((rest ≡ []) ⊎ ((more : Text) × (rest ≡ b'\n' ∷ more)))

trim_returns-split : (s : Text) → (r : Text) × (s ≡ trim_returns s ++ r) × All (λ c. c ≡ b'\r') r
trim_returns-split [] = ([], refl, tt)
trim_returns-split (c ∷ s) =
    let (r, e, a) = trim_returns-split s in
    elim (Bool-cases (nat_eq c b'\r' && is_empty (trim_returns s))) [
      | inr k ↦ (r, ground (arith, k, e), a)
      | inl k ↦
          let nothing : trim_returns s ≡ [] = ground (arith, k) in
          let same : s ≡ r = e ∙ ap (λ l. l ++ r) nothing in
          (c ∷ s, ground (arith, k), (ground (arith, k), subst (All (λ x. x ≡ b'\r')) (sym same) a))
    ]

trim_returns-All : (r : Text) → All (λ c. c ≡ b'\r') r → trim_returns r ≡ []
trim_returns-All [] h = refl
trim_returns-All (c ∷ r) h = ground (arith, h.0, trim_returns-All r h.1)

behind_line :
    (s : Text)
    → (drop_while (λ c. not (nat_eq c b'\n')) s ≡ [])
      ⊎ ((more : Text) × (drop_while (λ c. not (nat_eq c b'\n')) s ≡ b'\n' ∷ more))
behind_line [] = inl refl
behind_line (c ∷ s) = elim (Bool-cases (nat_eq c b'\n')) [
  | inl e ↦ inr (s, ground (arith, e))
  | inr e ↦ rw e (behind_line s)
]

returns_in_line : (r : Text) → All (λ c. c ≡ b'\r') r → All (λ c. not (nat_eq c b'\n') ≡ true) r
returns_in_line [] h = tt
returns_in_line (c ∷ r) h = (ground (arith, h.0), returns_in_line r h.1)

behind_first :
    (rest : Text)
    → (rest ≡ []) ⊎ ((more : Text) × (rest ≡ b'\n' ∷ more))
    → starts_with_class (λ c. not (nat_eq c b'\n')) rest ≡ false
behind_first rest (inl e) = rw e refl
behind_first rest (inr (more, e)) = rw e refl

pub starts_frontmatter_iff : (text : Text) → (starts_frontmatter text ≡ true) ↔ HasHead text
unfolding starts_frontmatter
starts_frontmatter_iff text =
    let in_line = λ (c : ℕ). not (nat_eq c b'\n') in
    let line = take_while in_line text in
    (
      λ h.
          let dashes : trim_returns line ≡ bytes "---" = (text_eq_iff _ _).0 h in
          let (r, e, a) = trim_returns-split line in
          (
            r,
            drop_while in_line text,
            sym (take_while-drop_while in_line text)
                ∙ ap (λ l. l ++ drop_while in_line text) (e ∙ ap (λ l. l ++ r) dashes)
                ∙ append_assoc (bytes "---") r (drop_while in_line text),
            a,
            behind_line text,
          ),
      λ (r, rest, e, a, b).
          let whole : line ≡ bytes "---" ++ r =
            ap (take_while in_line) (e ∙ sym (append_assoc (bytes "---") r rest))
            ∙ take_while-append in_line (bytes "---" ++ r) rest
                (refl, (refl, (refl, returns_in_line r a))) (behind_first rest b) in
          let trimmed : trim_returns (bytes "---" ++ r) ≡ bytes "---" =
            ground (arith, trim_returns-All r a) in
          (text_eq_iff _ _).1 (ap trim_returns whole ∙ trimmed),
    )
