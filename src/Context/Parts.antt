-- ===== src/Context/Parts.antt =====
-- crates/zerochain-core/src/okf.rs: where the head of a Markdown file ends.
use zerochain.Prelude.{
  ℕ, suc, ◌≡◌, ◌≢◌, ◌⊎◌, refl, sym, ap, ◌∙◌, subst, true, false, ◌&&◌, Option, none, some, [], ◌∷◌,
  ◌++◌, nat_eq, nat_eq_iff, Text, bytes, Result, ok, err, ok_or, >>=-eq-ok, take, drop, arith,
  Bool-cases, Option-cases, inl, inr, some-inj, ok-injective,
}
use zerochain.Errors.{Error, unterminated_frontmatter, yaml_parse}
use zerochain.Text.{trim_start}
use zerochain.Text.Search.{starts_with, starts_with-split}
use zerochain.Context.Head.{IsUnmarked, HasHead, strip_bom-IsUnmarked, starts_frontmatter_iff}
use zerochain.Context.{
  body_offset, closes_at, find_closing_delimiter, strip_bom, starts_frontmatter, split_frontmatter,
  parse_frontmatter_only,
}

-- How the closing line ends: with a break of either kind, or with the text.
abbrev pub IsEnding : Text → Text → Type 0
IsEnding eol rest = (eol ≡ b'\n' ∷ []) ⊎ (eol ≡ b'\r' ∷ b'\n' ∷ []) ⊎ ((eol ≡ []) × (rest ≡ []))

-- The head, a line of dashes, and the body.
abbrev pub IsClosed : Text → (head body : Text) → Type 0
IsClosed s head body =
    (eol : Text) × (s ≡ head ++ (b'\n' ∷ (bytes "---" ++ (eol ++ body)))) × IsEnding eol body

-- The same for what stands behind the dashes of a closing line.
abbrev IsOffset : Text → ℕ → Type 0
IsOffset s n =
    (eol : Text) × (s ≡ eol ++ drop n (b'\n' ∷ (bytes "---" ++ s)))
    × IsEnding eol (drop n (b'\n' ∷ (bytes "---" ++ s)))

body_offset-split : (s : Text) (n : ℕ) → body_offset s ≡ some n → IsOffset s n
body_offset-split [] n h = subst (IsOffset []) (some-inj h) ([], refl, inr (inr (refl, refl)))
body_offset-split (c ∷ []) n h = elim (Bool-cases (nat_eq c b'\n')) [
  | inr e ↦ ground (arith, e, h)
  | inl e ↦
      let five : 5 ≡ n = ground (arith, e, h) in
      let line : b'\n' ≡ c = sym ((nat_eq_iff c b'\n').0 e) in
      subst (λ x. IsOffset (x ∷ []) n) line
        (subst (IsOffset (b'\n' ∷ [])) five (b'\n' ∷ [], refl, inl refl))
]
body_offset-split (c ∷ d ∷ s) n h = elim (Bool-cases (nat_eq c b'\n')) [
  | inl e ↦
      let five : 5 ≡ n = ground (arith, e, h) in
      let line : b'\n' ≡ c = sym ((nat_eq_iff c b'\n').0 e) in
      subst (λ x. IsOffset (x ∷ d ∷ s) n) line
        (subst (IsOffset (b'\n' ∷ d ∷ s)) five (b'\n' ∷ [], refl, inl refl))
  | inr e ↦ elim (Bool-cases (nat_eq c b'\r' && nat_eq d b'\n')) [
    | inr k ↦ ground (arith, e, k, h)
    | inl k ↦
        let six : 6 ≡ n = ground (arith, e, k, h) in
        let return : b'\r' ≡ c = ground (arith, k) in
        let line : b'\n' ≡ d = ground (arith, k) in
        subst (λ x. IsOffset (x ∷ d ∷ s) n) return
          (subst (λ y. IsOffset (b'\r' ∷ y ∷ s) n) line
            (subst (IsOffset (b'\r' ∷ b'\n' ∷ s)) six (b'\r' ∷ b'\n' ∷ [], refl, inr (inl refl))))
  ]
]

closes_at-split :
    (c : ℕ) (s : Text) (n : ℕ) → closes_at c s ≡ some n → IsClosed (c ∷ s) [] (drop n (c ∷ s))
closes_at-split c s n h = elim (Bool-cases (nat_eq c b'\n' && starts_with (bytes "---") s)) [
  | inr e ↦ ground (arith, e, h)
  | inl e ↦
      let line : c ≡ b'\n' = ground (arith, e) in
      let dashes : s ≡ bytes "---" ++ drop 3 s =
        starts_with-split (bytes "---") s (ground (arith, e)) in
      let (eol, k, ending) = body_offset-split (drop 3 s) n (rw e at h) in
      let whole : c ∷ s ≡ b'\n' ∷ (bytes "---" ++ drop 3 s) =
        ap (λ x. x ∷ s) line ∙ ap (λ t. b'\n' ∷ t) dashes in
      let body = drop n (b'\n' ∷ (bytes "---" ++ drop 3 s)) in
      subst (λ t. IsClosed t [] (drop n t)) (sym whole)
        (eol, ap (λ t. b'\n' ∷ (bytes "---" ++ t)) k, ending)
]

-- What is found splits the text at a line of dashes alone.
find_closing_delimiter-IsClosed :
    (s : Text) (i j : ℕ) → find_closing_delimiter s ≡ some (i, j) → IsClosed s (take i s) (drop j s)
unfolding find_closing_delimiter
find_closing_delimiter-IsClosed [] i j h = absurd cc
find_closing_delimiter-IsClosed (c ∷ s) i j h = elim (Option-cases (closes_at c s)) [
  | inr (n, e) ↦
      let same : ◌≡◌ {A = ℕ × ℕ} (0, n) (i, j) = some-inj (rw (e, find_closing_delimiter) at h) in
      subst (λ (p : ℕ × ℕ). IsClosed (c ∷ s) (take (p.0) (c ∷ s)) (drop (p.1) (c ∷ s))) same
        (closes_at-split c s n e)
  | inl e ↦ elim (Option-cases (find_closing_delimiter s)) [
    | inl k ↦ ground (arith, rw k at (rw (e, find_closing_delimiter) at h))
    | inr (p, k) ↦
        let same : ◌≡◌ {A = ℕ × ℕ} (suc (p.0), suc (p.1)) (i, j) =
          some-inj (rw k at (rw (e, find_closing_delimiter) at h)) in
        let (eol, f, ending) = find_closing_delimiter-IsClosed s (p.0) (p.1) k in
        subst (λ (q : ℕ × ℕ). IsClosed (c ∷ s) (take (q.0) (c ∷ s)) (drop (q.1) (c ∷ s))) same
          (eol, ap (λ t. c ∷ t) f, ending)
  ]
]

-- How a text was split into its head and its body, where it has a head.
pub record IsSplit {A : Type 0} (from_yaml : Text → Option A) (text : Text) (head : A) (body : Text)
    : Type 0 where
  pub yaml : Text
  pub rest : Text
  pub closed : IsClosed (drop 3 (trim_start text)) yaml rest
  pub read : from_yaml yaml ≡ some head
  pub trimmed : body ≡ trim_start rest

ok_or-ok : {A : Type 0} (o : Option A) (e : Error) {a : A} → ok_or o e ≡ ok a → o ≡ some a
ok_or-ok none e h = absurd cc
ok_or-ok (some b) e h = ap some (ok-injective h)

true-ne-false : true ≢ false
true-ne-false e = cc

-- Of a text that is split, a byte order mark in front goes first. If, behind white space, its first
-- line is three dashes, and carriage returns at most, it is split at a later line that is exactly
-- three dashes: what stands between is read as the head, and what follows, less white space in front,
-- is the body. If that line is another one, the head is the default one, and the body is the whole
-- text as it was.
pub split_frontmatter-IsSplit :
    {A : Type 0} (from_yaml : Text → Option A) (no_head head : A) (content body : Text)
    → split_frontmatter from_yaml no_head content ≡ ok (head, body)
    → (text : Text) × IsUnmarked content text
      × ((HasHead (trim_start text) → ⊥) × (head ≡ no_head) × (body ≡ content)
          ⊎ HasHead (trim_start text) × IsSplit from_yaml text head body)
unfolding split_frontmatter
split_frontmatter-IsSplit {A} from_yaml no_head head content body h =
    let trimmed = trim_start (strip_bom content) in
    let after_first = drop 3 trimmed in
    let first_line = starts_frontmatter_iff trimmed in
    (
      strip_bom content,
      strip_bom-IsUnmarked content,
      elim (Bool-cases (starts_frontmatter trimmed)) [
        | inr e ↦
            let same : ◌≡◌ {A = A × Text} (no_head, content) (head, body) =
              ok-injective (rw e at h) in
            inl (
              (λ k. true-ne-false (sym (first_line.1 k) ∙ e)),
              sym (ap (λ (p : A × Text). p.0) same),
              sym (ap (λ (p : A × Text). p.1) same),
            )
        | inl e ↦
            let (ends, e₁, h₁) =
              >>=-eq-ok (ok_or (find_closing_delimiter after_first) unterminated_frontmatter) _
                (rw e at h) in
            let (fm, e₂, h₂) =
              >>=-eq-ok (ok_or (from_yaml (take (ends.0) after_first)) yaml_parse) _ h₁ in
            let same : ◌≡◌ {A = A × Text} (fm, trim_start (drop (ends.1) after_first))
                (head, body) =
              ok-injective h₂ in
            inr (
              first_line.0 e,
              record {
                yaml = take (ends.0) after_first;
                rest = drop (ends.1) after_first;
                closed =
                    find_closing_delimiter-IsClosed after_first (ends.0) (ends.1) (ok_or-ok _ _ e₁);
                read = ok_or-ok _ _ e₂ ∙ ap (λ (p : A × Text). some (p.0)) same;
                trimmed = sym (ap (λ (p : A × Text). p.1) same);
              },
            )
      ],
    )

abbrev only_head : {A : Type 0} → Result Error (A × Text) → Result Error A
only_head (ok split) = ok (split.0)
only_head (err e) = err e

-- The head alone is that of the split, and fails as the split fails.
parse_frontmatter_only-split_frontmatter :
    {A : Type 0} (from_yaml : Text → Option A) (no_head : A) (content : Text)
    → parse_frontmatter_only from_yaml no_head content
      ≡ only_head (split_frontmatter from_yaml no_head content)
unfolding parse_frontmatter_only split_frontmatter
parse_frontmatter_only-split_frontmatter from_yaml no_head content =
    let trimmed = trim_start (strip_bom content) in
    let after_first = drop 3 trimmed in
    elim (Bool-cases (starts_frontmatter trimmed)) [
      | inr e ↦ rw e refl
      | inl e ↦ elim (Option-cases (find_closing_delimiter after_first)) [
        | inl k ↦ rw e (rw k refl)
        | inr (ends, k) ↦ elim (Option-cases (from_yaml (take (ends.0) after_first))) [
          | inl j ↦ rw e (rw k (rw j refl))
          | inr (fm, j) ↦ rw e (rw k (rw j refl))
        ]
      ]
    ]
