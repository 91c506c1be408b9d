-- ===== src/Text/Search.antt =====
-- `str::find` of a text, `str::starts_with` and `str::contains`.
use zerochain.Prelude.{
  ℕ, zero, suc, ◌+◌, ◌≡◌, refl, sym, subst, ap, ◌∙◌, Bool, true, false, Option, none, some, [], ◌∷◌,
  ◌++◌, nat_eq, ◌&&◌, ◌||◌, if◌then◌else◌, Text, length, take, drop, arith, Bool-cases, inl, inr,
  Option-cases, ◌≤◌, length-append, bytes, text_eq,
}

abbrev pub starts_with : Text → Text → Bool
starts_with [] s = true
starts_with (c ∷ p) [] = false
starts_with (c ∷ p) (d ∷ s) = nat_eq c d && starts_with p s

-- The position of the first occurrence.
abbrev pub find_text : Text → Text → Option ℕ
find_text needle [] = if starts_with needle [] then some 0 else none
find_text needle (c ∷ s) =
    let rest = find_text needle s in
    if starts_with needle (c ∷ s) then some 0 else elim rest [ none ↦ none | some i ↦ some (suc i) ]

abbrev pub contains_text : Text → Text → Bool
contains_text needle [] = starts_with needle []
contains_text needle (c ∷ s) = starts_with needle (c ∷ s) || contains_text needle s

pub starts_with-split : (p s : Text) → starts_with p s ≡ true → s ≡ p ++ drop (length p) s
starts_with-split [] s h = refl
starts_with-split (c ∷ p) [] h = cc
starts_with-split (c ∷ p) (d ∷ s) h = ground (arith, starts_with-split p s)

pub starts_with-append : (p s : Text) → starts_with p (p ++ s) ≡ true
starts_with-append [] s = refl
starts_with-append (c ∷ p) s = ground (arith, starts_with-append p s)

-- What is found splits the text.
pub find_text-split :
    (needle s : Text) (i : ℕ)
    → find_text needle s ≡ some i
    → s ≡ take i s ++ needle ++ drop (i + length needle) s
find_text-split needle [] zero h = ground (arith, starts_with-split needle [])
find_text-split needle [] (suc i) h = ground arith
find_text-split needle (c ∷ s) i h = elim (Bool-cases (starts_with needle (c ∷ s))) [
  | inl e ↦ ground (arith, e, starts_with-split needle (c ∷ s) e)
  | inr e ↦ elim (Option-cases (find_text needle s)) [
    | inl k ↦ ground (arith, e, k)
    | inr (j, k) ↦
        let same : i ≡ suc j = ground (arith, e, k) in
        let shift : suc j + length needle ≡ suc (j + length needle) = omega arith in
        subst (λ n. c ∷ s ≡ take n (c ∷ s) ++ needle ++ drop (n + length needle) (c ∷ s)) (sym same)
          (rw shift (ap (λ l. c ∷ l) (find_text-split needle s j k)))
  ]
]

starts_with-long : (p u v : Text) → length p ≤ length u → starts_with p (u ++ v) ≡ starts_with p u
starts_with-long [] u v h = refl
starts_with-long (c ∷ p) [] v h = absurd (omega (arith, h))
starts_with-long (c ∷ p) (d ∷ u) v h = ground (arith, starts_with-long p u v)

find_text-start : (p s : Text) → starts_with p s ≡ true → find_text p s ≡ some 0
find_text-start p [] h = rw h refl
find_text-start p (c ∷ s) h = ground (arith, h)

pub append_assoc : (s t u : Text) → (s ++ t) ++ u ≡ s ++ (t ++ u)
append_assoc [] t u = refl
append_assoc (c ∷ s) t u = ap (λ l. c ∷ l) (append_assoc s t u)

-- A text that does not occur before is found where it was put; its last byte is given apart.
pub find_text-fresh :
    (h init : Text) (l : ℕ) (rest : Text)
    → contains_text (init ++ l ∷ []) (h ++ init) ≡ false
    → find_text (init ++ l ∷ []) (h ++ (init ++ l ∷ rest)) ≡ some (length h)
find_text-fresh [] init l rest k = find_text-start (init ++ l ∷ []) (init ++ l ∷ rest) (
    subst (λ t. starts_with (init ++ l ∷ []) t ≡ true) (append_assoc init (l ∷ []) rest)
      (starts_with-append (init ++ l ∷ []) rest))
find_text-fresh (c ∷ h) init l rest k =
    let needle = init ++ l ∷ [] in
    let long : length needle ≤ length (c ∷ h ++ init) =
      omega (arith, length-append init (l ∷ []), length-append h init) in
    let same = starts_with-long needle (c ∷ h ++ init) (l ∷ rest) long in
    let apart : starts_with needle (c ∷ h ++ (init ++ l ∷ rest)) ≡ false =
      ap (λ t. starts_with needle (c ∷ t)) (sym (append_assoc h init (l ∷ rest)))
      ∙ same
      ∙ (ground (arith, k)) in
    let ih = find_text-fresh h init l rest (ground (arith, k)) in ground (arith, apart, ih)

-- `str::replace("\r\n", "\n")`
abbrev pub replace_crlf : Text → Text
replace_crlf [] = []
replace_crlf (c ∷ s) =
    let rest = replace_crlf s in
    if nat_eq c b'\r' && starts_with (bytes "\n") s then rest else c ∷ rest

pub replace_crlf-absent : (s : Text) → contains_text (bytes "\r\n") s ≡ false → replace_crlf s ≡ s
replace_crlf-absent [] h = refl
replace_crlf-absent (c ∷ s) h = ground (arith, replace_crlf-absent s)

-- `str::strip_suffix`
abbrev pub strip_suffix : Text → Text → Option Text
strip_suffix p [] = if text_eq p [] then some [] else none
strip_suffix p (c ∷ s) =
    let rest = strip_suffix p s in
    if text_eq p (c ∷ s) then some [] else elim rest [ none ↦ none | some t ↦ some (c ∷ t) ]

pub drop-past : (s t : Text) (n : ℕ) → drop (length s + n) (s ++ t) ≡ drop n t
drop-past [] t n = let none_more : 0 + n ≡ n = omega arith in ap (λ m. drop m t) none_more
drop-past (c ∷ s) t n =
    let shift : suc (length s) + n ≡ suc (length s + n) = omega arith in
    ap (λ m. drop m (c ∷ s ++ t)) shift ∙ drop-past s t n
