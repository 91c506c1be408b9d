-- ===== src/Text/Lines.antt =====
-- `str::lines` and `str::strip_prefix`.
use zerochain.Prelude.{
  ℕ, ◌≡◌, ◌≢◌, refl, Option, none, some, List, [], ◌∷◌, ◌++◌, ◌&&◌, nat_eq, if◌then◌else◌, Text,
  All, arith,
}
use zerochain.Text.Defs.{starts_with_class}

abbrev push_first : ℕ → List Text → List Text
push_first c [] = (c ∷ []) ∷ []
push_first c (l ∷ ls) = (c ∷ l) ∷ ls

-- Lines end in `\n` or `\r\n`, and a last line need not end.
unfoldable pub lines : Text → List Text
lines [] = []
lines (c ∷ s) =
    let rest = lines s in
    if nat_eq c b'\n'
    then [] ∷ rest
    else if nat_eq c b'\r' && starts_with_class (λ d. nat_eq d b'\n') s
    then rest
    else push_first c rest

abbrev pub strip_prefix : Text → Text → Option Text
strip_prefix [] s = some s
strip_prefix (c ∷ p) [] = none
strip_prefix (c ∷ p) (d ∷ s) = let rest = strip_prefix p s in if nat_eq c d then rest else none

-- A line without breaks that is ended is the first of the lines.
pub lines-append :
    (l s : Text) → All (λ c. (c ≢ b'\n') × (c ≢ b'\r')) l → lines (l ++ b'\n' ∷ s) ≡ l ∷ lines s
unfolding lines
lines-append [] s h = refl
lines-append (c ∷ l) s h = ground (arith, lines-append l s h.1, h.0)
