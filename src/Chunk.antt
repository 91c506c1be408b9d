-- ===== src/Chunk.antt =====
-- crates/zerochain-memory/src/chunk.rs: a text in overlapping chunks. A text is here the list of its
-- characters, of any type.
pub mod Cover
mod Tests
use zerochain.Prelude.{
  ℕ, Bool, true, false, zero, suc, ◌+◌, ◌-◌, List, [], ◌∷◌, length, take, drop, nat_eq, leb,
  if◌then◌else◌,
}
use Prim.Native.Nat.{min, max}

-- The loop, at `start`; one round of fuel for each character is enough, see Chunk/Cover.antt.
unfoldable pub chunks_from {ℓ} : {A : Type ℓ} → ℕ → ℕ → ℕ → List A → ℕ → List (List A)
chunks_from zero chunk_size step chars start = []
chunks_from (suc fuel) chunk_size step chars start =
    let end = min (start + chunk_size) (length chars) in
    let next = min (start + step) (length chars) in
    let rest = chunks_from fuel chunk_size step chars next in
    let chunk = take (end - start) (drop start chars) in
    if leb (length chars) start
    then []
    else if nat_eq end (length chars)
    then chunk ∷ []
    else if leb (length chars) next
    then chunk ∷ []
    else chunk ∷ rest

abbrev pub is_nil {ℓ} : {A : Type ℓ} → List A → Bool
is_nil [] = true
is_nil (c ∷ cs) = false

unfoldable pub chunk_text {ℓ} : {A : Type ℓ} → List A → ℕ → ℕ → List (List A)
chunk_text chars chunk_size overlap =
    let step = max (chunk_size - min overlap (chunk_size - 1)) 1 in
    if nat_eq chunk_size 0
    then []
    else if is_nil chars
    then []
    else chunks_from (length chars) chunk_size step chars 0
