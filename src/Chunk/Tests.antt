-- ===== src/Chunk/Tests.antt =====
-- Ten numbers in chunks of four that overlap by one.
use zerochain.Prelude.{ℕ, ◌≡◌, ◌≤◌, refl, List, [], ◌∷◌, length, All, arith}
use zerochain.Chunk.{chunk_text, chunks_from}
use zerochain.Chunk.Cover.{rejoin, chunk_text-rejoin}

abbrev ten : List ℕ
ten = 0 ∷ 1 ∷ 2 ∷ 3 ∷ 4 ∷ 5 ∷ 6 ∷ 7 ∷ 8 ∷ 9 ∷ []

chunks_of_ten :
    chunk_text ten 4 1 ≡ (0 ∷ 1 ∷ 2 ∷ 3 ∷ []) ∷ (3 ∷ 4 ∷ 5 ∷ 6 ∷ []) ∷ (6 ∷ 7 ∷ 8 ∷ 9 ∷ []) ∷ []
unfolding chunk_text chunks_from
chunks_of_ten = refl

chunk_text-rejoin_example :
    (rejoin 3 (chunk_text ten 4 1) ≡ ten) × All (λ c. length c ≤ 4) (chunk_text ten 4 1)
chunk_text-rejoin_example = chunk_text-rejoin ten 4 1 (omega arith)
