-- ===== src/Chunk/Cover.antt =====
-- The chunks cover the text: without their overlaps they are the text, and none is too long.
use Prim.Native.Nat.{min, max}
use zerochain.Prelude.{
  ℕ, zero, suc, false, ◌+◌, ◌-◌, ◌≤◌, ◌<◌, ◌≡◌, refl, sym, ap, ◌∙◌, List, [], ◌∷◌, ◌++◌, length,
  take, drop, arith, All, nat_eq, leb, Bool-cases, inl, inr, length-drop, length-take,
  take-append-drop,
}
use zerochain.Chunk.{chunks_from, chunk_text}

-- The chunks put together: of each but the last the part before the next one begins.
abbrev pub rejoin {ℓ} : {A : Type ℓ} → ℕ → List (List A) → List A
rejoin step [] = []
rejoin step (c ∷ []) = c
rejoin step (c ∷ d ∷ cs) = take step c ++ rejoin step (d ∷ cs)

-- The characters between two starts.
abbrev pub step_of : ℕ → ℕ → ℕ
step_of chunk_size overlap = chunk_size - min overlap (chunk_size - 1)

module _ {ℓ} {A : Type ℓ} where
  take-long : (n : ℕ) (xs : List A) → length xs ≤ n → take n xs ≡ xs
  take-long zero [] h = refl
  take-long zero (x ∷ xs) h = absurd (omega arith)
  take-long (suc n) [] h = refl
  take-long (suc n) (x ∷ xs) h = ap (λ l. x ∷ l) (take-long n xs (omega arith))

  drop-long : (n : ℕ) (xs : List A) → length xs ≤ n → drop n xs ≡ []
  drop-long zero [] h = refl
  drop-long zero (x ∷ xs) h = absurd (omega arith)
  drop-long (suc n) [] h = refl
  drop-long (suc n) (x ∷ xs) h = drop-long n xs (omega arith)

  take-take : (m n : ℕ) (xs : List A) → m ≤ n → take m (take n xs) ≡ take m xs
  take-take zero n xs h = refl
  take-take (suc m) zero xs h = absurd (omega arith)
  take-take (suc m) (suc n) [] h = refl
  take-take (suc m) (suc n) (x ∷ xs) h = ap (λ l. x ∷ l) (take-take m n xs (omega arith))

  drop-nil : (n : ℕ) → ◌≡◌ {A = List A} (drop n []) []
  drop-nil zero = refl
  drop-nil (suc n) = refl

  drop-add : (m n : ℕ) (xs : List A) → drop m (drop n xs) ≡ drop (n + m) xs
  drop-add m zero xs = ap (λ k. drop k xs) (omega arith)
  drop-add m (suc n) [] = drop-nil m ∙ sym (drop-nil (suc n + m))
  drop-add m (suc n) (x ∷ xs) =
      drop-add m n xs ∙ ap (λ k. drop k (x ∷ xs)) {x = suc (n + m)} (omega arith)

  rejoin-cons :
      (step n : ℕ) (c rest_text : List A) (cs : List (List A))
      → rejoin step cs ≡ rest_text
      → n < length rest_text
      → rejoin step (c ∷ cs) ≡ take step c ++ rest_text
  rejoin-cons step n c t [] h l = absurd (ground (arith, ap length h))
  rejoin-cons step n c t (d ∷ cs) h l = ap (λ u. take step c ++ u) h

  module _ (chunk_size step : ℕ) (chars : List A) (pos : 0 < step) (fits : step ≤ chunk_size) where
    rejoin-chunks_from :
        (fuel start : ℕ)
        → length chars ≤ start + fuel
        → rejoin step (chunks_from fuel chunk_size step chars start) ≡ drop start chars
    unfolding chunks_from
    rejoin-chunks_from zero start h = sym (drop-long start chars (omega arith))
    rejoin-chunks_from (suc fuel) start h = elim (Bool-cases (leb (length chars) start)) [
      | inl past ↦ rw past (sym (drop-long start chars (ground arith)))
      | inr inside ↦
          elim (Bool-cases (nat_eq (min (start + chunk_size) (length chars)) (length chars))) [
            | inl last ↦
                rw (inside, last)
                  (take-long _ (drop start chars) (ground (arith, length-drop start chars)))
            | inr more ↦
                let next = min (start + step) (length chars) in
                let same : next ≡ start + step = ground arith in
                let open_end : leb (length chars) next ≡ false = ground arith in
                let tail : rejoin step (chunks_from fuel chunk_size step chars next)
                    ≡ drop next chars =
                  rejoin-chunks_from fuel next (omega (arith, same)) in
                let chunk =
                  take (min (start + chunk_size) (length chars) - start) (drop start chars) in
                rw (inside, more, open_end)
                  (rejoin-cons step 0 chunk (drop next chars) _ tail
                      (ground (arith, length-drop next chars, same))
                    ∙ ap (λ l. l ++ drop next chars)
                        (take-take step _ (drop start chars) (ground arith))
                    ∙ ap (λ l. take step (drop start chars) ++ l)
                        (ap (λ k. drop k chars) same ∙ sym (drop-add step start chars))
                    ∙ take-append-drop step (drop start chars))
          ]
    ]

    short-chunks_from :
        (fuel start : ℕ)
        → All (λ c. length c ≤ chunk_size) (chunks_from fuel chunk_size step chars start)
    unfolding chunks_from
    short-chunks_from zero start = tt
    short-chunks_from (suc fuel) start =
        let next = min (start + step) (length chars) in
        let rest = short-chunks_from fuel next in
        let size = min (start + chunk_size) (length chars) - start in
        let short : length (take size (drop start chars)) ≤ chunk_size =
          omega (arith, length-take size (drop start chars)) in
        elim (Bool-cases (leb (length chars) start)) [
          | inl e ↦ rw e tt
          | inr e ↦
              elim (Bool-cases (nat_eq (min (start + chunk_size) (length chars)) (length chars))) [
                | inl f ↦ rw (e, f) (short, tt)
                | inr f ↦ elim (Bool-cases (leb (length chars) next)) [
                  | inl g ↦ rw (e, f, g) (short, tt)
                  | inr g ↦ rw (e, f, g) (short, rest)
                ]
              ]
        ]

-- With a chunk size above 0, the chunks without their overlaps are the whole text in order, and none
-- is longer than the chunk size, whatever overlap is asked for.
pub chunk_text-rejoin {ℓ} :
    {A : Type ℓ} (chars : List A) (chunk_size overlap : ℕ)
    → 0 < chunk_size
    → (rejoin (step_of chunk_size overlap) (chunk_text chars chunk_size overlap) ≡ chars)
      × All (λ c. length c ≤ chunk_size) (chunk_text chars chunk_size overlap)
unfolding chunk_text
chunk_text-rejoin [] chunk_size overlap h = elim (Bool-cases (nat_eq chunk_size 0)) [
  | inl e ↦ absurd (ground arith)
  | inr e ↦ rw e (refl, tt)
]
chunk_text-rejoin {A = A} (x ∷ xs) chunk_size overlap h =
    let step = max (step_of chunk_size overlap) 1 in
    let same : step ≡ step_of chunk_size overlap = omega arith in
    let chars : List A = x ∷ xs in
    elim (Bool-cases (nat_eq chunk_size 0)) [
      | inl e ↦ absurd (ground arith)
      | inr e ↦ rw e (
        ap (λ s. rejoin s (chunks_from (length chars) chunk_size step chars 0)) (sym same)
            ∙ rejoin-chunks_from chunk_size step chars (omega arith) (omega arith) (length chars) 0
                (omega arith),
        short-chunks_from chunk_size step chars (omega arith) (omega arith) (length chars) 0,
      )
    ]
