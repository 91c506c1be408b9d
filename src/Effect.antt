-- ===== src/Effect.antt =====
-- Calls that change a state and may fail: what was done before a failure stays done. `?` of the
-- source is the bind of a `do` block.
use zerochain.Prelude.{◌≡◌, ok, err, Result, Result-cases, inl, inr, arith}

abbrev pub Effect : Type 0 → Type 0 → Type 0 → Type 0
Effect S E A = S → Result E A × S

module _ {S E : Type 0} where
  abbrev pub pure : {A : Type 0} → A → Effect S E A
  pure a s = (ok a, s)

  abbrev pub raise : {A : Type 0} → E → Effect S E A
  raise e s = (err e, s)

  -- A test of the state alone.
  abbrev pub lift : {A : Type 0} → Result E A → Effect S E A
  lift r s = (r, s)

infixl 5 ◌>>=◌ ◌>>◌
abbrev pub ◌>>=◌ : {S E A B : Type 0} → Effect S E A → (A → Effect S E B) → Effect S E B
◌>>=◌ m f s = elim ((m s).0) [ ok a ↦ f a ((m s).1) | err e ↦ (err e, (m s).1) ]

abbrev pub ◌>>◌ : {S E B : Type 0} → Effect S E (Unit {0}) → Effect S E B → Effect S E B
m >> k = m >>= λ _. k

module _ {S E : Type 0} where
  -- A sequence that succeeds is made of calls that succeed.
  pub >>-ok :
      {B : Type 0} (m : Effect S E (Unit {0})) (k : Effect S E B) (s : S) (b : B)
      → ((m >> k) s).0 ≡ ok b
      → ((m s).0 ≡ ok tt) × ((k ((m s).1)).0 ≡ ok b) × (((m >> k) s).1 ≡ (k ((m s).1)).1)
  >>-ok m k s b h = elim (Result-cases ((m s).0)) [
    | inl (a, e) ↦ (ground (arith, e), ground (arith, e), ground (arith, e))
    | inr (x, e) ↦ ground (arith, e)
  ]

  -- A call that succeeds is followed by what it passes its value to.
  pub >>=-ok :
      {A B : Type 0} (m : Effect S E A) (f : A → Effect S E B) (s : S) (b : B)
      → ((m >>= f) s).0 ≡ ok b
      → (a : A) × ((m s).0 ≡ ok a)
        × ((f a ((m s).1)).0 ≡ ok b)
        × (((m >>= f) s).1 ≡ (f a ((m s).1)).1)
  >>=-ok m f s b h = elim (Result-cases ((m s).0)) [
    | inl (a, e) ↦ (a, e, ground (arith, e), ground (arith, e))
    | inr (x, e) ↦ ground (arith, e)
  ]

  pub >>-continues :
      (m k : Effect S E (Unit {0})) (s : S)
      → (m s).0 ≡ ok tt
      → ((t : S) → (k t).0 ≡ ok tt)
      → ((m >> k) s).0 ≡ ok tt
  >>-continues m k s h f = ground (arith, h, f ((m s).1))
