-- ===== src/Atomic/Lock/Content.antt =====
-- crates/zerochain-fs/src/atomic.rs: what is written into a lock file is read back.
use zerochain.Prelude.{
  ℕ, ◌^◌, ◌<◌, ◌≡◌, ◌≢◌, refl, Bool, true, some, [], ◌∷◌, ◌++◌, Text, bytes, All, arith, all, not,
  nat_eq, ◌&&◌, ap, ◌∙◌,
}
use zerochain.Text.{is_digit}
use zerochain.Text.Decimal.{decimal, decimal-digits, parse_uint-decimal}
use zerochain.Text.Lines.{lines, lines-append}
use zerochain.Atomic.{Process, lock_content}
use zerochain.Atomic.Lock.{parse_lock_content}

digits-unbroken :
    (s : Text) → All (λ c. is_digit c ≡ true) s → All (λ c. (c ≢ b'\n') × (c ≢ b'\r')) s
digits-unbroken [] h = tt
digits-unbroken (c ∷ s) h = (ground (arith, h.0), digits-unbroken s h.1)

abbrev is_unbroken : Text → Bool
is_unbroken = all (λ c. not (nat_eq c b'\n') && not (nat_eq c b'\r'))

unbroken-append :
    (s t : Text)
    → is_unbroken s ≡ true
    → All (λ c. (c ≢ b'\n') × (c ≢ b'\r')) t
    → All (λ c. (c ≢ b'\n') × (c ≢ b'\r')) (s ++ t)
unbroken-append [] t h k = k
unbroken-append (c ∷ s) t h k = (ground arith, unbroken-append s t (ground arith) k)

lines-labelled :
    (label : Text) (n : ℕ) (s : Text)
    → is_unbroken label ≡ true
    → lines ((label ++ decimal n) ++ b'\n' ∷ s) ≡ (label ++ decimal n) ∷ lines s
lines-labelled label n s h =
    let digits = digits-unbroken (decimal n) (decimal-digits n) in
    lines-append (label ++ decimal n) s (unbroken-append label (decimal n) h digits)

timestamp_line :
    (n : ℕ)
    → lines (bytes "TIMESTAMP:" ++ decimal n ++ b'\n' ∷ []) ≡ (bytes "TIMESTAMP:" ++ decimal n) ∷ []
unfolding lines
timestamp_line n = lines-labelled (bytes "TIMESTAMP:") n [] refl

lines-lock_content :
    (process : Process)
    → lines (lock_content process)
      ≡ (bytes "PID:" ++ decimal process.id)
        ∷ (bytes "TIMESTAMP:" ++ decimal process.epoch_secs)
        ∷ []
lines-lock_content process =
    let clock = decimal process.epoch_secs in
    lines-labelled (bytes "PID:") process.id (bytes "TIMESTAMP:" ++ clock ++ b'\n' ∷ []) refl
    ∙ ap (λ l. (bytes "PID:" ++ decimal process.id) ∷ l) (timestamp_line process.epoch_secs)

-- A process whose identifier and clock fit their types reads both back from the lock file that it
-- wrote.
pub parse_lock_content-lock_content :
    (process : Process)
    → process.id < 2 ^ 32
    → process.epoch_secs < 2 ^ 64
    → parse_lock_content (lock_content process) ≡ some (process.id, process.epoch_secs)
unfolding parse_lock_content
parse_lock_content-lock_content process small clock =
    rw
      (
        lines-lock_content process,
        parse_uint-decimal (2 ^ 32) process.id small,
        parse_uint-decimal (2 ^ 64) process.epoch_secs clock,
      )
      refl
