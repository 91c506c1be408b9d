-- ===== src/Engine/Snapshots/Names.antt =====
-- crates/zerochain-engine/src/state.rs: the key of a snapshot's name, and the order of keys.
use zerochain.Prelude.{
  ℕ, ◌^◌, ◌<◌, ◌≡◌, ◌≢◌, refl, sym, true, false, none, some, [], ◌∷◌, ◌++◌, Text, text_cmp_eq,
  text_cmp-flip, text_cmp_trans, flip, Ordering, arith, All,
}
use zerochain.Prelude.SortLaws.{preorder-of_order}
use zerochain.Text.{contains_byte, is_digit}
use zerochain.Text.Decimal.{decimal, decimal-digits, parse_uint-decimal}
use zerochain.Text.Search.{append_assoc}
use zerochain.Engine.Snapshots.{
  split_last, nonce_of, timestamp_of, snapshot_chrono_key, compare_keys, compare_names, snap_name,
}

keys_eq : (a b : Text × ℕ) → compare_keys a b ≡ Ordering.eq → a ≡ b
keys_eq (s, a) (t, b) h = ground (arith, text_cmp_eq s t, h)

keys-flip : (a b : Text × ℕ) → compare_keys b a ≡ flip (compare_keys a b)
keys-flip (s, a) (t, b) = ground (arith, text_cmp-flip s t)

keys_trans :
    (a b c : Text × ℕ)
    → compare_keys a b ≡ Ordering.lt
    → compare_keys b c ≡ Ordering.lt
    → compare_keys a c ≡ Ordering.lt
keys_trans (s, a) (t, b) (u, c) h k =
    ground (arith, text_cmp_trans s t u, text_cmp_eq s t, text_cmp_eq t u)

pub names-flip : (a b : Text) → compare_names b a ≡ flip (compare_names a b)
unfolding compare_names
names-flip a b = keys-flip (snapshot_chrono_key a) (snapshot_chrono_key b)

pub names_preorder :
    (a b c : Text)
    → compare_names a b ≢ Ordering.gt
    → compare_names b c ≢ Ordering.gt
    → compare_names a c ≢ Ordering.gt
unfolding compare_names
names_preorder a b c =
    preorder-of_order compare_keys keys_eq keys_trans (snapshot_chrono_key a)
      (snapshot_chrono_key b) (snapshot_chrono_key c)

split_last-none : (s : Text) → contains_byte b'.' s ≡ false → split_last s ≡ none
split_last-none [] h = refl
split_last-none (c ∷ s) h = ground (arith, split_last-none s)

split_last-append :
    (s t : Text) → contains_byte b'.' t ≡ false → split_last (s ++ b'.' ∷ t) ≡ some (s, t)
split_last-append [] t h = ground (arith, split_last-none t h)
split_last-append (c ∷ s) t h = ground (arith, split_last-append s t h)

digits-dotless : (s : Text) → All (λ c. is_digit c ≡ true) s → contains_byte b'.' s ≡ false
digits-dotless [] h = refl
digits-dotless (c ∷ s) h = ground (arith, digits-dotless s h.1, h.0)

-- The key of the name that a snapshot gets is its time and its nonce, whatever dots the name of the
-- stage has: the time has no dot, and the nonce fits 32 bits.
pub snapshot_chrono_key-snap_name :
    (stage timestamp : Text) (nonce : ℕ)
    → contains_byte b'.' timestamp ≡ false
    → nonce < 2 ^ 32
    → snapshot_chrono_key (snap_name stage timestamp nonce) ≡ (timestamp, nonce)
unfolding snapshot_chrono_key snap_name
snapshot_chrono_key-snap_name stage timestamp nonce dotless fits =
    let number =
      split_last-append (stage ++ b'.' ∷ timestamp) (decimal nonce)
        (digits-dotless (decimal nonce) (decimal-digits nonce)) in
    let joined = append_assoc stage (b'.' ∷ timestamp) (b'.' ∷ decimal nonce) in
    rw (sym joined) (
      rw (number, snapshot_chrono_key)
        (rw (split_last-append stage timestamp dotless, timestamp_of)
          (rw (parse_uint-decimal (2 ^ 32) nonce fits, nonce_of) refl)))
