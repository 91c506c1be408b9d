-- ===== src/Engine/Snapshots.antt =====
-- crates/zerochain-engine/src/state.rs: the names of the snapshots of stages, in the order of time,
-- which of them are removed, and which is restored. Names that are not UTF-8 are passed over by the
-- source, and are not among the names here.
pub mod Names
pub mod Kept
use zerochain.Prelude.{
  ℕ, suc, ◌+◌, ◌-◌, ◌^◌, Bool, true, false, Option, none, some, List, [], ◌∷◌, ◌++◌, nat_eq, leb,
  if◌then◌else◌, Text, bytes, text_cmp, Ordering, compare, sort_by, length, take, drop, select,
}
use zerochain.Text.{parse_uint}
use zerochain.Text.Search.{starts_with}
use zerochain.Text.Decimal.{decimal}

-- Before and behind the last dot: a step of `rsplitn(3, '.')`.
abbrev pub split_last : Text → Option (Text × Text)
split_last [] = none
split_last (c ∷ s) =
    let rest = split_last s in
    elim rest [
      | some (before, behind) ↦ some (c ∷ before, behind)
      | none ↦ if nat_eq c b'.' then some ([], s) else none
    ]

abbrev pub nonce_of : Text → ℕ
nonce_of s = elim (parse_uint (2 ^ 32) s) [ none ↦ 0 | some n ↦ n ]

abbrev pub timestamp_of : Text → Text
timestamp_of front = elim (split_last front) [ none ↦ front | some (stage, timestamp) ↦ timestamp ]

unfoldable pub snapshot_chrono_key : Text → Text × ℕ
snapshot_chrono_key name = elim (split_last name) [
  | none ↦ ([], nonce_of name)
  | some (front, nonce) ↦ (timestamp_of front, nonce_of nonce)
]

-- `Ord for (String, u32)`
abbrev pub compare_keys : Text × ℕ → Text × ℕ → Ordering
compare_keys (s, a) (t, b) = elim (text_cmp s t) [
  | Ordering.lt ↦ Ordering.lt
  | Ordering.eq ↦ compare a b
  | Ordering.gt ↦ Ordering.gt
]

unfoldable pub compare_names : Text → Text → Ordering
compare_names a b = compare_keys (snapshot_chrono_key a) (snapshot_chrono_key b)

-- `format!("{}.{}.{nonce}", stage_dir_name, timestamp)`
unfoldable pub snap_name : (stage timestamp : Text) → ℕ → Text
snap_name stage timestamp nonce = stage ++ b'.' ∷ (timestamp ++ b'.' ∷ decimal nonce)

abbrev pub max_snapshots_per_workflow : ℕ
max_snapshots_per_workflow = 10

-- The snapshots that are asked to be removed, of those in the directory; a removal that fails is
-- logged, and changes nothing.
unfoldable pub old_snapshots : List Text → List Text
old_snapshots names =
    if leb (length names) max_snapshots_per_workflow
    then []
    else take (length names - max_snapshots_per_workflow) (sort_by compare_names names)

abbrev pub last {ℓ} : {A : Type ℓ} → List A → Option A
last [] = none
last (x ∷ []) = some x
last (x ∷ y ∷ xs) = last (y ∷ xs)

-- The candidates are those of which the name begins like the stage's and a dot.
abbrev pub candidates : Text → List Text → List Text
candidates stage_id names = select (λ n. starts_with (stage_id ++ b'.' ∷ []) n) names

unfoldable pub find_latest_snapshot : Text → List Text → Option Text
find_latest_snapshot stage_id names = last (sort_by compare_names (candidates stage_id names))
