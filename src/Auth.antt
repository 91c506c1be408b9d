-- ===== src/Auth.antt =====
-- crates/zerochain-server/src/auth.rs: the check of the bearer token. The request is its path and its
-- authorization header, if it has one that is a text; passing it on is an `ok`.
pub mod Constant
pub mod Access
mod Tests
use Prim.Native.Nat.{bit_or, bit_xor}
use zerochain.Prelude.{
  ℕ, Bool, false, not, Option, none, some, [], ◌∷◌, Text, bytes, text_eq, nat_eq, length, take,
  drop, Result, ok, err, if◌then◌else◌,
}

-- `for (x, y) in a.bytes().zip(b.bytes()) { result |= x ^ y; }`
abbrev pub or_differences : Text → Text → ℕ → ℕ
or_differences [] b acc = acc
or_differences (x ∷ a) [] acc = acc
or_differences (x ∷ a) (y ∷ b) acc = or_differences a b (bit_or acc (bit_xor x y))

unfoldable pub constant_time_eq : Text → Text → Bool
constant_time_eq a b =
    if not (nat_eq (length a) (length b)) then false else nat_eq (or_differences a b 0) 0

pub record ServerState : Type 0 where
  pub api_key : Option Text
  pub auth_disabled : Bool

pub data Status : Type 0 where
  unauthorized : Status

-- `value.starts_with(prefix)`
abbrev pub starts_with : Text → Text → Bool
starts_with prefix value = text_eq (take (length prefix) value) prefix

unfoldable pub check_token : Text → Option Text → Result Status (Unit {0})
check_token expected none = err unauthorized
check_token expected (some value) =
    if starts_with (bytes "Bearer ") value
    then (if constant_time_eq (drop 7 value) expected then ok tt else err unauthorized)
    else err unauthorized

unfoldable pub require_api_key : ServerState → Text → Option Text → Result Status (Unit {0})
require_api_key state path header =
    if text_eq path (bytes "/v1/health")
    then ok tt
    else if state.auth_disabled
    then ok tt
    else elim state.api_key [
      | none ↦ err unauthorized
      | some expected ↦ check_token expected header
    ]
