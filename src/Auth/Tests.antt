-- ===== src/Auth/Tests.antt =====
-- A request with the key, and one with another.
use zerochain.Prelude.{
  ◌≡◌, ◌↔◌, ◌⊎◌, refl, true, false, some, bytes, Text, ok, err, arith, some-inj, subst,
}
use zerochain.Auth.{ServerState, require_api_key, check_token, constant_time_eq, unauthorized}
use zerochain.Auth.Constant.{IsBytes}
use zerochain.Auth.Access.{bearer, require_api_key_iff}

abbrev locked : ServerState
locked = record { api_key = some (bytes "ab"); auth_disabled = false }

key-IsBytes : IsBytes (bytes "ab")
key-IsBytes = (omega arith, (omega arith, tt))

bearer-IsBytes : IsBytes (bearer (bytes "ab"))
bearer-IsBytes = (
  omega arith,
  (
    omega arith,
    (
      omega arith,
      (omega arith, (omega arith, (omega arith, (omega arith, (omega arith, (omega arith, tt)))))),
    ),
  ),
)

locked-IsBytes : (key : Text) → locked.api_key ≡ some key → IsBytes key
locked-IsBytes key e = subst IsBytes (some-inj e) key-IsBytes

refused : require_api_key locked (bytes "/v1/run") (some (bytes "Bearer ac")) ≡ err unauthorized
unfolding require_api_key check_token constant_time_eq
refused = refl

require_api_key_iff_example :
    (require_api_key locked (bytes "/v1/run") (some (bearer (bytes "ab"))) ≡ ok tt) ↔ (
      (bytes "/v1/run" ≡ bytes "/v1/health")
      ⊎ (locked.auth_disabled ≡ true)
      ⊎ ((key : Text) × (locked.api_key ≡ some key)
          × (some (bearer (bytes "ab")) ≡ some (bearer key))))
require_api_key_iff_example =
    require_api_key_iff locked (bytes "/v1/run") (some (bearer (bytes "ab"))) bearer-IsBytes
      locked-IsBytes
