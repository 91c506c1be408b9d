-- ===== src/Auth/Access.antt =====
-- Who is let through.
use zerochain.Prelude.{
  ◌≡◌, ◌↔◌, ◌⊎◌, inl, inr, refl, sym, ap, ◌∙◌, true, Option, none, some, Text, bytes, text_eq,
  text_eq_iff, take, drop, ◌++◌, ok, arith, Bool-cases, Option-cases, take-append-drop, ◌∷◌, [],
}
use zerochain.Auth.{ServerState, require_api_key, check_token, constant_time_eq, starts_with}
use zerochain.Auth.Constant.{IsBytes, constant_time_eq_iff}

-- The header carries the key.
abbrev pub bearer : Text → Text
bearer key = bytes "Bearer " ++ key

-- The header, if there is one, is of bytes.
abbrev pub IsHeader : Option Text → Type 0
IsHeader none = Unit
IsHeader (some value) = IsBytes value

IsBytes-bearer : (value : Text) → IsBytes value → IsBytes (drop 7 value)
IsBytes-bearer [] h = tt
IsBytes-bearer (a ∷ []) h = tt
IsBytes-bearer (a ∷ b ∷ []) h = tt
IsBytes-bearer (a ∷ b ∷ c ∷ []) h = tt
IsBytes-bearer (a ∷ b ∷ c ∷ d ∷ []) h = tt
IsBytes-bearer (a ∷ b ∷ c ∷ d ∷ e ∷ []) h = tt
IsBytes-bearer (a ∷ b ∷ c ∷ d ∷ e ∷ f ∷ []) h = tt
IsBytes-bearer (a ∷ b ∷ c ∷ d ∷ e ∷ f ∷ g ∷ s) h = h.1.1.1.1.1.1.1

token_found :
    (key value : Text)
    → IsBytes key
    → IsBytes value
    → check_token key (some value) ≡ ok tt
    → value ≡ bearer key
unfolding check_token
token_found key value k v h = elim (Bool-cases (starts_with (bytes "Bearer ") value)) [
  | inr other ↦ absurd (ground (arith, other))
  | inl starts ↦ elim (Bool-cases (constant_time_eq (drop 7 value) key)) [
    | inr wrong ↦ absurd (ground (arith, starts, wrong))
    | inl right ↦
        let front : take 7 value ≡ bytes "Bearer " =
          (text_eq_iff (take 7 value) (bytes "Bearer ")).0 starts in
        let back : drop 7 value ≡ key =
          (constant_time_eq_iff (drop 7 value) key (IsBytes-bearer value v) k).0 right in
        sym (take-append-drop 7 value) ∙ ap (λ t. t ++ drop 7 value) front ∙ ap bearer back
  ]
]

token_given : (key : Text) → IsBytes key → check_token key (some (bearer key)) ≡ ok tt
unfolding check_token
token_given key k = rw ((constant_time_eq_iff key key k k).1 refl) refl

header_found :
    (key : Text) (header : Option Text)
    → IsBytes key
    → IsHeader header
    → check_token key header ≡ ok tt
    → header ≡ some (bearer key)
unfolding check_token
header_found key none k b h = absurd cc
header_found key (some value) k b h = ap some (token_found key value k b h)

-- Where the keys and the header are of bytes, a request is let through exactly if it asks for the
-- health of the server, or authorization is disabled, or there is a key and the header is `Bearer `
-- followed by the key.
pub require_api_key_iff :
    (state : ServerState) (path : Text) (header : Option Text)
    → IsHeader header
    → ((key : Text) → state.api_key ≡ some key → IsBytes key)
    → (require_api_key state path header ≡ ok tt) ↔ (
        (path ≡ bytes "/v1/health")
        ⊎ (state.auth_disabled ≡ true)
        ⊎ ((key : Text) × (state.api_key ≡ some key) × (header ≡ some (bearer key))))
unfolding require_api_key
require_api_key_iff state path header hb kb = (
  λ h. elim (Bool-cases (text_eq path (bytes "/v1/health"))) [
    | inl e ↦ inl ((text_eq_iff path _).0 e)
    | inr e ↦ elim (Bool-cases state.auth_disabled) [
      | inl f ↦ inr (inl f)
      | inr f ↦ elim (Option-cases state.api_key) [
        | inl g ↦ absurd (ground (arith, e, f, g))
        | inr (key, g) ↦
            inr (inr (key, g, header_found key header (kb key g) hb (ground (arith, e, f, g))))
      ]
    ]
  ],
  λ c. elim (Bool-cases (text_eq path (bytes "/v1/health"))) [
    | inl e ↦ rw e refl
    | inr e ↦ elim (Bool-cases state.auth_disabled) [
      | inl f ↦ rw (e, f) refl
      | inr f ↦ elim c [
        | inl p ↦ absurd (ground (arith, (text_eq_iff path (bytes "/v1/health")).1 p))
        | inr (inl d) ↦ absurd (ground arith)
        | inr (inr (key, g, q)) ↦ rw (e, f, g, q) (token_given key (kb key g))
      ]
    ]
  ],
)
