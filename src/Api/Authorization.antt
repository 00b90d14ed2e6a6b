-- ===== src/Api/Authorization.antt =====
-- rust/crates/spatiad-api/src/lib.rs: the token checks, and the key under which a client is counted.
use spatiad.Base.{
  ℕ, Bool, true, false, ◌||◌, ◌&&◌, ◌≡◌, ◌↔◌, ◌⊎◌, inl, inr, refl, arith, Bool-cases, Option, none,
  some, [], ◌∷◌, ◌++◌, leb, nat_beq, ◌==◌, is_empty, reverse, if◌then◌else◌,
}
use spatiad.Api.State.{ApiState}
use spatiad.Base.Text.{Text, codes, text_eq, text_beq_iff}

-- `headers.get(name).and_then(|value| value.to_str().ok())`, of the crate http.
abbrev pub HeaderMap : Type 0
HeaderMap = Text → Option Text

-- `char::is_whitespace`.
abbrev pub is_whitespace : ℕ → Bool
is_whitespace c =
    (leb 9 c && leb c 13)
    || (nat_beq c 32
        || (nat_beq c 0x85
            || (nat_beq c 0xa0
                || (nat_beq c 0x1680
                    || ((leb 0x2000 c && leb c 0x200a)
                        || (nat_beq c 0x2028
                            || (nat_beq c 0x2029
                                || (nat_beq c 0x202f
                                    || (nat_beq c 0x205f || nat_beq c 0x3000)))))))))

unfoldable pub trim_start : Text → Text
trim_start [] = []
trim_start (c ∷ s) = let rest = trim_start s in if is_whitespace c then rest else c ∷ s

-- `str::trim`.
unfoldable pub trim : Text → Text
trim s = reverse (trim_start (reverse (trim_start s)))

-- `str::strip_prefix`.
unfoldable pub strip_prefix : Text → Text → Option Text
strip_prefix [] s = some s
strip_prefix (p ∷ ps) [] = none
strip_prefix (p ∷ ps) (c ∷ s) = let rest = strip_prefix ps s in if nat_beq p c then rest else none

-- `.map(|token| token == expected).unwrap_or(false)`.
abbrev pub matches : Text → Option Text → Bool
matches expected none = false
matches expected (some token) = token == expected

abbrev pub driver_header : Text
driver_header = codes "x-spatiad-driver-token"

abbrev pub dispatcher_header : Text
dispatcher_header = codes "x-spatiad-dispatcher-token"

abbrev pub authorization : Text
authorization = codes "authorization"

abbrev pub bearer : Text
bearer = codes "Bearer "

unfoldable pub is_driver_authorized : {F S : Type 0} → ApiState F S → HeaderMap → Bool
is_driver_authorized state headers = elim state.driver_token [
  | none ↦ true
  | some expected ↦ matches expected (headers driver_header)
]

-- `.and_then(|value| value.strip_prefix("Bearer "))`.
abbrev pub bearer_token : Option Text → Option Text
bearer_token none = none
bearer_token (some value) = strip_prefix bearer value

unfoldable pub is_dispatcher_authorized : {F S : Type 0} → ApiState F S → HeaderMap → Bool
is_dispatcher_authorized state headers = elim state.dispatcher_token [
  | none ↦ true
  | some expected ↦
      if matches expected (bearer_token (headers authorization))
      then true
      else matches expected (headers dispatcher_header)
]

abbrev pub client_header : Text
client_header = codes "x-spatiad-client-id"

abbrev is_some : Option Text → Bool
is_some none = false
is_some (some _) = true

-- The key of a client that names no id.
unfoldable pub unnamed_key : HeaderMap → Text
unnamed_key headers =
    if is_some (headers authorization)
    then codes "auth_header"
    else if is_some (headers dispatcher_header)
    then codes "dispatcher_header"
    else codes "anonymous"

unfoldable pub dispatch_actor_key : HeaderMap → Text
dispatch_actor_key headers = elim (headers client_header) [
  | none ↦ unnamed_key headers
  | some value ↦
      if is_empty (trim value) then unnamed_key headers else codes "client:" ++ trim value
]

strip_prefix_iff : (p s t : Text) → (strip_prefix p s ≡ some t) ↔ (s ≡ p ++ t)
unfolding strip_prefix
strip_prefix_iff [] s t = ground arith
strip_prefix_iff (x ∷ p) [] t = ground arith
strip_prefix_iff (x ∷ p) (c ∷ s) t = ground (arith, strip_prefix_iff p s t)

matches_iff :
    (expected : Text) (token : Option Text)
    → (matches expected token ≡ true) ↔ (token ≡ some expected)
matches_iff expected none = ground arith
matches_iff expected (some token) = ground (arith, text_beq_iff token expected)

bearer_token_iff :
    (value : Option Text) (t : Text) → (bearer_token value ≡ some t) ↔ (value ≡ some (bearer ++ t))
bearer_token_iff none t = ground arith
bearer_token_iff (some value) t = ground (arith, strip_prefix_iff bearer value t)

-- Where a dispatcher token is set, a request is authorized exactly if it carries the token as the
-- whole value of the token header or after `Bearer ` in the authorization header.
pub is_dispatcher_authorized_iff :
    {F S : Type 0} (state : ApiState F S) (headers : HeaderMap) (expected : Text)
    → state.dispatcher_token ≡ some expected
    → (is_dispatcher_authorized state headers ≡ true) ↔ (
        (headers authorization ≡ some (bearer ++ expected))
        ⊎ (headers dispatcher_header ≡ some expected))
is_dispatcher_authorized_iff state headers expected p =
    let by_bearer = matches_iff expected (bearer_token (headers authorization)) in
    let by_header = matches_iff expected (headers dispatcher_header) in
    let stripped = bearer_token_iff (headers authorization) expected in
    unfold is_dispatcher_authorized in
    rw p (
      λ q. elim (Bool-cases (matches expected (bearer_token (headers authorization)))) [
        | inl t ↦ inl (stripped.0 (by_bearer.0 t))
        | inr t ↦ inr (by_header.0 (ground (arith, q, t)))
      ],
      λ r. elim (Bool-cases (matches expected (bearer_token (headers authorization)))) [
        | inl t ↦ rw t refl
        | inr t ↦ elim r [
          | inl v ↦ ground (arith, t, by_bearer.1 (stripped.1 v))
          | inr v ↦ rw t (by_header.1 v)
        ]
      ],
    )
