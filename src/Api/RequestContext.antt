-- ===== src/Api/RequestContext.antt =====
-- rust/crates/spatiad-api/src/lib.rs: the middleware around every handler, which gives a request its id.
-- What it logs is left out.
use spatiad.Base.{
  ℕ, ◌≡◌, ◌⊎◌, ◌∙◌, sym, ap, Bool-cases, refl, Bool, true, false, not, Option, none, some,
  Option-cases, inl, inr, List, [], ◌∷◌, filter, ◌==◌, arith, if◌then◌else◌,
}
use spatiad.Base.Text.{Text, codes, text_eq, text_beq, text_beq_iff}
use spatiad.Platform.{new_v4, after_v4}
use spatiad.Storage.Tables.{UuidText}
use spatiad.Api.State.{ApiState}
use spatiad.Api.Http.{Response}
use spatiad.Api.Authorization.{HeaderMap}

-- The crate http: whether `HeaderValue::from_str` accepts a text, and what `to_str` then reads.
pub record HeaderValues : Type 0 where
  pub accepts : Text → Bool
  pub to_str : Text → Option Text

abbrev pub request_id_header : Text
request_id_header = codes "x-request-id"

-- `headers.insert(name, value)` on what is read of a request.
abbrev pub insert_read : Text → Option Text → HeaderMap → HeaderMap
insert_read name value headers = λ other. if other == name then value else headers other

-- The same on the headers of a response: one value stands for all that were there.
unfoldable pub insert_header : Text → Text → List (Text × Text) → List (Text × Text)
insert_header name value headers = (name, value) ∷ filter (λ h. not (h.0 == name)) headers

-- The first value under a name.
unfoldable pub header_of : Text → List (Text × Text) → Option Text
header_of name [] = none
header_of name (h ∷ rest) =
    let later = header_of name rest in if h.0 == name then some h.1 else later

module _ {F S : Type 0} ⦃u : UuidText⦄ where
  -- `.unwrap_or_else(|| Uuid::new_v4().to_string())`.
  id_or_new : ApiState F S → Option Text → ApiState F S × Text
  id_or_new s (some value) = (s, value)
  id_or_new s none = (
    record s { dispatch = record s.dispatch { world = after_v4 s.dispatch.world } },
    u.uuid_text (new_v4 s.dispatch.world),
  )

  unfoldable pub request_id : ApiState F S → HeaderMap → ApiState F S × Text
  unfolding id_or_new
  request_id s headers = id_or_new s (headers request_id_header)

module _ ⦃v : HeaderValues⦄ where
  unfoldable pub with_request_id : Text → HeaderMap → HeaderMap
  with_request_id id headers =
      if v.accepts id then insert_read request_id_header (v.to_str id) headers else headers

  unfoldable pub with_response_id : Text → Response → Response
  with_response_id id r =
      if v.accepts id
      then record r { headers = insert_header request_id_header id r.headers }
      else r

  -- `next` is the handler that the router finds.
  unfoldable pub request_context_middleware :
      {F S : Type 0} ⦃u : UuidText⦄
      → (ApiState F S → HeaderMap → ApiState F S × Response)
      → ApiState F S
      → HeaderMap
      → ApiState F S × Response
  request_context_middleware next s headers =
      let (s', id) = request_id s headers in
      let (after, response) = next s' (with_request_id id headers) in
      (after, with_response_id id response)

-- The crate http reads back what it read before, and takes the text of a Uuid.
pub record IsPlain (u : UuidText) (v : HeaderValues) (headers : HeaderMap) : Type 0 where
  pub read_accepted :
      (value : Text) → headers request_id_header ≡ some value → v.accepts value ≡ true
  pub read_again :
      (value : Text) → headers request_id_header ≡ some value → v.to_str value ≡ some value
  pub uuid_accepted : (n : ℕ) → v.accepts (u.uuid_text n) ≡ true
  pub uuid_read : (n : ℕ) → v.to_str (u.uuid_text n) ≡ some (u.uuid_text n)

differ : (name other : Text) → (other == name) ≡ false → (name == other) ≡ false
differ name other p = elim (Bool-cases (name == other)) [
  | inl q ↦ ground (arith, p, (text_beq_iff other name).1 (sym ((text_beq_iff name other).0 q)))
  | inr q ↦ q
]

header_of-filter :
    (name other : Text) (headers : List (Text × Text))
    → (other == name) ≡ false
    → header_of other (filter (λ h. not (h.0 == name)) headers) ≡ header_of other headers
unfolding header_of
header_of-filter name other [] p = refl
header_of-filter name other (h ∷ rest) p =
    let later = header_of-filter name other rest p in
    elim (Bool-cases (h.0 == name)) [
      | inl q ↦
          let r : (h.0 == other) ≡ false =
            ap (λ t. t == other) ((text_beq_iff h.0 name).0 q) ∙ differ name other p in
          rw (q, r) later
      | inr q ↦ rw q (rw (later, header_of) refl)
    ]

header_of-insert :
    (name other value : Text) (headers : List (Text × Text))
    → (other == name) ≡ false
    → header_of other (insert_header name value headers) ≡ header_of other headers
unfolding insert_header header_of
header_of-insert name other value headers p =
    rw (differ name other p) (header_of-filter name other headers p)

module _ {F S : Type 0} ⦃u : UuidText⦄ ⦃v : HeaderValues⦄ where
  from_request :
      (s : ApiState F S) (headers : HeaderMap)
      → let id = (request_id s headers).1 in
        (headers request_id_header ≡ some id)
        ⊎ ((headers request_id_header ≡ none) × (id ≡ u.uuid_text (new_v4 s.dispatch.world)))
  unfolding request_id
  from_request s headers = elim (Option-cases (headers request_id_header)) [
    | inl p ↦ rw p (inr (refl, refl))
    | inr (value, p) ↦ rw p (inl refl)
  ]

  id_plain :
      (s : ApiState F S) (headers : HeaderMap)
      → IsPlain u v headers
      → let id = (request_id s headers).1 in (v.accepts id ≡ true) × (v.to_str id ≡ some id)
  unfolding request_id
  id_plain s headers plain = elim (Option-cases (headers request_id_header)) [
    | inl p ↦ rw p (plain.uuid_accepted _, plain.uuid_read _)
    | inr (value, p) ↦ rw p (plain.read_accepted value p, plain.read_again value p)
  ]

  -- Where the crate http reads back what it read and takes the text of a Uuid, a request is run with the
  -- id that it carries, or a new one if it carries none that can be read, in its header `x-request-id`
  -- and its other headers as they were; the response carries the same id, and is otherwise that of the
  -- handler.
  pub request_context_middleware-IsCorrelated :
      (next : ApiState F S → HeaderMap → ApiState F S × Response) (s : ApiState F S)
      (headers : HeaderMap) (other : Text)
      → IsPlain u v headers
      → (other == request_id_header) ≡ false
      → let (s', id) = request_id s headers in
        let seen = with_request_id id headers in
        let (after, response) = request_context_middleware next s headers in
        ((headers request_id_header ≡ some id)
          ⊎ ((headers request_id_header ≡ none) × (id ≡ u.uuid_text (new_v4 s.dispatch.world))))
        × (seen request_id_header ≡ some id)
        × (seen other ≡ headers other)
        × (header_of request_id_header response.headers ≡ some id)
        × (header_of other response.headers ≡ header_of other (next s' seen).1.headers)
        × (response.status ≡ (next s' seen).1.status)
        × (response.body ≡ (next s' seen).1.body)
        × (after ≡ (next s' seen).0)
  unfolding request_context_middleware with_request_id with_response_id text_beq insert_header
      header_of
  request_context_middleware-IsCorrelated next s headers other plain p =
      let good = id_plain s headers plain in
      let id = (request_id s headers).1 in
      rw (good.0) (
        from_request s headers,
        good.1,
        rw p refl,
        refl,
        header_of-insert request_id_header other id _ p,
        refl,
        refl,
        refl,
      )
