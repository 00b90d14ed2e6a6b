-- ===== src/Api/Webhook.antt =====
-- rust/crates/spatiad-api/src/lib.rs: the webhook that reports a match.
pub mod Attempts
use Prim.Native.Nat.{max, ◌/◌}
use spatiad.Base.{
  ℕ, ◌*◌, Bool, true, false, ◌&&◌, Option, none, some, List, [], ◌∷◌, ◌++◌, Result, ok, err, leb,
  ltb, if◌then◌else◌,
}
use spatiad.Base.Text.{Text, codes, show}
use spatiad.Platform.{new_v4, after_v4}
use spatiad.Types.{MatchResult}
use spatiad.Core.State.{Engine}
use spatiad.Api.State.{ApiState, now, after_clock}

pub record MatchWebhookPayload : Type 0 where
  pub event : Text
  pub job_id : ℕ
  pub driver_id : ℕ
  pub offer_id : ℕ
  pub matched_at : ℕ

-- A POST with its url, its headers and its body.
pub record Request : Type 0 where
  pub url : Text
  pub headers : List (Text × Text)
  pub body : Text

-- The crates that the webhook calls. `to_json` is `serde_json::to_string(..).ok()`, `uuid_text` is
-- `Uuid::to_string`, `hmac_hex` is HMAC-SHA256 of a key and a message in hexadecimal digits,
-- `builds` says whether a client with a timeout in milliseconds can be built, and `post` is the
-- status that answers a request at an attempt, or none if there is no answer.
pub record WebhookPort : Type 0 where
  pub to_json : MatchWebhookPayload → Option Text
  pub uuid_text : ℕ → Text
  pub hmac_hex : Text → Text → Option Text
  pub builds : ℕ → Bool
  pub post : ℕ → Request → ℕ → Option ℕ

-- What a delivery does to the outside: it posts a request, or sleeps for milliseconds.
pub data Action : Type 0 where
  posted : Request → Action
  slept : ℕ → Action

-- `resp.status().is_success()` of an answer.
abbrev pub is_success : Option ℕ → Bool
is_success none = false
is_success (some status) = leb 200 status && ltb status 300

abbrev pub payload_of : MatchResult → MatchWebhookPayload
payload_of result = record {
  event = codes "trip_matched";
  job_id = result.job_id;
  driver_id = result.driver_id;
  offer_id = result.offer_id;
  matched_at = result.matched_at;
}

module _ ⦃p : WebhookPort⦄ where
  unfoldable pub sign_webhook : Text → Text → Text → Text → Option Text
  sign_webhook secret timestamp nonce body =
      p.hmac_hex secret (timestamp ++ (codes "." ++ (nonce ++ (codes "." ++ body))))

  abbrev pub base_headers : Text → Text → List (Text × Text)
  base_headers timestamp nonce =
      (codes "content-type", codes "application/json")
      ∷ (codes "x-spatiad-timestamp", timestamp)
      ∷ (codes "x-spatiad-nonce", nonce)
      ∷ []

  -- The request of an attempt, with its signature if there is a secret; none if signing fails.
  unfoldable pub signed_request : Text → Option Text → Text → Text → Text → Option Request
  signed_request url none timestamp nonce body =
      some (record { url = url; headers = base_headers timestamp nonce; body = body })
  signed_request url (some secret) timestamp nonce body =
      elim (sign_webhook secret timestamp nonce body) [
        | none ↦ none
        | some signature ↦ some (record {
          url = url;
          headers = base_headers timestamp nonce ++ ((codes "x-spatiad-signature", signature) ∷ []);
          body = body;
        })
      ]

  -- The loop `for attempt in 1..=3`, on the attempts that are left and the current backoff.
  unfoldable pub attempt_loop :
      ℕ → Option Request → ℕ → List ℕ → List Action × Result (Unit {0}) (Unit {0})
  attempt_loop timeout_ms request backoff [] = ([], err tt)
  attempt_loop timeout_ms none backoff (attempt ∷ attempts) = ([], err tt)
  attempt_loop timeout_ms (some request) backoff (attempt ∷ attempts) =
      let rest = attempt_loop timeout_ms (some request) (backoff * 2) attempts in
      if is_success (p.post timeout_ms request attempt)
      then (Action.posted request ∷ [], ok tt)
      else if ltb attempt 3
      then (Action.posted request ∷ Action.slept backoff ∷ rest.0, rest.1)
      else (Action.posted request ∷ [], err tt)

  abbrev pub attempt_numbers : List ℕ
  attempt_numbers = 1 ∷ 2 ∷ 3 ∷ []

  -- The rest of `send_match_webhook`, once the body, the timestamp and the nonce are there.
  unfoldable pub send_body :
      Text → Option Text → ℕ → Text → ℕ → ℕ → List Action × Result (Unit {0}) (Unit {0})
  send_body webhook_url webhook_secret webhook_timeout_ms body instant nonce =
      let timeout_ms = max webhook_timeout_ms 100 in
      if p.builds timeout_ms
      then attempt_loop timeout_ms
          (signed_request webhook_url webhook_secret (show (instant / 1_000_000_000))
            (p.uuid_text nonce) body)
          200 attempt_numbers
      else ([], err tt)

module _ {F S : Type 0} ⦃p : WebhookPort⦄ where
  -- One new id.
  abbrev after_nonce : ApiState F S → ApiState F S
  after_nonce s =
      let e = s.dispatch in record s { dispatch = record e { world = after_v4 e.world } }

  -- `serde_json::to_string(&payload).map_err(|_| ())?` and what follows it.
  unfoldable pub send_text :
      ApiState F S
      → Text
      → Option Text
      → ℕ
      → Option Text
      → ApiState F S × (List Action × Result (Unit {0}) (Unit {0}))
  send_text s webhook_url webhook_secret webhook_timeout_ms none = (s, ([], err tt))
  send_text s webhook_url webhook_secret webhook_timeout_ms (some body) = (
    after_nonce (after_clock s),
    send_body webhook_url webhook_secret webhook_timeout_ms body (now s) (new_v4 s.dispatch.world),
  )

  unfoldable pub send_match_webhook :
      ApiState F S
      → Text
      → Option Text
      → ℕ
      → MatchResult
      → ApiState F S × (List Action × Result (Unit {0}) (Unit {0}))
  send_match_webhook s webhook_url webhook_secret webhook_timeout_ms result =
      send_text s webhook_url webhook_secret webhook_timeout_ms (p.to_json (payload_of result))
