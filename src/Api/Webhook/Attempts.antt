-- ===== src/Api/Webhook/Attempts.antt =====
-- rust/crates/spatiad-api/src/lib.rs: the attempts of a webhook delivery, as one table.
use spatiad.Base.{
  ℕ, Bool, true, false, ◌≡◌, refl, inl, inr, List, [], ◌∷◌, Result, ok, err, Option, some,
  Bool-cases, if◌then◌else◌,
}
use Prim.Native.Nat.{max, ◌/◌}
use spatiad.Base.Text.{Text, show}
use spatiad.Platform.{new_v4}
use spatiad.Types.{MatchResult}
use spatiad.Api.State.{ApiState, now}
use spatiad.Api.Webhook.{
  WebhookPort, Request, Action, is_success, attempt_loop, attempt_numbers, signed_request,
  payload_of, send_body, send_text, send_match_webhook,
}

module _ ⦃p : WebhookPort⦄ where
  -- What a delivery does, by whether the first, the second and the third attempt succeed.
  pub schedule : Request → Bool → Bool → Bool → List Action × Result (Unit {0}) (Unit {0})
  schedule request true _ _ = (Action.posted request ∷ [], ok tt)
  schedule request false true _ =
      (Action.posted request ∷ Action.slept 200 ∷ Action.posted request ∷ [], ok tt)
  schedule request false false third = (
    Action.posted request
        ∷ Action.slept 200
        ∷ Action.posted request
        ∷ Action.slept 400
        ∷ Action.posted request
        ∷ [],
    if third then ok tt else err tt,
  )

  attempt_loop-schedule :
      (timeout_ms : ℕ) (request : Request)
      → attempt_loop timeout_ms (some request) 200 attempt_numbers
        ≡ schedule request
            (is_success (p.post timeout_ms request 1))
            (is_success (p.post timeout_ms request 2))
            (is_success (p.post timeout_ms request 3))
  unfolding attempt_loop schedule
  attempt_loop-schedule timeout_ms request =
      elim (Bool-cases (is_success (p.post timeout_ms request 1))) [
        | inl a ↦ rw a refl
        | inr a ↦ elim (Bool-cases (is_success (p.post timeout_ms request 2))) [
          | inl b ↦ rw (a, b) refl
          | inr b ↦ elim (Bool-cases (is_success (p.post timeout_ms request 3))) [
            | inl c ↦ rw (a, b, c) refl
            | inr c ↦ rw (a, b, c) refl
          ]
        ]
      ]

module _ {F S : Type 0} ⦃p : WebhookPort⦄ where
  -- Where the payload has a text, the client builds and the request is signed, a delivery posts the
  -- one request at most three times, sleeps 200 ms after the first failure and 400 ms after the
  -- second, stops at the first answer with a status from 200 to 299, and fails exactly if no
  -- attempt gets one; the timeout is at least 100 ms.
  pub send_match_webhook-schedule :
      (s : ApiState F S) (url : Text) (secret : Option Text) (timeout_ms : ℕ) (result : MatchResult)
      (body : Text) (request : Request)
      → p.to_json (payload_of result) ≡ some body
      → p.builds (max timeout_ms 100) ≡ true
      → signed_request url secret
          (show (now s / 1_000_000_000))
          (p.uuid_text (new_v4 s.dispatch.world))
          body
        ≡ some request
      → (send_match_webhook s url secret timeout_ms result).1
        ≡ schedule request
            (is_success (p.post (max timeout_ms 100) request 1))
            (is_success (p.post (max timeout_ms 100) request 2))
            (is_success (p.post (max timeout_ms 100) request 3))
  unfolding send_match_webhook send_text send_body
  send_match_webhook-schedule s url secret timeout_ms result body request json built signed =
      rw (json, built, signed) (attempt_loop-schedule (max timeout_ms 100) request)
