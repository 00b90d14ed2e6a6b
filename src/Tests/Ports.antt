-- ===== src/Tests/Ports.antt =====
-- Concrete parameters of the server, and a state of it.
use spatiad.Base.{ℕ, nat_eq, true, none, some, [], ◌∷◌, ◌==◌, if◌then◌else◌}
use spatiad.Base.Text.{codes, text_eq}
use spatiad.Platform.{Rfc3339}
use spatiad.Core.State.{Engine}
use spatiad.Ws.{DriverInbound, MessageCodec}
use spatiad.Api.State.{ApiState, Tasks}
use spatiad.Api.Authorization.{HeaderMap, authorization}
use spatiad.Api.Http.{OfferRequest}
use spatiad.Api.RateLimiter
use spatiad.Api.RateLimiter.{new_guard}
use spatiad.Api.Sessions.{WebSocket}
use spatiad.Api.Webhook.{WebhookPort}
use spatiad.Tests.Fixture.{place, tow_truck}

-- The other tasks do nothing.
instance abbrev pub quiet : {F S : Type 0} → Tasks F S
quiet = record { others = λ _ s. s }

-- A text of one code for each instant.
instance abbrev pub one_code : Rfc3339
one_code = record {
  to_rfc3339 = λ t. t ∷ [];
  parse_from_rfc3339 = λ s. elim s [ [] ↦ none | t ∷ _ ↦ some t ];
}

-- Every text that a driver sends accepts the offer 500.
instance abbrev pub accepting : MessageCodec ℕ
accepting = record {
  inbound_from_json = λ _. some (DriverInbound.offer_response 500 true);
  outbound_to_json = λ _. some (codes "message");
}

-- The second attempt is answered by 204.
instance abbrev pub second_attempt : WebhookPort
second_attempt = record {
  to_json = λ _. some (codes "payload");
  uuid_text = λ _. codes "nonce";
  hmac_hex = λ _ _. some (codes "00ff");
  builds = λ _. true;
  post = λ _ _ attempt. if attempt == 2 then some 204 else none;
}

-- A server over an engine, with a dispatcher token and a webhook.
abbrev pub server : {S : Type 0} → Engine ℕ S → ApiState ℕ S
server e = record {
  dispatch = e;
  webhook_url = some (codes "http://host/hook");
  webhook_secret = some (codes "key");
  webhook_timeout_ms = 3000;
  driver_token = none;
  dispatcher_token = some (codes "secret");
  driver_ttl_secs = none;
  dispatch_rate_limiter = RateLimiter.new 240 60;
  ws_reconnect_guard = new_guard 30 60;
  sessions = [];
  channels = [];
  next_channel = 0;
  locks = 0;
}

abbrev pub request : HeaderMap
request name = if name == authorization then some (codes "Bearer secret") else none

abbrev pub anonymous : HeaderMap
anonymous name = none

abbrev pub offer_request : OfferRequest ℕ
offer_request = record {
  job_id = 7;
  category = tow_truck;
  pickup = place;
  dropoff = none;
  initial_radius_km = 1000;
  max_radius_km = 5000;
  timeout_seconds = 30;
}

abbrev pub socket : WebSocket
socket = record { sent = []; succeeds = λ _. true }
