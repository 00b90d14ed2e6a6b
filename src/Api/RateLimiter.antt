-- ===== src/Api/RateLimiter.antt =====
-- rust/crates/spatiad-api/src/lib.rs: `SlidingWindowRateLimiter` and `WsReconnectGuard`. The
-- reading of `Utc::now()` is an argument of each call.
pub mod Window
use Prim.Native.Nat.{max}
use spatiad.Base.{
  ℕ, ◌+◌, ◌-◌, ◌/◌, Bool, true, false, Option, none, some, List, [], ◌∷◌, ◌++◌, length, leb, nat_eq,
  if◌then◌else◌,
}
use spatiad.Base.Text.{Text, text_eq}
use spatiad.Base.HashMap
use spatiad.Base.HashMap.{HashMap}
use spatiad.Platform.{seconds}

pub record SlidingWindowRateLimiter : Type 0 where
  pub limit_per_window : ℕ
  pub window_seconds : ℕ
  pub entries : HashMap Text (List ℕ)

pub record RateLimitSnapshot : Type 0 where
  pub allowed : Bool
  pub limit : ℕ
  pub remaining : ℕ
  pub retry_after_seconds : ℕ
  pub reset_seconds : ℕ

unfoldable pub new : ℕ → ℕ → SlidingWindowRateLimiter
new limit_per_window window_seconds = record {
  limit_per_window = max limit_per_window 1;
  window_seconds = max window_seconds 1;
  entries = [];
}

-- `entry(key).or_default()`.
abbrev pub queue_or_default : Option (List ℕ) → List ℕ
queue_or_default none = []
queue_or_default (some q) = q

-- The loop that pops from the front while the front is at or before the cutoff. The test
-- `ts <= now - window` is written with a sum, since `-` on ℕ stops at 0.
unfoldable pub pop_expired : ℕ → ℕ → List ℕ → List ℕ
pop_expired now window [] = []
pop_expired now window (ts ∷ queue) =
    let rest = pop_expired now window queue in
    if leb (ts + seconds window) now then rest else ts ∷ queue

-- `num_seconds` drops the fraction; a negative number of seconds is raised to 1 like 0.
unfoldable pub reset_after : ℕ → ℕ → List ℕ → ℕ
reset_after now window [] = window
reset_after now window (ts ∷ _) = max ((ts + seconds window - now) / 1_000_000_000) 1

-- The rest of `check`, on the queue of the key after the expired entries are gone.
unfoldable pub admit : SlidingWindowRateLimiter → ℕ → List ℕ → List ℕ × RateLimitSnapshot
admit l now queue =
    if leb l.limit_per_window (length queue)
    then (
      queue,
      record {
        allowed = false;
        limit = l.limit_per_window;
        remaining = 0;
        retry_after_seconds = reset_after now l.window_seconds queue;
        reset_seconds = reset_after now l.window_seconds queue;
      },
    )
    else (
      queue ++ (now ∷ []),
      record {
        allowed = true;
        limit = l.limit_per_window;
        remaining = l.limit_per_window - length (queue ++ (now ∷ []));
        retry_after_seconds = 0;
        reset_seconds = reset_after now l.window_seconds (queue ++ (now ∷ []));
      },
    )

unfoldable pub check :
    SlidingWindowRateLimiter → ℕ → Text → SlidingWindowRateLimiter × RateLimitSnapshot
unfolding admit
check l now key =
    let (queue, snapshot) =
      admit l now
        (pop_expired now l.window_seconds (queue_or_default (HashMap.get key l.entries))) in
    (record l { entries = HashMap.insert key queue l.entries }, snapshot)

pub record WsReconnectGuard : Type 0 where
  pub max_reconnects_per_window : ℕ
  pub window_seconds : ℕ
  pub attempts : HashMap ℕ (List ℕ)

unfoldable pub new_guard : ℕ → ℕ → WsReconnectGuard
new_guard max_reconnects_per_window window_seconds = record {
  max_reconnects_per_window = max max_reconnects_per_window 1;
  window_seconds = max window_seconds 1;
  attempts = [];
}

unfoldable pub allow : WsReconnectGuard → ℕ → ℕ → WsReconnectGuard × Bool
allow g now driver_id =
    let queue =
      pop_expired now g.window_seconds (queue_or_default (HashMap.get driver_id g.attempts)) in
    if leb g.max_reconnects_per_window (length queue)
    then (record g { attempts = HashMap.insert driver_id queue g.attempts }, false)
    else (record g { attempts = HashMap.insert driver_id (queue ++ (now ∷ [])) g.attempts }, true)
