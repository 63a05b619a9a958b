-- ===== src/RateLimit.antt =====
-- The windows of apps/mcp-server/src/rate-limit.ts and apps/web/app/lib/ai-rate-limit.ts: one script of
-- Redis, which is one step, and the results made of its answer. Instants are milliseconds.
pub mod Counts
pub mod Waits
mod Tests
use bus_ai_booking.Prelude.{
  ℕ, String, ◌+◌, ◌-◌, ◌/◌, Bool, true, false, Option, none, some, List, [], ◌∷◌, max, ltb, leb,
  ◌==◌, string_eq, ℕ_eq, get_or, if◌then◌else◌, Result, ok, err,
}
use bus_ai_booking.Prelude.Text.{joined}
use bus_ai_booking.Prelude.Digest.{Digest}

-- A counter under a key, with the instant at which it expires, if it does.
pub record Counter : Type 0 where
  pub value : ℕ
  pub deadline : Option ℕ

abbrev pub Counters : Type 0
Counters = String → Option Counter

abbrev pub is_before : ℕ → Option ℕ → Bool
is_before now none = true
is_before now (some deadline) = ltb now deadline

abbrev pub live : ℕ → Option Counter → Option Counter
live now none = none
live now (some c) = if is_before now c.deadline then some c else none

-- INCR: a key that is there keeps its deadline; a new one has none.
abbrev pub incremented : Option Counter → Counter
incremented none = record { value = 1; deadline = none }
incremented (some c) = record { value = c.value + 1; deadline = c.deadline }

-- PEXPIRE, where the count is one.
abbrev pub limited : ℕ → ℕ → Counter → Counter
limited now window c =
    if c.value == 1 then record { value = c.value; deadline = some (now + window) } else c

-- The counter after the script.
unfoldable pub counted : ℕ → ℕ → String → Counters → Counter
counted now window key s = limited now window (incremented (live now (s key)))

-- PTTL, and `Math.max(0, ...)`: a key without a deadline answers -1, and one that is gone -2.
abbrev pub time_left : ℕ → Option ℕ → ℕ
time_left now none = 0
time_left now (some deadline) = deadline - now

unfoldable pub put_counter : String → Counter → Counters → Counters
put_counter key c s = λ k. if key == k then some c else s k

pub record RateLimitResult : Type 0 where
  pub allowed : Bool
  pub limit : ℕ
  pub remaining : ℕ
  pub retry_after_seconds : ℕ

-- The result of a count and of the milliseconds left: `Math.max(0, limit - count)` is `-` on ℕ.
unfoldable pub rate_limit_result : ℕ → ℕ → ℕ → RateLimitResult
rate_limit_result limit count ttl = record {
  allowed = leb count limit;
  limit = limit;
  remaining = limit - count;
  retry_after_seconds = max 1 ((ttl + 999) / 1000);
}

-- The script and its result, for a limit and a window.
unfoldable pub consume_window : ℕ → ℕ → ℕ → String → Counters → RateLimitResult × Counters
consume_window limit window now key s =
    let c = counted now window key s in
    (rate_limit_result limit c.value (time_left now c.deadline), put_counter key c s)

-- McpRateLimitUnavailableError and AiRateLimitUnavailableError
pub data RateLimitError : Type 0 where
  unavailable : RateLimitError

-- Where Redis is not reached, the call throws.
abbrev pub reached :
    Bool → RateLimitResult × Counters → Counters → Result RateLimitError RateLimitResult × Counters
reached true (result, after) s = (ok result, after)
reached false (result, after) s = (err unavailable, s)

pub data McpRateLimitBucket : Type 0 where
  public booking_lookup : McpRateLimitBucket

abbrev pub bucket_name : McpRateLimitBucket → String
bucket_name public = "public"
bucket_name booking_lookup = "booking_lookup"

-- `bucket === 'booking_lookup' ? 5 : 30`
unfoldable pub bucket_limit : McpRateLimitBucket → ℕ
bucket_limit booking_lookup = 5
bucket_limit public = 30

-- `mcpRateLimitKey`
unfoldable pub mcp_rate_limit_key : Digest String → String → McpRateLimitBucket → String
mcp_rate_limit_key digest identifier bucket =
    joined "mcp:rate-limit:v1:" (joined (bucket_name bucket) (joined ":" (digest.hash identifier)))

-- `RedisMcpRateLimiter.consume`
unfoldable pub mcp_consume :
    Digest String
    → Bool
    → ℕ
    → String
    → McpRateLimitBucket
    → Counters
    → Result RateLimitError RateLimitResult × Counters
mcp_consume digest reachable now identifier bucket s =
    reached reachable
      (consume_window (bucket_limit bucket) 60000 now (mcp_rate_limit_key digest identifier bucket)
        s)
      s

-- `aiRateLimitKey`
unfoldable pub ai_rate_limit_key : Digest String → String → String
ai_rate_limit_key digest identifier = joined "ai:rate-limit:v1:" (digest.hash identifier)

-- `consumeAiRateLimit`, with the options of the call; its result leaves the limit out.
unfoldable pub consume_ai_rate_limit :
    Digest String
    → Bool
    → ℕ
    → String
    → Option ℕ
    → Option ℕ
    → Counters
    → Result RateLimitError RateLimitResult × Counters
consume_ai_rate_limit digest reachable now identifier limit window s =
    reached reachable
      (consume_window (get_or limit 12) (get_or window 60000) now
        (ai_rate_limit_key digest identifier) s)
      s
