-- ===== src/RateLimit/Waits.antt =====
-- What a refused caller is told to wait.
use bus_ai_booking.Prelude.{
  ℕ, String, ◌+◌, ◌-◌, ◌*◌, ◌/◌, ◌≤◌, ◌≡◌, ap, ◌∙◌, true, Option, none, some, arith, max, string_eq,
  ℕ_eq, eq_refl, is_some,
}
use bus_ai_booking.RateLimit.{
  Counter, Counters, live, counted, time_left, put_counter, RateLimitResult, rate_limit_result,
  consume_window,
}

-- A counter that counts at least one call, and has a deadline.
abbrev pub IsTimed : Option Counter → Type 0
IsTimed none = Unit
IsTimed (some c) = (1 ≤ c.value) × (is_some c.deadline ≡ true)

-- The script leaves counters with deadlines, if they had them.
pub consume_window-IsTimed :
    (limit window now : ℕ) (key other : String) (s : Counters)
    → ((k : String) → IsTimed (s k))
    → IsTimed ((consume_window limit window now key s).1 other)
unfolding consume_window counted put_counter
consume_window-IsTimed limit window now key other s timed = ground (arith, timed other, timed key)

counted_gone :
    (window now later seconds : ℕ) (key : String) (s : Counters)
    → IsTimed (s key)
    → time_left now (counted now window key s).deadline ≤ seconds * 1000
    → now + seconds * 1000 ≤ later
    → live later (some (counted now window key s)) ≡ none
unfolding counted
counted_gone window now later seconds key s timed enough h = ground (arith, timed)

seconds_enough : (ttl : ℕ) → ttl ≤ max 1 ((ttl + 999) / 1000) * 1000
seconds_enough ttl = ground arith

abbrev first_result : ℕ → ℕ → RateLimitResult
first_result limit window = record {
  allowed = true;
  limit = limit;
  remaining = limit - 1;
  retry_after_seconds = max 1 ((window + 999) / 1000);
}

fresh_window :
    (limit window now : ℕ) (key : String) (s : Counters)
    → 1 ≤ limit
    → live now (s key) ≡ none
    → (consume_window limit window now key s).0 ≡ first_result limit window
unfolding consume_window counted rate_limit_result
fresh_window limit window now key s positive new = rw new (ground (arith, positive))

put_counter_own : (key : String) (c : Counter) (s : Counters) → put_counter key c s key ≡ some c
unfolding put_counter
put_counter_own key c s = ground (arith, eq_refl key)

-- Where the counter of the key, if there is one, has a deadline and the limit is not zero, whoever
-- waits the seconds that an answer names, and calls again under the key with no call under it in
-- between, is allowed, as the first call of a new window.
pub retry_allowed :
    (limit window now later : ℕ) (key : String) (s : Counters)
    → IsTimed (s key)
    → 1 ≤ limit
    → now + (consume_window limit window now key s).0.retry_after_seconds * 1000 ≤ later
    → (consume_window limit window later key (consume_window limit window now key s).1).0 ≡ record {
      allowed = true;
      limit = limit;
      remaining = limit - 1;
      retry_after_seconds = max 1 ((window + 999) / 1000);
    }
unfolding consume_window rate_limit_result
retry_allowed limit window now later key s timed positive waited =
    let c = counted now window key s in
    let ttl = time_left now c.deadline in
    fresh_window limit window later key (put_counter key c s) positive (
      ap (λ (o : Option Counter). live later o) (put_counter_own key c s)
      ∙ counted_gone window now later (max 1 ((ttl + 999) / 1000)) key s timed (seconds_enough ttl)
          waited)
