-- ===== src/RateLimit/Tests.antt =====
-- The limit of five calls in a minute, on calls of two callers.
use bus_ai_booking.Prelude.{
  ℕ, String, ◌≡◌, refl, ◌*◌, ◌+◌, ◌-◌, ◌≤◌, true, none, some, List, [], ◌∷◌, arith, lesser,
  string_eq, max, ◌/◌,
}
use bus_ai_booking.RateLimit.{Counters, counted, put_counter, rate_limit_result, consume_window}
use bus_ai_booking.RateLimit.Counts.{
  RateCall, IsWithin, allowed_calls, calls_under, allowed_in_window, allowed_from_start,
}
use bus_ai_booking.RateLimit.Waits.{retry_allowed}

abbrev empty : Counters
empty = λ k. none

abbrev call_at : ℕ → String → RateCall
call_at now key = record { now = now; key = key }

-- Seven calls of a caller in a minute, and one of another between them.
abbrev calls : List RateCall
calls =
    call_at 1000 "a"
    ∷ call_at 1001 "a"
    ∷ call_at 1002 "b"
    ∷ call_at 1003 "a"
    ∷ call_at 2000 "a"
    ∷ call_at 3000 "a"
    ∷ call_at 4000 "a"
    ∷ call_at 60999 "a"
    ∷ []

calls-IsWithin : IsWithin 1000 (1000 + 60000) calls
calls-IsWithin = omega arith

five_are_allowed : allowed_calls 5 60000 "a" calls empty ≡ 5
unfolding allowed_calls consume_window counted put_counter rate_limit_result
five_are_allowed = refl

-- Counters that run out within the minute.
abbrev busy : Counters
busy = λ k. some (record { value = 0; deadline = some 1500 })

allowed_in_window_example : allowed_calls 5 60000 "a" calls busy ≤ 2 * 5
allowed_in_window_example = allowed_in_window 5 60000 1000 "a" calls busy calls-IsWithin

allowed_from_start_example :
    allowed_calls 5 60000 "a" calls empty ≡ lesser 5 (calls_under "a" calls)
allowed_from_start_example = allowed_from_start 5 60000 1000 "a" calls empty calls-IsWithin refl

-- The fifth call was the last; the sixth is told to wait.
abbrev spent : Counters
spent = λ k. some (record { value = 5; deadline = some 61000 })

sixth_waits : 3500 + (consume_window 5 60000 3500 "a" spent).0.retry_after_seconds * 1000 ≤ 61500
unfolding consume_window counted put_counter rate_limit_result
sixth_waits = omega arith

retry_allowed_example :
    (consume_window 5 60000 61500 "a" (consume_window 5 60000 3500 "a" spent).1).0 ≡ record {
      allowed = true;
      limit = 5;
      remaining = 5 - 1;
      retry_after_seconds = max 1 ((60000 + 999) / 1000);
    }
retry_allowed_example =
    retry_allowed 5 60000 3500 61500 "a" spent (omega arith, refl) (omega arith) sixth_waits
