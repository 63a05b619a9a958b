-- ===== src/RateLimit/Counts.antt =====
-- How many calls a window lets through.
use bus_ai_booking.Prelude.{
  ℕ, String, ◌+◌, ◌-◌, ◌*◌, ◌≤◌, ◌<◌, ◌≡◌, refl, Bool, true, ◌&&◌, Option, none, some, List, [],
  ◌∷◌, arith, lesser, leb, ◌==◌, string_eq, ℕ_eq, eq_iff, if◌then◌else◌,
}
use bus_ai_booking.RateLimit.{
  Counter, Counters, live, counted, put_counter, rate_limit_result, consume_window,
}

-- A call under a key, at an instant.
pub record RateCall : Type 0 where
  pub now : ℕ
  pub key : String

-- The number of calls under a key that are allowed.
unfoldable pub allowed_calls : ℕ → ℕ → String → List RateCall → Counters → ℕ
allowed_calls limit window key [] s = 0
allowed_calls limit window key (call ∷ rest) s =
    let (result, after) = consume_window limit window call.now call.key s in
    (if call.key == key && result.allowed then 1 else 0) + allowed_calls limit window key rest after

-- Clocks that do not go back, from one instant to before another.
abbrev pub IsWithin : ℕ → ℕ → List RateCall → Type 0
IsWithin now end [] = Unit
IsWithin now end (call ∷ rest) = (now ≤ call.now) × (call.now < end) × IsWithin call.now end rest

abbrev lasts : ℕ → Option ℕ → Bool
lasts end none = true
lasts end (some deadline) = leb end deadline

-- What may still be allowed before the end, by the counter that is live.
abbrev budget : ℕ → ℕ → Option Counter → ℕ
budget limit end none = limit
budget limit end (some c) = (limit - c.value) + (if lasts end c.deadline then 0 else limit)

-- Time takes nothing from the counter but the counter itself.
budget_later :
    (limit end now later : ℕ) (o : Option Counter)
    → now ≤ later
    → later < end
    → budget limit end (live later o) ≤ budget limit end (live now o)
budget_later limit end now later none h k = omega arith
budget_later limit end now later (some c) h k = ground (arith, h, k)

allowed-budget :
    (limit window now end : ℕ) (key : String) (calls : List RateCall) (s : Counters)
    → end ≤ now + window
    → IsWithin now end calls
    → allowed_calls limit window key calls s ≤ budget limit end (live now (s key))
unfolding allowed_calls consume_window rate_limit_result counted put_counter
allowed-budget limit window now end key [] s h w = ground arith
allowed-budget limit window now end key (call ∷ rest) s h (from, before, w) = ground (
  arith,
  eq_iff call.key key,
  budget_later limit end now call.now (s key) from before,
  allowed-budget limit window call.now end key rest
      (put_counter call.key (counted call.now window call.key s) s) (omega arith) w,
)

budget_most : (limit end : ℕ) (o : Option Counter) → budget limit end o ≤ 2 * limit
budget_most limit end none = omega arith
budget_most limit end (some c) = ground arith

-- Within any time of one window, from any state, at most twice the limit of the calls under a key are
-- allowed, whatever other keys are used: the rest of one window, and the start of the next.
pub allowed_in_window :
    (limit window start : ℕ) (key : String) (calls : List RateCall) (s : Counters)
    → IsWithin start (start + window) calls
    → allowed_calls limit window key calls s ≤ 2 * limit
allowed_in_window limit window start key calls s w = ground (
  arith,
  allowed-budget limit window start (start + window) key calls s (omega arith) w,
  budget_most limit (start + window) (live start (s key)),
)

unfoldable pub calls_under : String → List RateCall → ℕ
calls_under key [] = 0
calls_under key (call ∷ rest) = (if call.key == key then 1 else 0) + calls_under key rest

abbrev left : ℕ → Option Counter → ℕ
left limit none = limit
left limit (some c) = limit - c.value

-- The counter that is live, if one is, lasts to the end.
abbrev covers : ℕ → Option Counter → Bool
covers end none = true
covers end (some c) = lasts end c.deadline

covers_later :
    (limit end now later : ℕ) (o : Option Counter)
    → now ≤ later
    → later < end
    → covers end (live now o) ≡ true
    → (covers end (live later o) ≡ true) × (left limit (live later o) ≡ left limit (live now o))
covers_later limit end now later none h k c = (refl, refl)
covers_later limit end now later (some counter) h k c = ground (arith, h, k, c)

allowed-left :
    (limit window now end : ℕ) (key : String) (calls : List RateCall) (s : Counters)
    → end ≤ now + window
    → IsWithin now end calls
    → covers end (live now (s key)) ≡ true
    → allowed_calls limit window key calls s
      ≡ lesser (left limit (live now (s key))) (calls_under key calls)
unfolding allowed_calls consume_window rate_limit_result counted put_counter calls_under
allowed-left limit window now end key [] s h w c = ground arith
allowed-left limit window now end key (call ∷ rest) s h (from, before, w) c = ground (
  arith,
  eq_iff call.key key,
  covers_later limit end now call.now (s key) from before c,
  allowed-left limit window call.now end key rest
      (put_counter call.key (counted call.now window call.key s) s) (omega arith) w,
)

-- Within the time of one window, from a state in which the key has no counter that is live, the calls
-- under the key that are allowed are as many as there are, up to the limit, whatever other keys are
-- used.
pub allowed_from_start :
    (limit window start : ℕ) (key : String) (calls : List RateCall) (s : Counters)
    → IsWithin start (start + window) calls
    → live start (s key) ≡ none
    → allowed_calls limit window key calls s ≡ lesser limit (calls_under key calls)
allowed_from_start limit window start key calls s w new =
    ground
      (arith, new, allowed-left limit window start (start + window) key calls s (omega arith) w)
