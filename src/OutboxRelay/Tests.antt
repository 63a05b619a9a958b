-- ===== src/OutboxRelay/Tests.antt =====
-- A message that a broker refuses, in seven drains of a relay that allows five attempts.
use bus_ai_booking.Prelude.{ℕ, ◌≡◌, ◌≤◌, refl, none, some, List, [], ◌∷◌, arith, find, string_eq}
use bus_ai_booking.Prelude.Text.{is_key, is_key_char, is_alphanumeric, is_digit, in_range}
use bus_ai_booking.OutboxRelay.{
  OutboxMessage, has_message_id, is_candidate, candidates, ordered, claim_batch, is_locked_by,
  failed, mark_failed, hex_value, parse_hex, retry_backoff, safe_error_code, RelayOptions, Broker,
  deliver, deliver_all, drain_once,
}
use bus_ai_booking.OutboxRelay.Steps.{IsKeyed}
use bus_ai_booking.OutboxRelay.Attempts.{Drain, drains, times, budget, drains_bounded}

abbrev options : RelayOptions
options = record {
  lock_owner = "w1";
  batch_size = 50;
  lock_timeout_seconds = 30;
  max_attempts = 5;
  base_backoff_ms = 250;
}

abbrev refuses : Broker
refuses message = some "ConnectionError"

abbrev fresh : OutboxMessage
fresh = record {
  id = "m1";
  event_id = "00ff0000-0000-4000-8000-000000000000";
  occurred_at = 0;
  available_at = 0;
  attempt_count = 0;
  locked_at = none;
  lock_owner = none;
  published_at = none;
  dead_lettered_at = none;
  last_error_code = none;
}

abbrev drain_at : ℕ → Drain
drain_at now = record { broker = refuses; claimed_at = now; now = now }

abbrev seven : List Drain
seven =
    drain_at 0
    ∷ drain_at 60000
    ∷ drain_at 120000
    ∷ drain_at 180000
    ∷ drain_at 240000
    ∷ drain_at 300000
    ∷ drain_at 360000
    ∷ []

five_attempts : times "m1" (drains options seven (fresh ∷ [])).0 ≡ 5
unfolding drains drain_once claim_batch candidates is_candidate ordered deliver_all deliver
    mark_failed failed is_locked_by retry_backoff parse_hex hex_value in_range safe_error_code
    is_key is_key_char is_alphanumeric is_digit
five_attempts = refl

fresh-IsKeyed : IsKeyed (fresh ∷ [])
fresh-IsKeyed id = ground arith

drains_bounded_example :
    times "m1" (drains options seven (fresh ∷ [])).0
    ≤ budget 5 (find (has_message_id "m1") (fresh ∷ []))
drains_bounded_example =
    drains_bounded options seven (fresh ∷ []) "m1" fresh-IsKeyed (λ live. omega arith)
