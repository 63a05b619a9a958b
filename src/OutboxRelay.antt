-- ===== src/OutboxRelay.antt =====
-- services/booking-service/src/booking-outbox.relay.ts with the claim, the publication and the failure
-- of booking-outbox.repository.ts; services/payment-service/src has the same two files for its own
-- outbox. A broker is what the publication of a message answers: nothing, or the name of an error.
-- Instants are milliseconds.
pub mod Attempts
pub mod Steps
mod Tests
use bus_ai_booking.Prelude.{
  ℕ, String, ◌+◌, ◌-◌, ◌*◌, ◌%◌, ◌^◌, Bool, true, false, not, ◌&&◌, ◌||◌, Option, none, some, List,
  [], ◌∷◌, ◌++◌, map, filter, find, take, any, max, lesser, ltb, leb, ◌==◌, string_eq, ℕ_eq,
  is_some, if◌then◌else◌,
}
use bus_ai_booking.Prelude.Text.{is_key, codes, in_range}
use bus_ai_booking.Prelude.Sorting.{text_leb}

-- A row of outbox_events; what the message carries is left out.
pub record OutboxMessage : Type 0 where
  pub id : String
  pub event_id : String
  pub occurred_at : ℕ
  pub available_at : ℕ
  pub attempt_count : ℕ
  pub locked_at : Option ℕ
  pub lock_owner : Option String
  pub published_at : Option ℕ
  pub dead_lettered_at : Option ℕ
  pub last_error_code : Option String

abbrev pub is_stale : ℕ → ℕ → Option ℕ → Bool
is_stale now timeout none = true
is_stale now timeout (some locked) = ltb (locked + timeout * 1000) now

-- The WHERE of the candidates.
unfoldable pub is_candidate : ℕ → ℕ → OutboxMessage → Bool
is_candidate now timeout row =
    not (is_some row.published_at)
    && (not (is_some row.dead_lettered_at)
        && (leb row.available_at now && is_stale now timeout row.locked_at))

-- `ORDER BY occurred_at, id`
abbrev pub comes_first : OutboxMessage → OutboxMessage → Bool
comes_first a b =
    ltb a.occurred_at b.occurred_at || a.occurred_at == b.occurred_at && text_leb a.id b.id

unfoldable pub insert_ordered : OutboxMessage → List OutboxMessage → List OutboxMessage
insert_ordered a [] = a ∷ []
insert_ordered a (x ∷ xs) =
    let rest = insert_ordered a xs in if comes_first a x then a ∷ x ∷ xs else x ∷ rest

unfoldable pub ordered : List OutboxMessage → List OutboxMessage
unfolding insert_ordered
ordered [] = []
ordered (x ∷ xs) = insert_ordered x (ordered xs)

abbrev pub has_message_id : String → OutboxMessage → Bool
has_message_id id row = row.id == id

abbrev pub is_among : List OutboxMessage → OutboxMessage → Bool
is_among rows row = any (has_message_id row.id) rows

abbrev pub claimed : String → ℕ → OutboxMessage → OutboxMessage
claimed owner now row = record row {
  locked_at = some now;
  lock_owner = some owner;
  attempt_count = row.attempt_count + 1;
}

-- The candidates of a claim.
unfoldable pub candidates : ℕ → ℕ → ℕ → List OutboxMessage → List OutboxMessage
candidates batch timeout now rows = take batch (ordered (filter (is_candidate now timeout) rows))

-- `claimBatch`: the messages that are returned, and the table.
unfoldable pub claim_batch :
    String → ℕ → ℕ → ℕ → List OutboxMessage → List OutboxMessage × List OutboxMessage
claim_batch owner batch timeout now rows =
    let chosen = candidates batch timeout now rows in
    (
      map (claimed owner now) (filter (is_among chosen) rows),
      map (λ (row : OutboxMessage). if is_among chosen row then claimed owner now row else row)
          rows,
    )

abbrev pub is_owner : String → Option String → Bool
is_owner owner none = false
is_owner owner (some other) = other == owner

-- `WHERE id = $1 AND lock_owner = $2 AND published_at IS NULL`
unfoldable pub is_locked_by : String → String → OutboxMessage → Bool
is_locked_by id owner row =
    row.id == id && (is_owner owner row.lock_owner && not (is_some row.published_at))

abbrev pub published : ℕ → OutboxMessage → OutboxMessage
published now row = record row {
  published_at = some now;
  locked_at = none;
  lock_owner = none;
  last_error_code = none;
}

-- `markPublished`
unfoldable pub mark_published : String → String → ℕ → List OutboxMessage → List OutboxMessage
mark_published id owner now rows =
    map (λ (row : OutboxMessage). if is_locked_by id owner row then published now row else row) rows

unfoldable pub failed : String → ℕ → ℕ → ℕ → OutboxMessage → OutboxMessage
failed code max_attempts backoff now row =
    let is_last = leb max_attempts row.attempt_count in
    record row {
      locked_at = none;
      lock_owner = none;
      last_error_code = some code;
      dead_lettered_at = if is_last then some now else none;
      available_at = if is_last then row.available_at else now + backoff;
    }

-- `markFailed`
unfoldable pub mark_failed :
    String → String → String → ℕ → ℕ → ℕ → List OutboxMessage → List OutboxMessage
mark_failed id owner code max_attempts backoff now rows =
    map
      (λ (row : OutboxMessage).
        if is_locked_by id owner row then failed code max_attempts backoff now row else row)
      rows

-- The value of a hexadecimal digit, in lower or upper case.
unfoldable pub hex_value : ℕ → ℕ
hex_value c =
    if in_range b'0' b'9' c
    then c - b'0'
    else if in_range b'a' b'f' c
    then c - b'a' + 10
    else c - b'A' + 10

-- `Number.parseInt(..., 16)` of hexadecimal digits, as the ids of events begin.
unfoldable pub parse_hex : ℕ → List ℕ → ℕ
parse_hex value [] = value
parse_hex value (c ∷ cs) = parse_hex (value * 16 + hex_value c) cs

-- `retryBackoff`
unfoldable pub retry_backoff : String → ℕ → ℕ → ℕ
retry_backoff event_id attempt base =
    lesser 30000 (base * 2 ^ (attempt - 1)) + parse_hex 0 (take 4 (codes event_id)) % max 1 base

-- `safeErrorCode`, of the name of the error
unfoldable pub safe_error_code : String → String
safe_error_code name = if is_key 1 128 name then name else "PublishError"

pub record RelayOptions : Type 0 where
  pub lock_owner : String
  pub batch_size : ℕ
  pub lock_timeout_seconds : ℕ
  pub max_attempts : ℕ
  pub base_backoff_ms : ℕ

-- What a publication answers: nothing, or the name of the error that it throws.
abbrev pub Broker : Type 0
Broker = OutboxMessage → Option String

-- `deliver`, by the answer of the broker.
abbrev pub delivered :
    RelayOptions → ℕ → OutboxMessage → Option String → List OutboxMessage → List OutboxMessage
delivered options now message none rows = mark_published message.id options.lock_owner now rows
delivered options now message (some name) rows =
    mark_failed message.id options.lock_owner (safe_error_code name) options.max_attempts
      (retry_backoff message.event_id message.attempt_count options.base_backoff_ms) now rows

unfoldable pub deliver :
    RelayOptions → Broker → ℕ → OutboxMessage → List OutboxMessage → List OutboxMessage
deliver options broker now message rows = delivered options now message (broker message) rows

-- The loop of `drainOnce`.
unfoldable pub deliver_all :
    RelayOptions → Broker → ℕ → List OutboxMessage → List OutboxMessage → List OutboxMessage
deliver_all options broker now [] rows = rows
deliver_all options broker now (message ∷ rest) rows =
    deliver_all options broker now rest (deliver options broker now message rows)

-- `drainOnce`, with the instants of the claim and of the deliveries: the messages given to the broker,
-- and the table.
unfoldable pub drain_once :
    RelayOptions → Broker → ℕ → ℕ → List OutboxMessage → List OutboxMessage × List OutboxMessage
drain_once options broker claimed_at now rows =
    let (messages, after) =
      claim_batch options.lock_owner options.batch_size options.lock_timeout_seconds claimed_at
        rows in
    (messages, deliver_all options broker now messages after)
