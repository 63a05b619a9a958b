-- ===== src/OutboxRelay/Attempts.antt =====
-- How often a message is given to the broker.
use bus_ai_booking.Prelude.{
  ℕ, String, ◌+◌, ◌-◌, ◌≤◌, ◌<◌, ◌≡◌, refl, sym, ap, ◌∙◌, Bool, true, false, ◌||◌, Option, none,
  some, List, [], ◌∷◌, ◌++◌, map, filter, find, any, length, arith, string_eq, ℕ_eq, eq_iff,
  eq_refl, is_some, if◌then◌else◌, Bool-cases, Option-cases, inl, inr, find_sound,
}
use bus_ai_booking.OutboxRelay.{
  OutboxMessage, is_candidate, has_message_id, is_among, claimed, candidates, claim_batch,
  is_locked_by, failed, RelayOptions, Broker, deliver_all, drain_once,
}
use bus_ai_booking.OutboxRelay.Steps.{
  IsKeyed, on_row, find-map, count-map, chosen-candidate, settled, deliver_all-IsKeyed, no_delivery,
  deliver_all_one,
}

-- A row that no claim takes any more.
abbrev pub is_closed : OutboxMessage → Bool
is_closed row = is_some row.published_at || is_some row.dead_lettered_at

-- The attempts that are left to a message.
abbrev pub budget : ℕ → Option OutboxMessage → ℕ
budget most none = 0
budget most (some row) = if is_closed row then 0 else most - row.attempt_count

-- Outside a drain no row is locked, and an open row has attempts left.
abbrev pub IsIdle : ℕ → Option OutboxMessage → Type 0
IsIdle most none = Unit
IsIdle most (some row) = (is_closed row ≡ false) → row.attempt_count < most

-- The times that a message is given to the broker.
abbrev pub times : String → List OutboxMessage → ℕ
times id messages = length (filter (has_message_id id) messages)

-- A claimed row, once its message is settled.
settled-budget :
    (options : RelayOptions) (claimed_at now : ℕ) (message row : OutboxMessage)
    (answer : Option String)
    → row.id ≡ message.id
    → is_closed row ≡ false
    → row.attempt_count < options.max_attempts
    → let after = settled options now message answer (claimed options.lock_owner claimed_at row) in
      (1 + budget options.max_attempts (some after) ≤ budget options.max_attempts (some row))
      × IsIdle options.max_attempts (some after)
unfolding is_locked_by failed
settled-budget options claimed_at now message row none same live few =
    rw same (rw (eq_refl message.id) (rw (eq_refl options.lock_owner) ground (arith, live, few)))
settled-budget options claimed_at now message row (some name) same live few =
    rw same (rw (eq_refl message.id) (rw (eq_refl options.lock_owner) ground (arith, live, few)))

any-times :
    (id : String) (rows : List OutboxMessage)
    → times id rows ≡ 0
    → any (has_message_id id) rows ≡ false
any-times id [] h = refl
any-times id (row ∷ rows) h = ground (arith, h, any-times id rows)

none_of :
    (q : OutboxMessage → Bool) (id : String) (rows : List OutboxMessage)
    → length (filter (has_message_id id) rows) ≤ 0
    → (times id (filter q rows) ≡ 0) × (find (has_message_id id) (filter q rows) ≡ none)
none_of q id [] h = (refl, refl)
none_of q id (row ∷ rows) h = ground (arith, h, none_of q id rows)

absent :
    (id : String) (rows : List OutboxMessage)
    → find (has_message_id id) rows ≡ none
    → length (filter (has_message_id id) rows) ≤ 0
absent id [] h = omega arith
absent id (row ∷ rows) h = ground (arith, h, absent id rows)

-- The row of an id, among those that pass a test.
of_filter :
    (q : OutboxMessage → Bool) (id : String) (rows : List OutboxMessage) (row : OutboxMessage)
    → length (filter (has_message_id id) rows) ≤ 1
    → find (has_message_id id) rows ≡ some row
    → (times id (filter q rows) ≡ (if q row then 1 else 0))
      × (find (has_message_id id) (filter q rows) ≡ (if q row then some row else none))
of_filter q id [] row k e = absurd (ground (arith, e))
of_filter q id (x ∷ rows) row k e = ground (arith, k, e, none_of q id rows, of_filter q id rows row)

module _ (options : RelayOptions) (broker : Broker) (claimed_at now : ℕ) (rows : List OutboxMessage)
    (keyed : IsKeyed rows) where
  abbrev chosen : List OutboxMessage
  chosen = candidates options.batch_size options.lock_timeout_seconds claimed_at rows

  abbrev given : List OutboxMessage
  given = map (claimed options.lock_owner claimed_at) (filter (is_among chosen) rows)

  abbrev taken : OutboxMessage → OutboxMessage
  taken row = if is_among chosen row then claimed options.lock_owner claimed_at row else row

  taken-id : (row : OutboxMessage) → (taken row).id ≡ row.id
  taken-id row = elim (Bool-cases (is_among chosen row)) [ inl e ↦ rw e refl | inr e ↦ rw e refl ]

  drained :
      drain_once options broker claimed_at now rows
      ≡ (given, deliver_all options broker now given (map taken rows))
  unfolding drain_once claim_batch
  drained = refl

  abbrev after : List OutboxMessage
  after = deliver_all options broker now given (map taken rows)

  after-IsKeyed : IsKeyed after
  after-IsKeyed =
      deliver_all-IsKeyed options broker now given (map taken rows)
        (λ id. ground (arith, keyed id, count-map taken taken-id id rows))

  abbrev Spends : String → Type 0
  Spends id =
      (times id given + budget options.max_attempts (find (has_message_id id) after)
        ≤ budget options.max_attempts (find (has_message_id id) rows))
      × IsIdle options.max_attempts (find (has_message_id id) after)

  given-times : (id : String) → times id given ≡ times id (filter (is_among chosen) rows)
  given-times id =
      count-map (claimed options.lock_owner claimed_at) (λ row. refl) id
        (filter (is_among chosen) rows)

  -- A row that is not chosen.
  Spends-nothing :
      (id : String) (o : Option OutboxMessage)
      → find (has_message_id id) rows ≡ o
      → times id given ≡ 0
      → find (has_message_id id) (map taken rows) ≡ o
      → IsIdle options.max_attempts o
      → Spends id
  Spends-nothing id o e none_given same idle =
      let kept =
        no_delivery options broker now id given (map taken rows) (any-times id given none_given)
        ∙ same in
      rw kept (rw e (rw none_given (omega arith, idle)))

  candidate-live :
      (row : OutboxMessage)
      → is_candidate claimed_at options.lock_timeout_seconds row ≡ true
      → is_closed row ≡ false
  unfolding is_candidate
  candidate-live row h = ground (arith, h)

  -- A row that is chosen.
  Spends-one :
      (id : String) (row : OutboxMessage)
      → find (has_message_id id) rows ≡ some row
      → IsIdle options.max_attempts (some row)
      → is_closed row ≡ false
      → times id given ≡ 1
      → find (has_message_id id) given ≡ some (claimed options.lock_owner claimed_at row)
      → find (has_message_id id) (map taken rows) ≡ some (claimed options.lock_owner claimed_at row)
      → Spends id
  Spends-one id row there idle live once found same =
      let message = claimed options.lock_owner claimed_at row in
      let settles =
        deliver_all_one options broker now id message given (map taken rows) (ground (arith, once))
          found
        ∙ ap (λ (o : Option OutboxMessage). on_row (settled options now message (broker message)) o)
            same in
      let (less, idle_after) =
        settled-budget options claimed_at now message row (broker message) refl live (idle live) in
      rw settles (rw there (rw once (less, idle_after)))

  Spends-all :
      (id : String) → IsIdle options.max_attempts (find (has_message_id id) rows) → Spends id
  Spends-all id idle = elim (Option-cases (find (has_message_id id) rows)) [
    | inl gone ↦
        Spends-nothing id none gone
          (given-times id ∙ (none_of (is_among chosen) id rows (absent id rows gone)).0)
          (find-map taken taken-id id rows ∙ ap (λ (o : Option OutboxMessage). on_row taken o) gone)
          tt
    | inr (row, there) ↦
        let (count, found) = of_filter (is_among chosen) id rows row (keyed id) there in
        let same : row.id ≡ id =
          ground (arith, eq_iff row.id id, find_sound (has_message_id id) rows row there) in
        let now_there =
          find-map taken taken-id id rows
          ∙ ap (λ (o : Option OutboxMessage). on_row taken o) there in
        elim (Bool-cases (is_among chosen row)) [
          | inr kept ↦
              Spends-nothing id (some row) there (given-times id ∙ count ∙ rw kept refl)
                (now_there ∙ rw kept refl) (rw there at idle)
          | inl hit ↦
              let taken_now : taken row ≡ claimed options.lock_owner claimed_at row = rw hit refl in
              let alone : find (has_message_id id) (filter (is_among chosen) rows) ≡ some row =
                found ∙ rw hit refl in
              let picked = ap (λ (i : String). any (has_message_id i) chosen) (sym same) ∙ hit in
              Spends-one id row there (rw there at idle)
                (candidate-live row (
                  chosen-candidate options.batch_size options.lock_timeout_seconds claimed_at id
                    rows row (keyed id) there picked))
                (given-times id ∙ count ∙ rw hit refl)
                (find-map (claimed options.lock_owner claimed_at) (λ r. refl) id
                    (filter (is_among chosen) rows)
                  ∙ ap
                      (λ (o : Option OutboxMessage).
                        on_row (claimed options.lock_owner claimed_at) o)
                      alone)
                (now_there ∙ ap (λ (r : OutboxMessage). some r) taken_now)
        ]
  ]

-- Drains of a relay, each with its broker and the instants of its claim and of its deliveries.
pub record Drain : Type 0 where
  pub broker : Broker
  pub claimed_at : ℕ
  pub now : ℕ

-- All messages that are given to the brokers, in order, and the table at the end.
unfoldable pub drains :
    RelayOptions → List Drain → List OutboxMessage → List OutboxMessage × List OutboxMessage
drains options [] rows = ([], rows)
drains options (d ∷ rest) rows =
    let (messages, after) = drain_once options d.broker d.claimed_at d.now rows in
    let (more, last) = drains options rest after in (messages ++ more, last)

times-append :
    (id : String) (xs ys : List OutboxMessage) → times id (xs ++ ys) ≡ times id xs + times id ys
times-append id [] ys = omega arith
times-append id (x ∷ xs) ys = ground (arith, times-append id xs ys)

-- Where no id has two rows, and an open message has attempts left, drains of a relay, one after the
-- other and each run to its end, give the message to the broker at most as often as it has attempts
-- left, whatever the brokers answer; and a message that is published or dead-lettered, or that has no
-- row, not at all.
pub drains_bounded :
    (options : RelayOptions) (ds : List Drain) (rows : List OutboxMessage) (id : String)
    → IsKeyed rows
    → IsIdle options.max_attempts (find (has_message_id id) rows)
    → times id (drains options ds rows).0
      ≤ budget options.max_attempts (find (has_message_id id) rows)
unfolding drains
drains_bounded options [] rows id keyed idle = omega arith
drains_bounded options (d ∷ rest) rows id keyed idle =
    let (less, idle_after) = Spends-all options d.broker d.claimed_at d.now rows keyed id idle in
    let more =
      drains_bounded options rest (after options d.broker d.claimed_at d.now rows keyed) id
        (after-IsKeyed options d.broker d.claimed_at d.now rows keyed) idle_after in
    rw (drained options d.broker d.claimed_at d.now rows keyed) (
      rw
        (times-append id (given options d.broker d.claimed_at d.now rows keyed)
          (drains options rest (after options d.broker d.claimed_at d.now rows keyed)).0)
        (omega (arith, less, more)))
