-- ===== src/OutboxRelay/Steps.antt =====
-- What a drain does to the row of one message.
use bus_ai_booking.Prelude.{
  ℕ, String, ◌≤◌, ◌≡◌, refl, ap, ◌∙◌, Bool, true, false, Option, none, some, List, [], ◌∷◌, map,
  filter, find, take, any, length, arith, ◌==◌, string_eq, ℕ_eq, eq_iff, if◌then◌else◌, Bool-cases,
  Option-cases, inl, inr, find_sound, zero, suc,
}
use bus_ai_booking.OutboxRelay.{
  OutboxMessage, is_candidate, insert_ordered, ordered, has_message_id, candidates, is_locked_by,
  published, mark_published, failed, mark_failed, retry_backoff, safe_error_code, RelayOptions,
  Broker, delivered, deliver, deliver_all,
}

-- No id has two rows.
abbrev pub IsKeyed : List OutboxMessage → Type 0
IsKeyed rows = (id : String) → length (filter (has_message_id id) rows) ≤ 1

abbrev pub on_row : (OutboxMessage → OutboxMessage) → Option OutboxMessage → Option OutboxMessage
on_row f none = none
on_row f (some row) = some (f row)

module _ (f : OutboxMessage → OutboxMessage)
    (keeps : (row : OutboxMessage) → (f row).id ≡ row.id) where
  pub find-map :
      (id : String) (rows : List OutboxMessage)
      → find (has_message_id id) (map f rows) ≡ on_row f (find (has_message_id id) rows)
  find-map id [] = refl
  find-map id (row ∷ rows) = ground (arith, keeps row, find-map id rows)

  pub count-map :
      (id : String) (rows : List OutboxMessage)
      → length (filter (has_message_id id) (map f rows)) ≡ length (filter (has_message_id id) rows)
  count-map id [] = refl
  count-map id (row ∷ rows) = ground (arith, keeps row, count-map id rows)

any-insert_ordered :
    (p : OutboxMessage → Bool) (a : OutboxMessage) (xs : List OutboxMessage)
    → any p (insert_ordered a xs) ≡ true
    → (p a ≡ false)
    → any p xs ≡ true
unfolding insert_ordered
any-insert_ordered p a [] h k = ground (arith, h, k)
any-insert_ordered p a (x ∷ xs) h k = ground (arith, h, k, any-insert_ordered p a xs)

any-ordered :
    (p : OutboxMessage → Bool) (xs : List OutboxMessage)
    → any p (ordered xs) ≡ true
    → any p xs ≡ true
unfolding ordered
any-ordered p [] h = h
any-ordered p (x ∷ xs) h = elim (Bool-cases (p x)) [
  | inl e ↦ rw e refl
  | inr e ↦ rw e (any-ordered p xs (any-insert_ordered p x (ordered xs) h e))
]

any-take :
    (p : OutboxMessage → Bool) (n : ℕ) (xs : List OutboxMessage)
    → any p (take n xs) ≡ true
    → any p xs ≡ true
any-take p zero xs h = absurd (ground (arith, h))
any-take p (suc n) [] h = h
any-take p (suc n) (x ∷ xs) h = ground (arith, h, any-take p n xs)

nothing_left :
    (q : OutboxMessage → Bool) (id : String) (rows : List OutboxMessage)
    → length (filter (has_message_id id) rows) ≤ 0
    → any (has_message_id id) (filter q rows) ≡ false
nothing_left q id [] h = refl
nothing_left q id (row ∷ rows) h = ground (arith, h, nothing_left q id rows)

-- The row of an id passes a test that some row of the id passes.
any-filter :
    (q : OutboxMessage → Bool) (id : String) (rows : List OutboxMessage) (row : OutboxMessage)
    → length (filter (has_message_id id) rows) ≤ 1
    → find (has_message_id id) rows ≡ some row
    → any (has_message_id id) (filter q rows) ≡ true
    → q row ≡ true
any-filter q id [] row k e h = absurd (ground (arith, e))
any-filter q id (x ∷ rows) row k e h =
    ground (arith, k, e, h, nothing_left q id rows, any-filter q id rows row)

-- A message that is chosen is a candidate.
pub chosen-candidate :
    (batch timeout now : ℕ) (id : String) (rows : List OutboxMessage) (row : OutboxMessage)
    → length (filter (has_message_id id) rows) ≤ 1
    → find (has_message_id id) rows ≡ some row
    → any (has_message_id id) (candidates batch timeout now rows) ≡ true
    → is_candidate now timeout row ≡ true
unfolding candidates
chosen-candidate batch timeout now id rows row k e h =
    let p = has_message_id id in
    let q = is_candidate now timeout in
    any-filter q id rows row k e
      (any-ordered p (filter q rows) (any-take p batch (ordered (filter q rows)) h))

-- What the delivery of a message does to a row.
abbrev pub settled :
    RelayOptions → ℕ → OutboxMessage → Option String → OutboxMessage → OutboxMessage
settled options now message none row =
    if is_locked_by message.id options.lock_owner row then published now row else row
settled options now message (some name) row =
    if is_locked_by message.id options.lock_owner row
    then failed (safe_error_code name) options.max_attempts
        (retry_backoff message.event_id message.attempt_count options.base_backoff_ms) now row
    else row

settled-id :
    (options : RelayOptions) (now : ℕ) (message : OutboxMessage) (answer : Option String)
    (row : OutboxMessage)
    → (settled options now message answer row).id ≡ row.id
unfolding failed
settled-id options now message none row =
    elim (Bool-cases (is_locked_by message.id options.lock_owner row)) [
      | inl e ↦ rw e refl
      | inr e ↦ rw e refl
    ]
settled-id options now message (some name) row =
    elim (Bool-cases (is_locked_by message.id options.lock_owner row)) [
      | inl e ↦ rw e refl
      | inr e ↦ rw e refl
    ]

deliver-settled :
    (options : RelayOptions) (now : ℕ) (message : OutboxMessage) (answer : Option String)
    (rows : List OutboxMessage)
    → delivered options now message answer rows ≡ map (settled options now message answer) rows
unfolding mark_published mark_failed
deliver-settled options now message none rows = refl
deliver-settled options now message (some name) rows = refl

settled-other :
    (options : RelayOptions) (now : ℕ) (message : OutboxMessage) (answer : Option String)
    (row : OutboxMessage)
    → (row.id == message.id) ≡ false
    → settled options now message answer row ≡ row
unfolding is_locked_by
settled-other options now message none row h = rw h refl
settled-other options now message (some name) row h = rw h refl

some_same : {a b : OutboxMessage} → some a ≡ some b → a ≡ b
some_same e = ground (arith, e)

any-count :
    (id : String) (rows : List OutboxMessage)
    → length (filter (has_message_id id) rows) ≤ 0
    → any (has_message_id id) rows ≡ false
any-count id [] h = refl
any-count id (row ∷ rows) h = ground (arith, h, any-count id rows)

module _ (options : RelayOptions) (broker : Broker) (now : ℕ) where
  pub deliver_all-IsKeyed :
      (messages rows : List OutboxMessage)
      → IsKeyed rows
      → IsKeyed (deliver_all options broker now messages rows)
  unfolding deliver_all deliver
  deliver_all-IsKeyed [] rows k = k
  deliver_all-IsKeyed (m ∷ rest) rows k = deliver_all-IsKeyed rest _ (
      rw (deliver-settled options now m (broker m) rows) (λ id. ground (
        arith,
        k id,
        count-map (settled options now m (broker m)) (settled-id options now m (broker m)) id rows,
      )))

  one_delivery :
      (id : String) (message : OutboxMessage) (rows : List OutboxMessage)
      → find (has_message_id id) (deliver options broker now message rows)
        ≡ on_row (settled options now message (broker message)) (find (has_message_id id) rows)
  unfolding deliver
  one_delivery id message rows = rw (deliver-settled options now message (broker message) rows) (
      find-map (settled options now message (broker message))
        (settled-id options now message (broker message)) id rows)

  other_delivery :
      (id : String) (message : OutboxMessage) (rows : List OutboxMessage)
      → (message.id == id) ≡ false
      → find (has_message_id id) (deliver options broker now message rows)
        ≡ find (has_message_id id) rows
  other_delivery id message rows h =
      one_delivery id message rows ∙ (elim (Option-cases (find (has_message_id id) rows)) [
        | inl e ↦ rw e refl
        | inr (row, e) ↦ rw e (
            ap (λ (r : OutboxMessage). some r)
              (settled-other options now message (broker message) row (
                ground (
                  arith,
                  h,
                  eq_iff row.id id,
                  eq_iff row.id message.id,
                  eq_iff message.id id,
                  find_sound (has_message_id id) rows row e,
                ))))
      ])

  -- A message that is not delivered leaves its row alone.
  pub no_delivery :
      (id : String) (messages rows : List OutboxMessage)
      → any (has_message_id id) messages ≡ false
      → find (has_message_id id) (deliver_all options broker now messages rows)
        ≡ find (has_message_id id) rows
  unfolding deliver_all
  no_delivery id [] rows h = refl
  no_delivery id (m ∷ rest) rows h =
      no_delivery id rest (deliver options broker now m rows) (ground (arith, h))
      ∙ other_delivery id m rows (ground (arith, h))

  -- A message that is delivered once settles its row.
  pub deliver_all_one :
      (id : String) (message : OutboxMessage) (messages rows : List OutboxMessage)
      → length (filter (has_message_id id) messages) ≤ 1
      → find (has_message_id id) messages ≡ some message
      → find (has_message_id id) (deliver_all options broker now messages rows)
        ≡ on_row (settled options now message (broker message)) (find (has_message_id id) rows)
  unfolding deliver_all
  deliver_all_one id message [] rows k e = absurd (ground (arith, e))
  deliver_all_one id message (m ∷ rest) rows k e = elim (Bool-cases (m.id == id)) [
    | inl same ↦
        let first : m ≡ message = some_same (rw same at e) in
        no_delivery id rest (deliver options broker now m rows)
          (any-count id rest (ground (arith, k, same)))
        ∙ one_delivery id m rows
        ∙ ap
            (λ (n : OutboxMessage).
              on_row (settled options now n (broker n)) (find (has_message_id id) rows))
            first
    | inr other ↦
        deliver_all_one id message rest (deliver options broker now m rows)
          (ground (arith, k, other)) (rw other at e)
        ∙ ap (λ (o : Option OutboxMessage). on_row (settled options now message (broker message)) o)
            (other_delivery id m rows other)
  ]
