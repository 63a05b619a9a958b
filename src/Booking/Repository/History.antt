-- ===== src/Booking/Repository/History.antt =====
-- The history of the statuses: its last entry for a booking is the status of the booking.
use bus_ai_booking.Prelude.{
  ℕ, String, ◌≡◌, refl, ◌∙◌, Bool, true, false, ◌&&◌, Option, none, some, List, [], ◌∷◌, ◌++◌, find,
  arith, ◌==◌, string_eq, ℕ_eq, eq_iff, if◌then◌else◌, Bool-cases, Option-cases, inl, inr,
  find_sound,
}
use bus_ai_booking.Booking.Types.{
  BookingStatus, pending_payment, paid, expired, cancelled, is_cancellable, BookingRow,
  StatusHistoryRow, CheckoutOwner, BookingActor, OperationalAuditContext,
}
use bus_ai_booking.Booking.Outbox.{BookingDomainEvent}
use bus_ai_booking.Booking.Repository.{
  BookingTables, update_where, is_one, is_owned, is_pending_of, paid_row, expired_row,
  cancelled_row, released_row, is_cancelled_by, paid_tables, expired_tables, mark_paid,
  mark_expired, mark_cancelled, mark_cancellation_seats_released, read_back, read_payment,
  history_row,
}
use bus_ai_booking.Booking.Repository.Rows.{
  has_id, IsKeyed, find-update_where, update_where-IsKeyed, is_one_row, find_by_id,
}

abbrev latest_or : Option BookingStatus → StatusHistoryRow → String → Option BookingStatus
latest_or (some status) h id = some status
latest_or none h id = if h.booking_id == id then some h.to_status else none

-- The status of the last entry for a booking.
abbrev pub latest : String → List StatusHistoryRow → Option BookingStatus
latest id [] = none
latest id (h ∷ rest) = latest_or (latest id rest) h id

pub latest-append :
    (id : String) (hs : List StatusHistoryRow) (h : StatusHistoryRow)
    → latest id (hs ++ h ∷ []) ≡ (if h.booking_id == id then some h.to_status else latest id hs)
latest-append id [] h = refl
latest-append id (x ∷ hs) h = ground (arith, latest-append id hs h)

latest-if :
    (id : String) (b : Bool) (hs : List StatusHistoryRow) (h : StatusHistoryRow)
    → latest id (if b then hs ++ h ∷ [] else hs)
      ≡ (if b && h.booking_id == id then some h.to_status else latest id hs)
latest-if id true hs h = latest-append id hs h
latest-if id false hs h = refl

-- The status of each booking is that of the last entry of its history.
abbrev pub IsRecorded : List BookingRow → List StatusHistoryRow → Type 0
IsRecorded rows history =
    (id : String) (row : BookingRow)
    → find (has_id id) rows ≡ some row
    → latest id history ≡ some row.status

-- No id has two bookings, and the history records their statuses.
abbrev pub IsConsistent : BookingTables → Type 0
IsConsistent t = IsKeyed t.bookings × IsRecorded t.bookings t.history

-- An UPDATE of one booking, with the entry for its new status.
module _ (p : BookingRow → Bool) (f : BookingRow → BookingRow) (h : StatusHistoryRow)
    (keeps : (row : BookingRow) → (f row).id ≡ row.id)
    (becomes : (row : BookingRow) → (f row).status ≡ h.to_status)
    (sound : (row : BookingRow) → p row ≡ true → (row.id == h.booking_id) ≡ true)
    (rows : List BookingRow) (history : List StatusHistoryRow) (keyed : IsKeyed rows)
    (recorded : IsRecorded rows history) where
  pub update-IsRecorded :
      IsRecorded (update_where p f rows) (if is_one p rows then history ++ h ∷ [] else history)
  update-IsRecorded id row e =
      rw (latest-if id (is_one p rows) history h) (elim (Option-cases (find (has_id id) rows)) [
        | inl gone ↦ absurd (ground (arith, e, gone, find-update_where p f keeps id rows))
        | inr (old, there) ↦
            let now : (if p old then f old else old) ≡ row =
              ground (arith, e, there, find-update_where p f keeps id rows) in
            elim (Bool-cases (h.booking_id == id)) [
              | inr other ↦ ground (
                arith,
                other,
                now,
                sound old,
                recorded id old there,
                eq_iff old.id h.booking_id,
                eq_iff old.id id,
                eq_iff h.booking_id id,
                find_sound (has_id id) rows old there,
              )
              | inl same ↦
                  let owner : h.booking_id ≡ id = ground (arith, same, eq_iff h.booking_id id) in
                  let (one, any_one) =
                    is_one_row p h.booking_id sound rows old (keyed h.booking_id)
                      (rw owner there) in
                  rw one (ground (arith, same, now, becomes old, recorded id old there))
            ]
      ])

read_back_tables :
    (P : BookingTables → Type 0) (before after : BookingTables) (b : Bool) (o : Option BookingRow)
    → P before
    → P after
    → P (read_back before after b o).1
read_back_tables P before after b none h k = h
read_back_tables P before after b (some row) h k = k

pub read_payment_tables :
    (P : BookingTables → Type 0) (before after : BookingTables) (o : Option BookingRow)
    → P before
    → P after
    → P (read_payment before after o).1
read_payment_tables P before after none h k = h
read_payment_tables P before after (some row) h k = k

paid_tables-IsConsistent :
    (id : String) (owner : CheckoutOwner) (attempt_id key : String) (now : ℕ)
    (event : BookingDomainEvent) (audit : Option OperationalAuditContext) (t : BookingTables)
    → IsConsistent t
    → IsConsistent (paid_tables id owner attempt_id key now event audit t)
unfolding paid_tables
paid_tables-IsConsistent id owner attempt_id key now event audit t (keyed, recorded) =
    let p = is_pending_of id owner in
    let f = paid_row attempt_id key now in
    let keeps =
      update-IsRecorded p f (history_row id pending_payment paid owner.type owner.id now)
        (λ row. refl) (λ row. refl) (λ row q. ground (arith, q)) t.bookings t.history keyed
        recorded in
    elim (Bool-cases (is_one p t.bookings)) [
      | inl one ↦ rw one (update_where-IsKeyed p f (λ row. refl) t.bookings keyed, rw one at keeps)
      | inr other ↦
          rw other (update_where-IsKeyed p f (λ row. refl) t.bookings keyed, rw other at keeps)
    ]

pub mark_paid-IsConsistent :
    (id : String) (owner : CheckoutOwner) (attempt_id key : String) (now : ℕ)
    (event : BookingDomainEvent) (audit : Option OperationalAuditContext) (t : BookingTables)
    → IsConsistent t
    → IsConsistent (mark_paid id owner attempt_id key now event audit t).1
unfolding mark_paid
mark_paid-IsConsistent id owner attempt_id key now event audit t c =
    read_payment_tables IsConsistent t (paid_tables id owner attempt_id key now event audit t)
      (find (is_owned id owner) (paid_tables id owner attempt_id key now event audit t).bookings) c
      (paid_tables-IsConsistent id owner attempt_id key now event audit t c)

expired_tables-IsConsistent :
    (id : String) (owner : CheckoutOwner) (now : ℕ) (actor : BookingActor)
    (event : BookingDomainEvent) (t : BookingTables)
    → IsConsistent t
    → IsConsistent (expired_tables id owner now actor event t)
unfolding expired_tables
expired_tables-IsConsistent id owner now actor event t (keyed, recorded) =
    let p = is_pending_of id owner in
    let f = expired_row now in
    let keeps =
      update-IsRecorded p f (history_row id pending_payment expired actor.type actor.id now)
        (λ row. refl) (λ row. refl) (λ row q. ground (arith, q)) t.bookings t.history keyed
        recorded in
    elim (Bool-cases (is_one p t.bookings)) [
      | inl one ↦ rw one (update_where-IsKeyed p f (λ row. refl) t.bookings keyed, rw one at keeps)
      | inr other ↦
          rw other (update_where-IsKeyed p f (λ row. refl) t.bookings keyed, rw other at keeps)
    ]

pub mark_expired-IsConsistent :
    (id : String) (owner : CheckoutOwner) (now : ℕ) (actor : BookingActor)
    (event : BookingDomainEvent) (t : BookingTables)
    → IsConsistent t
    → IsConsistent (mark_expired id owner now actor event t).1
unfolding mark_expired
mark_expired-IsConsistent id owner now actor event t c =
    read_back_tables IsConsistent t (expired_tables id owner now actor event t)
      (is_one (is_pending_of id owner) t.bookings)
      (find (is_owned id owner) (expired_tables id owner now actor event t).bookings) c
      (expired_tables-IsConsistent id owner now actor event t c)

-- A booking found for its owner is the only row of its id.
pub is_owned_one :
    (id : String) (owner : CheckoutOwner) (rows : List BookingRow) (row : BookingRow)
    → IsKeyed rows
    → find (is_owned id owner) rows ≡ some row
    → (find (has_id id) rows ≡ some row) × (is_one (is_owned id owner) rows ≡ true)
is_owned_one id owner rows row keyed e =
    let there =
      find_by_id (is_owned id owner) id (λ row q. ground (arith, q)) rows row (keyed id) e in
    let (one, any_one) =
      is_one_row (is_owned id owner) id (λ row q. ground (arith, q)) rows row (keyed id) there in
    (there, one ∙ find_sound (is_owned id owner) rows row e)

pub mark_cancelled-IsConsistent :
    (id : String) (owner : CheckoutOwner) (key : String) (now : ℕ) (policy : String)
    (event : BookingDomainEvent) (audit : Option OperationalAuditContext) (t : BookingTables)
    → IsConsistent t
    → IsConsistent (mark_cancelled id owner key now policy event audit t).1
unfolding mark_cancelled
mark_cancelled-IsConsistent id owner key now policy event audit t (keyed, recorded) =
    elim (Option-cases (find (is_owned id owner) t.bookings)) [
      | inl gone ↦ rw gone (keyed, recorded)
      | inr (before, e) ↦ elim (Bool-cases (is_cancellable before.status)) [
        | inr kept ↦ rw e (rw kept (keyed, recorded))
        | inl moved ↦
            let p = is_owned id owner in
            let f = cancelled_row key now policy in
            let h = history_row id before.status cancelled "CUSTOMER" owner.id now in
            let (there, one) = is_owned_one id owner t.bookings before keyed e in
            let keeps =
              update-IsRecorded p f h (λ row. refl) (λ row. refl) (λ row q. ground (arith, q))
                t.bookings t.history keyed recorded in
            rw e (
              rw moved (
                read_back_tables IsConsistent t _ true _ (keyed, recorded)
                  (update_where-IsKeyed p f (λ row. refl) t.bookings keyed, rw one at keeps)))
      ]
    ]

pub mark_released-IsConsistent :
    (id key : String) (released_at : ℕ) (t : BookingTables)
    → IsConsistent t
    → IsConsistent (mark_cancellation_seats_released id key released_at t)
unfolding mark_cancellation_seats_released
mark_released-IsConsistent id key released_at t (keyed, recorded) = (
  update_where-IsKeyed _ _ (λ row. refl) t.bookings keyed,
  λ other row e. elim (Option-cases (find (has_id other) t.bookings)) [
    | inl gone ↦ absurd (
        ground (
          arith,
          e,
          gone,
          find-update_where (is_cancelled_by id key) (released_row released_at) (λ row. refl) other
              t.bookings,
        ))
    | inr (old, there) ↦ ground (
      arith,
      e,
      there,
      recorded other old there,
      find-update_where (is_cancelled_by id key) (released_row released_at) (λ row. refl) other
          t.bookings,
    )
  ],
)
