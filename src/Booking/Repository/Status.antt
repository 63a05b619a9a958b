-- ===== src/Booking/Repository/Status.antt =====
-- Which status may follow which, as a step relation, and that every transition takes such steps.
use bus_ai_booking.Prelude.{
  ℕ, String, ◌≡◌, refl, subst, Bool, true, false≢true, Option, none, some, List, find, arith,
  string_eq, ℕ_eq, eq_iff, if◌then◌else◌, Bool-cases, Option-cases, inl, inr, find_sound,
}
use bus_ai_booking.Booking.Types.{
  BookingStatus, draft, pending_payment, paid, ticket_issued, checked_in, completed, expired,
  cancelled, is_pending_payment, is_paid, is_ticket_issued, is_cancellable, BookingRow,
  CheckoutOwner, BookingActor, OperationalAuditContext,
}
use bus_ai_booking.Booking.Outbox.{BookingDomainEvent}
use bus_ai_booking.Booking.Repository.{
  BookingTables, update_where, is_one, is_owned, is_pending_of, paid_row, expired_row,
  cancelled_row, released_row, is_cancelled_by, paid_tables, expired_tables, mark_paid,
  mark_expired, mark_cancelled, mark_cancellation_seats_released, read_back,
}
use bus_ai_booking.Booking.Repository.Rows.{has_id, IsKeyed, find-update_where}
use bus_ai_booking.Booking.Repository.History.{is_owned_one, read_payment_tables}

-- The steps of a booking under the transitions.
pub data Moves : BookingStatus → BookingStatus → Type 0 where
  pays : Moves pending_payment paid
  expires : Moves pending_payment expired
  issues : Moves paid ticket_issued
  checks_in : Moves ticket_issued checked_in
  cancels_paid : Moves paid cancelled
  cancels_issued : Moves ticket_issued cancelled

-- Any number of steps.
pub data Reaches : BookingStatus → BookingStatus → Type 0 where
  stays : {s : BookingStatus} → Reaches s s
  step : {r s u : BookingStatus} → Moves r s → Reaches s u → Reaches r u

pub Reaches-trans : {r s u : BookingStatus} → Reaches r s → Reaches s u → Reaches r u
Reaches-trans stays q = q
Reaches-trans (step m p) q = step m (Reaches-trans p q)

one : {r s : BookingStatus} → Moves r s → Reaches r s
one m = step m stays

leaves_pending :
    {u : BookingStatus} (s : BookingStatus)
    → Moves pending_payment u
    → is_pending_payment s ≡ true
    → Reaches s u
leaves_pending pending_payment m h = one m
leaves_pending draft m h = absurd (false≢true h)
leaves_pending paid m h = absurd (false≢true h)
leaves_pending ticket_issued m h = absurd (false≢true h)
leaves_pending checked_in m h = absurd (false≢true h)
leaves_pending completed m h = absurd (false≢true h)
leaves_pending expired m h = absurd (false≢true h)
leaves_pending cancelled m h = absurd (false≢true h)

pub leaves_paid : (s : BookingStatus) → is_paid s ≡ true → Reaches s ticket_issued
leaves_paid paid h = one issues
leaves_paid draft h = absurd (false≢true h)
leaves_paid pending_payment h = absurd (false≢true h)
leaves_paid ticket_issued h = absurd (false≢true h)
leaves_paid checked_in h = absurd (false≢true h)
leaves_paid completed h = absurd (false≢true h)
leaves_paid expired h = absurd (false≢true h)
leaves_paid cancelled h = absurd (false≢true h)

pub leaves_issued : (s : BookingStatus) → is_ticket_issued s ≡ true → Reaches s checked_in
leaves_issued ticket_issued h = one checks_in
leaves_issued draft h = absurd (false≢true h)
leaves_issued pending_payment h = absurd (false≢true h)
leaves_issued paid h = absurd (false≢true h)
leaves_issued checked_in h = absurd (false≢true h)
leaves_issued completed h = absurd (false≢true h)
leaves_issued expired h = absurd (false≢true h)
leaves_issued cancelled h = absurd (false≢true h)

cancels : (s : BookingStatus) → is_cancellable s ≡ true → Reaches s cancelled
cancels paid h = one cancels_paid
cancels ticket_issued h = one cancels_issued
cancels draft h = absurd (false≢true h)
cancels pending_payment h = absurd (false≢true h)
cancels checked_in h = absurd (false≢true h)
cancels completed h = absurd (false≢true h)
cancels expired h = absurd (false≢true h)
cancels cancelled h = absurd (false≢true h)

-- Nothing follows an expired or a cancelled booking.
pub Reaches-expired : {s : BookingStatus} → Reaches expired s → s ≡ expired
Reaches-expired stays = refl
Reaches-expired (step m p) = elim m [ ]

pub Reaches-cancelled : {s : BookingStatus} → Reaches cancelled s → s ≡ cancelled
Reaches-cancelled stays = refl
Reaches-cancelled (step m p) = elim m [ ]

-- Each booking that is there afterwards was there before, with a status that leads to its status.
abbrev pub IsFollowed : List BookingRow → List BookingRow → Type 0
IsFollowed before after =
    (id : String) (row : BookingRow)
    → find (has_id id) after ≡ some row
    → (old : BookingRow) × (find (has_id id) before ≡ some old) × Reaches old.status row.status

pub IsFollowed-refl : (rows : List BookingRow) → IsFollowed rows rows
IsFollowed-refl rows id row e = (row, e, stays)

pub update-IsFollowed :
    (p : BookingRow → Bool) (f : BookingRow → BookingRow) (rows : List BookingRow)
    → ((row : BookingRow) → (f row).id ≡ row.id)
    → ((id : String) (row : BookingRow)
        → find (has_id id) rows ≡ some row
        → p row ≡ true
        → Reaches row.status (f row).status)
    → IsFollowed rows (update_where p f rows)
update-IsFollowed p f rows keeps moves id row e = elim (Option-cases (find (has_id id) rows)) [
  | inl gone ↦ absurd (ground (arith, e, gone, find-update_where p f keeps id rows))
  | inr (old, there) ↦
      let now : (if p old then f old else old) ≡ row =
        ground (arith, e, there, find-update_where p f keeps id rows) in
      (
        old,
        there,
        subst (λ (r : BookingRow). Reaches old.status r.status) now
            (elim (Bool-cases (p old)) [
              | inl hit ↦ rw hit (moves id old there hit)
              | inr miss ↦ rw miss stays
            ]),
      )
]

read_back-IsFollowed :
    (t u : BookingTables) (b : Bool) (o : Option BookingRow)
    → IsFollowed t.bookings u.bookings
    → IsFollowed t.bookings (read_back t u b o).1.bookings
read_back-IsFollowed t u b none h = IsFollowed-refl t.bookings
read_back-IsFollowed t u b (some row) h = h

paid_tables-IsFollowed :
    (id : String) (owner : CheckoutOwner) (attempt_id key : String) (now : ℕ)
    (event : BookingDomainEvent) (audit : Option OperationalAuditContext) (t : BookingTables)
    → IsFollowed t.bookings (paid_tables id owner attempt_id key now event audit t).bookings
unfolding paid_tables
paid_tables-IsFollowed id owner attempt_id key now event audit t =
    let rows =
      update-IsFollowed (is_pending_of id owner) (paid_row attempt_id key now) t.bookings
        (λ row. refl) (λ other row e p. leaves_pending row.status pays (ground (arith, p))) in
    elim (Bool-cases (is_one (is_pending_of id owner) t.bookings)) [
      | inl hit ↦ rw hit rows
      | inr miss ↦ rw miss rows
    ]

pub mark_paid-IsFollowed :
    (id : String) (owner : CheckoutOwner) (attempt_id key : String) (now : ℕ)
    (event : BookingDomainEvent) (audit : Option OperationalAuditContext) (t : BookingTables)
    → IsFollowed t.bookings (mark_paid id owner attempt_id key now event audit t).1.bookings
unfolding mark_paid
mark_paid-IsFollowed id owner attempt_id key now event audit t =
    read_payment_tables (λ (u : BookingTables). IsFollowed t.bookings u.bookings) t
      (paid_tables id owner attempt_id key now event audit t)
      (find (is_owned id owner) (paid_tables id owner attempt_id key now event audit t).bookings)
      (IsFollowed-refl t.bookings)
      (paid_tables-IsFollowed id owner attempt_id key now event audit t)

expired_tables-IsFollowed :
    (id : String) (owner : CheckoutOwner) (now : ℕ) (actor : BookingActor)
    (event : BookingDomainEvent) (t : BookingTables)
    → IsFollowed t.bookings (expired_tables id owner now actor event t).bookings
unfolding expired_tables
expired_tables-IsFollowed id owner now actor event t =
    let rows =
      update-IsFollowed (is_pending_of id owner) (expired_row now) t.bookings (λ row. refl)
        (λ other row e p. leaves_pending row.status expires (ground (arith, p))) in
    elim (Bool-cases (is_one (is_pending_of id owner) t.bookings)) [
      | inl hit ↦ rw hit rows
      | inr miss ↦ rw miss rows
    ]

pub mark_expired-IsFollowed :
    (id : String) (owner : CheckoutOwner) (now : ℕ) (actor : BookingActor)
    (event : BookingDomainEvent) (t : BookingTables)
    → IsFollowed t.bookings (mark_expired id owner now actor event t).1.bookings
unfolding mark_expired
mark_expired-IsFollowed id owner now actor event t =
    read_back-IsFollowed t (expired_tables id owner now actor event t)
      (is_one (is_pending_of id owner) t.bookings)
      (find (is_owned id owner) (expired_tables id owner now actor event t).bookings)
      (expired_tables-IsFollowed id owner now actor event t)

pub mark_cancelled-IsFollowed :
    (id : String) (owner : CheckoutOwner) (key : String) (now : ℕ) (policy : String)
    (event : BookingDomainEvent) (audit : Option OperationalAuditContext) (t : BookingTables)
    → IsKeyed t.bookings
    → IsFollowed t.bookings (mark_cancelled id owner key now policy event audit t).1.bookings
unfolding mark_cancelled
mark_cancelled-IsFollowed id owner key now policy event audit t keyed =
    elim (Option-cases (find (is_owned id owner) t.bookings)) [
      | inl gone ↦ rw gone (IsFollowed-refl t.bookings)
      | inr (before, e) ↦ elim (Bool-cases (is_cancellable before.status)) [
        | inr kept ↦ rw e (rw kept (IsFollowed-refl t.bookings))
        | inl moved ↦
            let (there, alone) = is_owned_one id owner t.bookings before keyed e in
            rw e (
              rw moved (
                read_back-IsFollowed t _ _ _ (
                  update-IsFollowed (is_owned id owner) (cancelled_row key now policy) t.bookings
                    (λ row. refl)
                    (λ other row found p. cancels row.status (
                      ground (
                        arith,
                        p,
                        found,
                        there,
                        moved,
                        eq_iff other id,
                        eq_iff row.id id,
                        eq_iff row.id other,
                        find_sound (has_id other) t.bookings row found,
                      ))))))
      ]
    ]

pub mark_released-IsFollowed :
    (id key : String) (released_at : ℕ) (t : BookingTables)
    → IsFollowed t.bookings (mark_cancellation_seats_released id key released_at t).bookings
unfolding mark_cancellation_seats_released
mark_released-IsFollowed id key released_at t =
    update-IsFollowed (is_cancelled_by id key) (released_row released_at) t.bookings (λ row. refl)
      (λ other row e p. stays)
