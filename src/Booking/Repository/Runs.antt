-- ===== src/Booking/Repository/Runs.antt =====
-- Any sequence of the transitions, each a transaction of its own, in any interleaving of their callers.
use bus_ai_booking.Prelude.{ℕ, String, Option, List, [], ◌∷◌, string_eq}
use bus_ai_booking.Booking.Types.{CheckoutOwner, BookingActor, OperationalAuditContext}
use bus_ai_booking.Booking.Outbox.{BookingDomainEvent}
use bus_ai_booking.Booking.Repository.{
  BookingTables, mark_paid, mark_expired, mark_cancelled, mark_cancellation_seats_released,
}
use bus_ai_booking.Booking.TicketTypes.{PersistedTicketReference, TicketCheckInCommand, CheckInRow}
use bus_ai_booking.Booking.Tickets.{mark_ticket_issued}
use bus_ai_booking.Booking.CheckIn.{check_in_ticket}
use bus_ai_booking.Booking.Boarding.{mark_ticket_issued-IsKept, check_in_ticket-IsKept}
use bus_ai_booking.Booking.Repository.History.{
  IsConsistent, mark_paid-IsConsistent, mark_expired-IsConsistent, mark_cancelled-IsConsistent,
  mark_released-IsConsistent,
}
use bus_ai_booking.Booking.Repository.Status.{
  Reaches-trans, IsFollowed, IsFollowed-refl, mark_paid-IsFollowed, mark_expired-IsFollowed,
  mark_cancelled-IsFollowed, mark_released-IsFollowed,
}

-- A transition with its arguments.
pub data Transition : Type 0 where
  pays :
      String
      → CheckoutOwner
      → String
      → String
      → ℕ
      → BookingDomainEvent
      → Option OperationalAuditContext
      → Transition
  expires : String → CheckoutOwner → ℕ → BookingActor → BookingDomainEvent → Transition
  cancels :
      String
      → CheckoutOwner
      → String
      → ℕ
      → String
      → BookingDomainEvent
      → Option OperationalAuditContext
      → Transition
  releases : String → String → ℕ → Transition
  issues : String → ℕ → String → List PersistedTicketReference → Transition
  checks_in : TicketCheckInCommand → ℕ → List CheckInRow → Transition

unfoldable pub after : BookingTables → Transition → BookingTables
after t (pays id owner attempt_id key now event audit) =
    (mark_paid id owner attempt_id key now event audit t).1
after t (expires id owner now actor event) = (mark_expired id owner now actor event t).1
after t (cancels id owner key now policy event audit) =
    (mark_cancelled id owner key now policy event audit t).1
after t (releases id key released_at) = mark_cancellation_seats_released id key released_at t
after t (issues id now actor_id tickets) = (mark_ticket_issued id now actor_id tickets t).1
after t (checks_in command now seen) = (check_in_ticket command now seen t).1

unfoldable pub run : BookingTables → List Transition → BookingTables
run t [] = t
run t (x ∷ rest) = run (after t x) rest

after-IsConsistent :
    (t : BookingTables) (x : Transition) → IsConsistent t → IsConsistent (after t x)
unfolding after
after-IsConsistent t (pays id owner attempt_id key now event audit) c =
    mark_paid-IsConsistent id owner attempt_id key now event audit t c
after-IsConsistent t (expires id owner now actor event) c =
    mark_expired-IsConsistent id owner now actor event t c
after-IsConsistent t (cancels id owner key now policy event audit) c =
    mark_cancelled-IsConsistent id owner key now policy event audit t c
after-IsConsistent t (releases id key released_at) c =
    mark_released-IsConsistent id key released_at t c
after-IsConsistent t (issues id now actor_id tickets) c =
    (mark_ticket_issued-IsKept id now actor_id t c tickets).0
after-IsConsistent t (checks_in command now seen) c =
    (check_in_ticket-IsKept command now t c seen).0

after-IsFollowed :
    (t : BookingTables) (x : Transition)
    → IsConsistent t
    → IsFollowed t.bookings (after t x).bookings
unfolding after
after-IsFollowed t (pays id owner attempt_id key now event audit) k =
    mark_paid-IsFollowed id owner attempt_id key now event audit t
after-IsFollowed t (expires id owner now actor event) k =
    mark_expired-IsFollowed id owner now actor event t
after-IsFollowed t (cancels id owner key now policy event audit) k =
    mark_cancelled-IsFollowed id owner key now policy event audit t k.0
after-IsFollowed t (releases id key released_at) k = mark_released-IsFollowed id key released_at t
after-IsFollowed t (issues id now actor_id tickets) k =
    (mark_ticket_issued-IsKept id now actor_id t k tickets).1
after-IsFollowed t (checks_in command now seen) k = (check_in_ticket-IsKept command now t k seen).1

-- Whatever transitions ran one after the other on tables where no id has two bookings and the last
-- entry of the history of each booking is its status, both are so afterwards.
pub run-IsConsistent :
    (t : BookingTables) (transitions : List Transition)
    → IsConsistent t
    → IsConsistent (run t transitions)
unfolding run
run-IsConsistent t [] c = c
run-IsConsistent t (x ∷ rest) c = run-IsConsistent (after t x) rest (after-IsConsistent t x c)

-- Whatever transitions ran on consistent tables, each booking that is there afterwards was there
-- before, with a status from which its status follows by the steps pending to paid or expired, paid
-- to issued, issued to checked in, and paid or issued to cancelled.
pub run-IsFollowed :
    (t : BookingTables) (transitions : List Transition)
    → IsConsistent t
    → IsFollowed t.bookings (run t transitions).bookings
unfolding run
run-IsFollowed t [] c id row e = IsFollowed-refl t.bookings id row e
run-IsFollowed t (x ∷ rest) c id row e =
    let (middle, there, last) =
      run-IsFollowed (after t x) rest (after-IsConsistent t x c) id row e in
    let (old, first_there, first) = after-IsFollowed t x c id middle there in
    (old, first_there, Reaches-trans first last)
