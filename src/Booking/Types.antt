-- ===== src/Booking/Types.antt =====
-- services/booking-service/src/booking.types.ts and the rows of booking.repository.ts, with the columns
-- of the migrations. Instants are milliseconds; the random ids of rows that nothing reads are left out.
use bus_ai_booking.Prelude.{ℕ, String, Bool, true, false, Option, List, string_eq}

pub data BookingStatus : Type 0 where
  draft pending_payment paid ticket_issued checked_in completed expired cancelled : BookingStatus

abbrev pub is_pending_payment : BookingStatus → Bool
is_pending_payment pending_payment = true
is_pending_payment _ = false

abbrev pub is_paid : BookingStatus → Bool
is_paid paid = true
is_paid _ = false

abbrev pub is_ticket_issued : BookingStatus → Bool
is_ticket_issued ticket_issued = true
is_ticket_issued _ = false

-- `before.status === 'PAID' || before.status === 'TICKET_ISSUED'`
abbrev pub is_cancellable : BookingStatus → Bool
is_cancellable paid = true
is_cancellable ticket_issued = true
is_cancellable _ = false

abbrev pub is_cancelled : BookingStatus → Bool
is_cancelled cancelled = true
is_cancelled _ = false

pub record CheckoutOwner : Type 0 where
  pub type : String
  pub id : String

pub record BookingActor : Type 0 where
  pub type : String
  pub id : String

pub record BookingContact : Type 0 where
  pub full_name : String
  pub email : String
  pub phone : String

pub record BookingTripSnapshot : Type 0 where
  pub trip_id : String
  pub route_id : String
  pub route_code : String
  pub operator_name : String
  pub vehicle_type_name : String
  pub vehicle_code : String
  pub vehicle_plate : String
  pub origin_name : String
  pub destination_name : String
  pub pickup_name : String
  pub dropoff_name : String
  pub departure_at : ℕ
  pub arrival_at : ℕ
  pub timezone : String
  pub unit_price_vnd : ℕ

pub record BookingPassenger : Type 0 where
  pub id : String
  pub seat_id : String
  pub full_name : String
  pub phone : Option String
  pub has_document_number : Bool

pub record BookingView : Type 0 where
  pub id : String
  pub booking_code : String
  pub status : BookingStatus
  pub trip : BookingTripSnapshot
  pub contact : BookingContact
  pub passengers : List BookingPassenger
  pub total_price_vnd : ℕ
  pub hold_expires_at : ℕ
  pub created_at : ℕ

pub record BookingPaymentRecord : Type 0 where
  pub booking : BookingView
  pub hold_token : String
  pub paid_payment_attempt_id : Option String
  pub payment_idempotency_key : Option String
  pub paid_at : Option ℕ
  pub cancelled_at : Option ℕ
  pub cancellation_idempotency_key : Option String
  pub cancellation_policy_code : Option String
  pub cancellation_seats_released_at : Option ℕ

-- A row of booking.bookings.
pub record BookingRow : Type 0 where
  pub id : String
  pub booking_code : String
  pub status : BookingStatus
  pub checkout_owner : CheckoutOwner
  pub idempotency_key : String
  pub request_fingerprint : String
  pub hold_token : String
  pub hold_expires_at : ℕ
  pub contact : BookingContact
  pub normalized_email : String
  pub trip : BookingTripSnapshot
  pub seat_count : ℕ
  pub total_price_vnd : ℕ
  pub paid_payment_attempt_id : Option String
  pub payment_idempotency_key : Option String
  pub paid_at : Option ℕ
  pub expired_at : Option ℕ
  pub cancelled_at : Option ℕ
  pub cancellation_idempotency_key : Option String
  pub cancellation_policy_code : Option String
  pub cancellation_seats_released_at : Option ℕ
  pub created_at : ℕ
  pub updated_at : ℕ

-- A row of booking.passengers, as it is read.
pub record PassengerRow : Type 0 where
  pub booking_id : String
  pub passenger : BookingPassenger

-- A row of booking.status_history.
pub record StatusHistoryRow : Type 0 where
  pub booking_id : String
  pub from_status : Option BookingStatus
  pub to_status : BookingStatus
  pub actor : BookingActor
  pub occurred_at : ℕ

-- A row of booking.operational_audit.
pub record OperationalAuditRow : Type 0 where
  pub action : String
  pub target_type : String
  pub target_id : String
  pub trip_id : String
  pub actor_id : String
  pub actor_role : String
  pub request_id : String
  pub trace_id : String
  pub occurred_at : ℕ

pub record OperationalAuditContext : Type 0 where
  pub actor_id : String
  pub actor_role : String
  pub request_id : String
  pub trace_id : String
