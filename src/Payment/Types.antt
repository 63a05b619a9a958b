-- ===== src/Payment/Types.antt =====
-- services/payment-service/src/payment.types.ts and the table payment.attempts, with the outbox rows
-- of the service. Instants are milliseconds.
use bus_ai_booking.Prelude.{ℕ, String, Bool, true, false, Option}
use bus_ai_booking.Prelude.Number.{Number}

pub record PaymentOwner : Type 0 where
  pub type : String
  pub id : String

pub data RequestedPaymentOutcome : Type 0 where
  success failure : RequestedPaymentOutcome

pub data PaymentAttemptStatus : Type 0 where
  succeeded failed : PaymentAttemptStatus

abbrev pub is_succeeded : PaymentAttemptStatus → Bool
is_succeeded succeeded = true
is_succeeded failed = false

pub record PaymentAttemptView : Type 0 where
  pub id : String
  pub booking_id : String
  pub status : PaymentAttemptStatus
  pub amount_vnd : ℕ
  pub failure_code : Option String
  pub created_at : ℕ

pub record CreatePaymentAttemptRequest : Type 0 where
  pub booking_id : Option String
  pub owner : Option PaymentOwner
  pub amount_vnd : Option Number
  pub requested_outcome : Option String
  pub idempotency_key : Option String
  pub request_id : Option String

pub record ValidatedPaymentAttemptRequest : Type 0 where
  pub booking_id : String
  pub owner : PaymentOwner
  pub amount_vnd : ℕ
  pub requested_outcome : RequestedPaymentOutcome
  pub idempotency_key : String
  pub request_fingerprint : String

pub record PersistPaymentAttemptInput : Type 0 where
  pub request : ValidatedPaymentAttemptRequest
  pub id : String
  pub status : PaymentAttemptStatus
  pub failure_code : Option String
  pub created_at : ℕ
  pub request_id : Option String

-- A row of payment.attempts.
pub record PaymentAttemptRow : Type 0 where
  pub id : String
  pub booking_id : String
  pub owner : PaymentOwner
  pub amount_vnd : ℕ
  pub requested_outcome : RequestedPaymentOutcome
  pub status : PaymentAttemptStatus
  pub failure_code : Option String
  pub idempotency_key : String
  pub request_fingerprint : String
  pub created_at : ℕ

pub record PaymentAttemptRecord : Type 0 where
  pub attempt : PaymentAttemptView
  pub request_fingerprint : String

-- What the fingerprint of a request is taken of.
pub record FingerprintSource : Type 0 where
  pub booking_id : String
  pub owner : PaymentOwner
  pub amount_vnd : ℕ
  pub requested_outcome : RequestedPaymentOutcome
