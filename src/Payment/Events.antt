-- ===== src/Payment/Events.antt =====
-- services/payment-service/src/payment.events.ts: the event of an attempt and its message headers.
-- What the process draws (ids, the trace, the time) is the record `Drawn`.
use bus_ai_booking.Prelude.{
  ℕ, String, List, ◌∷◌, Option, none, some, ◌==◌, string_eq, if◌then◌else◌,
}
use bus_ai_booking.Payment.Types.{
  PaymentOwner, RequestedPaymentOutcome, PaymentAttemptStatus, PersistPaymentAttemptInput,
}

pub data ActorCategory : Type 0 where
  guest customer : ActorCategory

pub record PaymentAttemptedPayload : Type 0 where
  pub payment_attempt_id : String
  pub booking_id : String
  pub requested_outcome : RequestedPaymentOutcome
  pub status : PaymentAttemptStatus
  pub amount_vnd : ℕ
  pub failure_code : Option String

pub record PaymentAttempted : Type 0 where
  pub event_id : String
  pub occurred_at : ℕ
  pub trace_id : String
  pub request_id : String
  pub aggregate_id : String
  pub actor_category : ActorCategory
  pub checkout_session_id : Option String
  pub payload : PaymentAttemptedPayload

pub record PaymentEventDispatch : Type 0 where
  pub event : PaymentAttempted
  pub headers : List (String × String)

-- What a call draws from the process: random ids, the clock, and the context of its trace.
pub record Drawn : Type 0 where
  pub attempt_id : String
  pub event_id : String
  pub trace_id : String
  pub event_request_id : String
  pub propagation_headers : List (String × String)
  pub now : ℕ

abbrev pub actor_name : ActorCategory → String
actor_name guest = "GUEST"
actor_name customer = "CUSTOMER"

unfoldable pub actor_category : PaymentOwner → ActorCategory
actor_category owner = if owner.type == "GUEST_SESSION" then guest else customer

unfoldable pub create_payment_attempted_dispatch :
    Drawn → PersistPaymentAttemptInput → PaymentEventDispatch
unfolding actor_category
create_payment_attempted_dispatch d attempt =
    let category = actor_category attempt.request.owner in
    record {
      event = record {
        event_id = d.event_id;
        occurred_at = attempt.created_at;
        trace_id = d.trace_id;
        request_id = d.event_request_id;
        aggregate_id = attempt.request.booking_id;
        actor_category = category;
        checkout_session_id =
            if attempt.request.owner.type == "GUEST_SESSION"
            then some attempt.request.owner.id
            else none;
        payload = record {
          payment_attempt_id = attempt.id;
          booking_id = attempt.request.booking_id;
          requested_outcome = attempt.request.requested_outcome;
          status = attempt.status;
          amount_vnd = attempt.request.amount_vnd;
          failure_code = attempt.failure_code;
        };
      };
      headers =
          ("eventId", d.event_id)
          ∷ ("eventType", "PaymentAttemptedV1")
          ∷ ("eventVersion", "1")
          ∷ ("traceId", d.trace_id)
          ∷ ("requestId", d.event_request_id)
          ∷ ("producer", "payment-service")
          ∷ ("aggregateId", attempt.request.booking_id)
          ∷ ("actorCategory", actor_name category)
          ∷ ("actorId", attempt.request.owner.id)
          ∷ d.propagation_headers;
    }
