-- ===== src/Booking/Outbox.antt =====
-- The insert of services/booking-service/src/booking-outbox.repository.ts: which messages an event of
-- a booking makes.
use bus_ai_booking.Prelude.{
  ℕ, String, Bool, true, false, ◌&&◌, List, [], ◌∷◌, ◌++◌, any, ◌==◌, string_eq, if◌then◌else◌,
}

pub data BookingEventType : Type 0 where
  booking_created booking_paid booking_cancelled booking_expired : BookingEventType

-- What the repositories use of an event of packages/contracts-events.
pub record BookingDomainEvent : Type 0 where
  pub event_id : String
  pub event_type : BookingEventType
  pub aggregate_id : String
  pub trip_id : String
  pub occurred_at : ℕ

pub data OutboxDestination : Type 0 where
  rabbitmq kafka : OutboxDestination

abbrev pub same_destination : OutboxDestination → OutboxDestination → Bool
same_destination rabbitmq rabbitmq = true
same_destination kafka kafka = true
same_destination _ _ = false

-- Where a message goes: the destination and the key of the message.
pub record DeliveryTarget : Type 0 where
  pub destination : OutboxDestination
  pub message_key : String

pub record OutboxRow : Type 0 where
  pub event : BookingDomainEvent
  pub target : DeliveryTarget

abbrev rabbit_target : String → DeliveryTarget
rabbit_target key = record { destination = rabbitmq; message_key = key }

abbrev kafka_target : BookingDomainEvent → DeliveryTarget
kafka_target event = record { destination = kafka; message_key = event.aggregate_id }

abbrev targets_of : BookingEventType → DeliveryTarget → List DeliveryTarget
targets_of booking_created to_kafka = to_kafka ∷ []
targets_of booking_paid to_kafka = rabbit_target "booking.paid.v1" ∷ to_kafka ∷ []
targets_of booking_cancelled to_kafka = rabbit_target "booking.cancelled.v1" ∷ to_kafka ∷ []
targets_of booking_expired to_kafka = rabbit_target "booking.expired.v1" ∷ to_kafka ∷ []

unfoldable pub delivery_targets : BookingDomainEvent → List DeliveryTarget
delivery_targets event = targets_of event.event_type (kafka_target event)

-- `ON CONFLICT ON CONSTRAINT booking_outbox_event_destination_key DO NOTHING`
unfoldable pub insert_message :
    BookingDomainEvent → DeliveryTarget → List OutboxRow → List OutboxRow
insert_message event target rows =
    if any
      (λ (row : OutboxRow).
        row.event.event_id == event.event_id
        && same_destination row.target.destination target.destination)
      rows
    then rows
    else rows ++ record { event = event; target = target } ∷ []

unfoldable pub insert_messages :
    BookingDomainEvent → List DeliveryTarget → List OutboxRow → List OutboxRow
unfolding insert_message
insert_messages event [] rows = rows
insert_messages event (target ∷ rest) rows =
    insert_messages event rest (insert_message event target rows)

unfoldable pub enqueue_booking_event : BookingDomainEvent → List OutboxRow → List OutboxRow
unfolding insert_messages
enqueue_booking_event event rows = insert_messages event (delivery_targets event) rows
