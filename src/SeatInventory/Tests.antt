-- ===== src/SeatInventory/Tests.antt =====
-- seat-inventory.service.ts on a trip of two seats.
use bus_ai_booking.Prelude.{
  ℕ, String, ◌≡◌, refl, ◌↔◌, true, false, [], ◌∷◌, none, some, arith, ok, err, Result, string_eq,
  ◌==◌, includes, eq_iff, sym, subst, Bool-cases, inl, inr, false≢true, if◌then◌else◌, ◌≤◌, ap, any,
  find,
}
use bus_ai_booking.Prelude.Digest.{Digest}
use bus_ai_booking.Prelude.Number.{integer_between}
use bus_ai_booking.Prelude.Text.{
  trim, trim_start, trim_end, is_space, in_range, is_key, is_key_char, is_alphanumeric, is_digit,
  is_uuid, matches, is_hex, is_column_uuid, uuid_text, lower_hex, is_seat_number,
}
use bus_ai_booking.Prelude.Sorting.{sort, insert, distinct, sorted_set, text_leb}
use bus_ai_booking.Redis.{get, zrangebyscore}
use bus_ai_booking.SeatState.Types.{booked, SeatStateRow, booking_service}
use bus_ai_booking.SeatState.Tables.{list_by_trip, SeatStateTables, lookup}
use bus_ai_booking.SeatState.Repository.{
  is_request_row, find_confirmation, has_confirmation, has_release,
}
use bus_ai_booking.SeatState.Repository.Confirm.{is_taken_in}
use bus_ai_booking.SeatHold.Types.{HoldOwner, ActiveSeatHold, seat_key_eq}
use bus_ai_booking.SeatHold.Store.{HoldStore, SeatHoldStoreOptions, Call, first_taken, seat_key}
use bus_ai_booking.SeatHold.Scripts.{acquire_script, sweep_tokens}
use bus_ai_booking.SeatHold.Calls.{acquire, get_hold, sweep_expired, get_seat_holds}
use bus_ai_booking.SeatInventory.Types.{
  CatalogSeatDefinition, CatalogTripLayout, CatalogError, HoldSeatsRequest, ValidatedHoldRequest,
  GetSeatMapRequest, SeatHoldView, hold_expired, Digests, Inventory, active,
  ValidatedConfirmRequest, ReleaseBookedSeatsRequest,
}
use bus_ai_booking.SeatInventory.Validation.{
  validate_trip_id, validate_seat_ids, validate_owner, validate_idempotency_key,
  validate_hold_request, validate_release_booked_seats_request,
}
use bus_ai_booking.SeatInventory.SeatMap.{map_get, get_seat_map, is_malformed_token}
use bus_ai_booking.SeatInventory.Holds.{
  HoldDraws, remaining_seconds, to_hold_view, new_hold, hold_seats,
}
use bus_ai_booking.SeatInventory.Durable.{
  ConfirmDraws, confirmation_fingerprint, confirm_input, confirmation_response, confirm_validated,
}
use bus_ai_booking.SeatInventory.Accepts.{validate_seat_ids_iff, IsSeatList}
use bus_ai_booking.SeatState.Repository.Unique.{IsUnique}
use bus_ai_booking.SeatInventory.Confirm.{IsHeldFor, IsBookedFor, confirm_validated_takes}
use bus_ai_booking.SeatInventory.ConfirmErrors.{confirm_validated_refused}
use bus_ai_booking.SeatInventory.MapView.{IsNamed, map_view_of, get_seat_map_refines}
use bus_ai_booking.SeatInventory.Releases.{release_held_seats}
use bus_ai_booking.SeatInventory.RoundTrip.{release_of, confirm_then_release}
use bus_ai_booking.SeatInventory.Flow.{confirm_of, hold_seats_confirmed}

digest_trimmed : trim "d1" ≡ "d1"
unfolding trim trim_start trim_end is_space in_range
digest_trimmed = refl

abbrev digest_of : (A : Type 0) → Digest A
digest_of A = record { hash = λ a. "d1"; hash_trimmed = λ a. digest_trimmed }

abbrev digests : Digests
digests = record {
  hold = digest_of _;
  confirmation = digest_of _;
  booked_release = digest_of _;
  block = digest_of _;
  hold_release = digest_of _;
  token = digest_of _;
}

abbrev options : SeatHoldStoreOptions
options = record {
  idempotency_ttl_seconds = 86400;
  expiry_metadata_retention_seconds = 3600;
  sweep_batch_size = 100;
}

abbrev trip : String
trip = "11111111-1111-4111-8111-111111111111"

abbrev booking : String
booking = "33333333-3333-4333-8333-333333333333"

abbrev call_at : ℕ → Call
call_at now = record { now = now; event_id = "e1"; expiry_event_id = "x1" }

abbrev seat_def : String → CatalogSeatDefinition
seat_def id = record { id = id; label = id; deck = 1; row = 1; column = 1 }

abbrev layout : CatalogTripLayout
layout = record {
  trip_id = trip;
  layout_id = "l1";
  layout_version = 1;
  layout_name = "L";
  deck_count = 1;
  price_vnd = 250000;
  seats = seat_def "A01" ∷ seat_def "A02" ∷ [];
}

abbrev catalog : String → Result CatalogError CatalogTripLayout
catalog id = ok layout

abbrev empty_store : HoldStore
empty_store = record {
  holds = λ k. none;
  seats = λ k. none;
  idempotency = λ k. none;
  releases = λ k. none;
  metadata = λ k. none;
  expiry = [];
  versions = λ k. 0;
  published = [];
}

abbrev start : Inventory
start = record {
  holds = empty_store;
  tables = record { seats = []; confirmations = []; releases = []; commands = [] };
}

abbrev owner : HoldOwner
owner = record { type = "CUSTOMER"; id = "22222222-2222-4222-8222-222222222222" }

abbrev request : HoldSeatsRequest
request = record {
  trip_id = some trip;
  seat_ids = some ("A02" ∷ "A01" ∷ []);
  owner = some owner;
  idempotency_key = some "hold-key-0000000001";
  requested_ttl_seconds = none;
}

abbrev validated : ValidatedHoldRequest
validated = record {
  trip_id = trip;
  seat_ids = "A01" ∷ "A02" ∷ [];
  owner = owner;
  idempotency_key = "hold-key-0000000001";
  ttl_seconds = 300;
}

-- A request for two seats is put in order.
request_is_valid : validate_hold_request request ≡ ok validated
unfolding validate_hold_request validate_trip_id is_uuid matches is_hex in_range is_digit
    validate_seat_ids sorted_set distinct sort insert text_leb is_key is_key_char is_alphanumeric
    validate_owner validate_idempotency_key integer_between
request_is_valid = refl

abbrev draws : HoldDraws
draws = record {
  token = "hold-token-00000001";
  requested_at = 1000;
  call = call_at 1000;
  viewed_at = 1500;
}

abbrev held_view : SeatHoldView
held_view = record {
  hold = new_hold draws validated layout;
  remaining_ttl_seconds = 300;
  status = active;
}

hold_is_granted : (hold_seats digests options catalog draws request start).0 ≡ ok held_view
unfolding hold_seats list_by_trip acquire acquire_script sweep_expired sweep_tokens zrangebyscore
    first_taken get map_get to_hold_view remaining_seconds
hold_is_granted = rw request_is_valid refl

abbrev confirm_draws : ConfirmDraws
confirm_draws = record {
  get_call = call_at 60000;
  confirmed_at = 60001;
  consume_call = call_at 60002;
  reachable = true;
}

validate_seat_ids_iff_example :
    (validate_seat_ids 10 (some ("A02" ∷ "A01" ∷ [])) ≡ ok ("A01" ∷ "A02" ∷ []))
    ↔ (IsSeatList 10 ("A02" ∷ "A01" ∷ []) × (("A01" ∷ "A02" ∷ []) ≡ sort ("A02" ∷ "A01" ∷ [])))
validate_seat_ids_iff_example =
    validate_seat_ids_iff 10 (some ("A02" ∷ "A01" ∷ [])) ("A01" ∷ "A02" ∷ [])

booking_in_lower_case : uuid_text booking ≡ booking
unfolding uuid_text lower_hex
booking_in_lower_case = refl

confirmation_fits :
    is_taken_in
      (confirm_input digests (confirm_of draws validated booking "confirm-key-000001") 60001)
    ≡ true
unfolding confirmation_fingerprint is_request_row is_column_uuid matches is_hex is_key is_key_char
    is_alphanumeric is_digit in_range is_seat_number
confirmation_fits = refl

hold_seats_confirmed_example :
    let cv = confirm_of draws validated booking "confirm-key-000001" in
    (confirm_validated digests options confirm_draws cv
      (hold_seats digests options catalog draws request start).1).0
    ≡ ok (confirmation_response cv 60001)
unfolding get
hold_seats_confirmed_example =
    hold_seats_confirmed digests options catalog draws request validated layout start held_view
      confirm_draws booking "confirm-key-000001" request_is_valid refl refl hold_is_granted refl
      (omega arith) confirmation_fits booking_in_lower_case

booking_is_confirmed :
    (confirm_validated digests options confirm_draws
      (confirm_of draws validated booking "confirm-key-000001")
      (hold_seats digests options catalog draws request start).1).0
    ≡ ok (confirmation_response (confirm_of draws validated booking "confirm-key-000001") 60001)
unfolding get
booking_is_confirmed =
    hold_seats_confirmed digests options catalog draws request validated layout start held_view
      confirm_draws booking "confirm-key-000001" request_is_valid refl refl hold_is_granted refl
      (omega arith) confirmation_fits booking_in_lower_case

abbrev held : Inventory
held = (hold_seats digests options catalog draws request start).1

abbrev confirm : ValidatedConfirmRequest
confirm = confirm_of draws validated booking "confirm-key-000001"

held_is_new : find_confirmation booking "confirm-key-000001" held.tables ≡ none
unfolding hold_seats list_by_trip acquire acquire_script sweep_expired sweep_tokens zrangebyscore
    first_taken get map_get to_hold_view remaining_seconds find_confirmation
held_is_new = rw (held, request_is_valid) refl

confirm_validated_takes_example :
    (hold : ActiveSeatHold) × IsHeldFor 60000 confirm held.holds hold
    × ((seat_id : String)
        → includes hold.seat_ids seat_id ≡ true
        → IsBookedFor booking trip
            (confirm_validated digests options confirm_draws confirm held).1.tables
            seat_id)
    × ((m : ℕ)
        → true ≡ true
        → 60000 ≤ 60002
        → 60002 ≤ m
        → get m "hold-token-00000001"
            (confirm_validated digests options confirm_draws confirm held).1.holds.holds
          ≡ none)
confirm_validated_takes_example =
    confirm_validated_takes digests confirm_draws confirm options held
      (confirmation_response confirm 60001) held_is_new booking_is_confirmed

confirm_is_refused :
    (confirm_validated digests options confirm_draws confirm start).0 ≡ err hold_expired
unfolding confirm_validated find_confirmation get_hold sweep_expired sweep_tokens zrangebyscore get
confirm_is_refused = refl

confirm_validated_refused_example :
    ((confirm_validated digests options confirm_draws confirm start).1.tables ≡ start.tables)
    × ((confirm_validated digests options confirm_draws confirm start).1.holds.holds
        ≡ start.holds.holds)
confirm_validated_refused_example =
    confirm_validated_refused digests confirm_draws confirm options start hold_expired
      confirm_is_refused

-- One seat booked, the other held.
abbrev booked_row : SeatStateRow
booked_row = record {
  trip_id = trip;
  seat_id = "A01";
  status = booked;
  booking_id = some "b0";
  reason = none;
  updated_by_actor = booking_service "b0";
  updated_at = 0;
}

abbrev mixed : Inventory
mixed = record {
  holds = record empty_store {
    seats = λ k.
        if k == seat_key trip "A02"
        then some (record { value = "hold-token-00000001"; deadline = 301000 })
        else none;
  };
  tables = record { seats = booked_row ∷ []; confirmations = []; releases = []; commands = [] };
}

abbrev map_request : GetSeatMapRequest
map_request = record { trip_id = some trip; hold_token = some "hold-token-00000001" }

trip_is_valid : validate_trip_id (some trip) ≡ ok trip
unfolding validate_trip_id is_uuid matches is_hex in_range is_digit
trip_is_valid = refl

mixed-IsUnique : IsUnique (booked_row ∷ [])
mixed-IsUnique trip_id seat_id = ground arith

token_is_formed : is_malformed_token (some "hold-token-00000001") ≡ false
unfolding is_key is_key_char is_alphanumeric is_digit in_range
token_is_formed = refl

some_same : {a b : String} → some a ≡ some b → a ≡ b
some_same e = ground (arith, e)

name_of : (seat : String) → includes ("A01" ∷ "A02" ∷ []) seat ≡ true → (seat == "") ≡ false
name_of seat i = elim (Bool-cases (seat == "")) [
  | inr e ↦ e
  | inl e ↦
      let empty : seat ≡ "" = ground (arith, e, eq_iff seat "") in
      absurd (false≢true (subst (λ (x : String). includes ("A01" ∷ "A02" ∷ []) x ≡ true) empty i))
]

holder_of :
    (seat holder : String)
    → get 2000 (seat_key trip seat) mixed.holds.seats ≡ some holder
    → (holder == "") ≡ false
unfolding get
holder_of seat holder = elim (Bool-cases (seat == "A02")) [
  | inl same ↦ rw same (λ e. rw (sym (some_same e)) refl)
  | inr other ↦ rw other (λ e. absurd (ground (arith, e)))
]

mixed-IsNamed :
    IsNamed 2000 trip
      ("A01" ∷ "A02" ∷ [])
      (get_seat_map options (call_at 2000) 2000 catalog map_request mixed).1.holds
unfolding get_seat_map get_seat_holds sweep_expired sweep_tokens zrangebyscore get
mixed-IsNamed =
    rw trip_is_valid
      (rw token_is_formed (λ seat i. (name_of seat i, λ holder e. holder_of seat holder e)))

get_seat_map_refines_example :
    (get_seat_map options (call_at 2000) 2000 catalog map_request mixed).0
    ≡ ok (
        map_view_of layout 2000 trip
          (some "hold-token-00000001")
          2000
          (get_seat_map options (call_at 2000) 2000 catalog map_request mixed).1)
get_seat_map_refines_example =
    get_seat_map_refines options (call_at 2000) 2000 catalog map_request mixed trip layout
      trip_is_valid token_is_formed refl mixed-IsUnique mixed-IsNamed

abbrev release_request : ReleaseBookedSeatsRequest
release_request = record {
  booking_id = some booking;
  trip_id = some trip;
  seat_ids = some ("A01" ∷ "A02" ∷ []);
  idempotency_key = some "release-key-000001";
}

release_is_valid :
    validate_release_booked_seats_request release_request
    ≡ ok (release_of confirm "release-key-000001")
unfolding validate_release_booked_seats_request validate_trip_id is_uuid matches is_hex in_range
    is_digit validate_seat_ids sorted_set distinct sort insert text_leb is_key is_key_char
    is_alphanumeric validate_idempotency_key
release_is_valid = refl

held_tables : held.tables ≡ start.tables
unfolding hold_seats list_by_trip acquire acquire_script sweep_expired sweep_tokens zrangebyscore
    first_taken get map_get to_hold_view remaining_seconds
held_tables = rw (held, request_is_valid) refl

confirm_then_release_example :
    ((release_held_seats digests
        (call_at 90000)
        90000
        true
        release_request
        (confirm_validated digests options confirm_draws confirm held).1).0
      ≡ ok (record {
        released = true;
        booking_id = booking;
        trip_id = trip;
        seat_ids = "A01" ∷ "A02" ∷ [];
        released_at = 90000;
      }))
    × ((release_held_seats digests
          (call_at 90000)
          90000
          true
          release_request
          (confirm_validated digests options confirm_draws confirm held).1).1.tables.seats
        ≡ held.tables.seats)
unfolding lookup
confirm_then_release_example =
    confirm_then_release digests options confirm_draws confirm held
      (confirmation_response confirm 60001) "release-key-000001" 90000 (call_at 90000) true
      release_request (refl, (refl, tt))
      (λ seat_id i. ap (λ (t : SeatStateTables). lookup trip seat_id t.seats) held_tables)
      (ap
        (λ (t : SeatStateTables).
          any (has_confirmation booking "confirm-key-000001") t.confirmations)
        held_tables)
      (ap (λ (t : SeatStateTables). find (has_release booking) t.releases) held_tables)
      booking_is_confirmed release_is_valid
