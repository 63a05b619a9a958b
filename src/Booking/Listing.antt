-- ===== src/Booking/Listing.antt =====
-- The pages of `listCustomerBookings` in services/booking-service/src/booking.repository.ts.
pub mod Order
pub mod Cursors
pub mod Pages
mod Tests
use bus_ai_booking.Prelude.{
  ℕ, zero, suc, String, ◌+◌, Bool, true, false, not, ◌&&◌, ◌||◌, Option, none, some, List, [], ◌∷◌,
  ◌++◌, map, filter, take, length, ltb, ◌==◌, string_eq, ℕ_eq, if◌then◌else◌,
}
use bus_ai_booking.Prelude.Sorting.{text_leb}
use bus_ai_booking.Booking.Types.{BookingRow, BookingView, PassengerRow}
use bus_ai_booking.Booking.Repository.{BookingTables, map_booking}

pub record BookingHistoryCursor : Type 0 where
  pub created_at : ℕ
  pub id : String

pub record CustomerBookingPage : Type 0 where
  pub bookings : List BookingView
  pub next_cursor : Option BookingHistoryCursor

-- `<` of two ids; ids of bookings are UUIDs, which PostgreSQL compares as their texts in lower case.
unfoldable pub text_less : String → String → Bool
text_less a b = text_leb a b && not (a == b)

-- `(created_at, id) < ($3, $4)`
unfoldable pub is_before : BookingHistoryCursor → BookingRow → Bool
is_before c row =
    ltb row.created_at c.created_at || row.created_at == c.created_at && text_less row.id c.id

abbrev pub cursor_of : BookingRow → BookingHistoryCursor
cursor_of row = record { created_at = row.created_at; id = row.id }

-- `ORDER BY created_at DESC, id DESC`, by insertion.
unfoldable pub insert_newest : BookingRow → List BookingRow → List BookingRow
insert_newest a [] = a ∷ []
insert_newest a (x ∷ xs) =
    let rest = insert_newest a xs in if is_before (cursor_of a) x then a ∷ x ∷ xs else x ∷ rest

unfoldable pub newest : List BookingRow → List BookingRow
newest [] = []
newest (x ∷ xs) = insert_newest x (newest xs)

abbrev pub is_after_cursor : Option BookingHistoryCursor → BookingRow → Bool
is_after_cursor none row = true
is_after_cursor (some c) row = is_before c row

-- The WHERE: the bookings of the customer, and from the cursor on.
abbrev pub is_listed : String → Option BookingHistoryCursor → BookingRow → Bool
is_listed customer_id cursor row =
    row.checkout_owner.type == "CUSTOMER"
    && (row.checkout_owner.id == customer_id && is_after_cursor cursor row)

-- `rows.at(-1)`, as a cursor
unfoldable pub last_cursor : List BookingRow → Option BookingHistoryCursor
last_cursor [] = none
last_cursor (x ∷ []) = some (cursor_of x)
last_cursor (x ∷ y ∷ ys) = last_cursor (y ∷ ys)

-- What is returned: `last` is there where `hasNextPage` is.
unfoldable pub page_answer : List PassengerRow → List BookingRow → Bool → CustomerBookingPage
page_answer passengers rows has_next_page = record {
  bookings = map (λ (row : BookingRow). map_booking row passengers) rows;
  next_cursor = if has_next_page then last_cursor rows else none;
}

-- The page of the rows that are listed.
unfoldable pub page_of : ℕ → List PassengerRow → List BookingRow → CustomerBookingPage
page_of page_size passengers listed =
    let rows = take (page_size + 1) listed in
    page_answer passengers (take page_size rows) (ltb page_size (length rows))

-- `listCustomerBookings`
unfoldable pub list_customer_bookings :
    String → ℕ → Option BookingHistoryCursor → BookingTables → CustomerBookingPage
list_customer_bookings customer_id page_size cursor t =
    page_of page_size t.passengers (newest (filter (is_listed customer_id cursor) t.bookings))
