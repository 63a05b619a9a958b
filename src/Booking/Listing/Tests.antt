-- ===== src/Booking/Listing/Tests.antt =====
-- The pages of the bookings of a customer, on a concrete table.
use bus_ai_booking.Prelude.{
  ◌≡◌, refl, subst, List, [], ◌∷◌, none, some, map, filter, filter-none, any, arith, String, ℕ,
  false, eq_iff, string_eq, ◌==◌, Bool-cases, inl, inr,
}
use bus_ai_booking.Prelude.Sorting.{text_leb}
use bus_ai_booking.Booking.Types.{BookingRow}
use bus_ai_booking.Booking.Repository.{BookingTables, map_booking}
use bus_ai_booking.Booking.Repository.Rows.{IsKeyed, has_id}
use bus_ai_booking.Booking.Tests.{pending}
use bus_ai_booking.Booking.Listing.{
  newest, is_listed, list_customer_bookings, page_of, page_answer, insert_newest, last_cursor,
  is_before, text_less,
}
use bus_ai_booking.Booking.Listing.Pages.{all_pages, all_pages-newest}

abbrev listed_row : String → ℕ → BookingRow
listed_row id created_at = record pending { id = id; created_at = created_at }

abbrev guest_row : BookingRow
guest_row = record pending { id = "b2"; checkout_owner = record { type = "GUEST"; id = "c1" } }

abbrev later_rows : List BookingRow
later_rows = listed_row "b3" 0 ∷ listed_row "b4" 5 ∷ []

-- Two bookings of one instant, with one of a guest between them, and a later one.
abbrev rows : List BookingRow
rows = listed_row "b1" 0 ∷ guest_row ∷ later_rows

abbrev tables : BookingTables
tables = record {
  bookings = rows;
  passengers = [];
  history = [];
  outbox = [];
  audit = [];
  tickets = [];
  check_ins = [];
}

cons-IsKeyed :
    (x : BookingRow) (xs : List BookingRow)
    → any (has_id x.id) xs ≡ false
    → IsKeyed xs
    → IsKeyed (x ∷ xs)
cons-IsKeyed x xs new keyed id = elim (Bool-cases (x.id == id)) [
  | inl e ↦
      let same : x.id ≡ id = ground (arith, e, eq_iff x.id id) in
      let absent : any (has_id id) xs ≡ false =
        subst (λ (i : String). any (has_id i) xs ≡ false) same new in
      rw e (rw (filter-none (has_id id) xs absent) (omega arith))
  | inr e ↦ rw e (keyed id)
]

rows-IsKeyed : IsKeyed rows
rows-IsKeyed = cons-IsKeyed (listed_row "b1" 0) (guest_row ∷ later_rows) refl (
    cons-IsKeyed guest_row later_rows refl (
      cons-IsKeyed (listed_row "b3" 0) (listed_row "b4" 5 ∷ []) refl
        (cons-IsKeyed (listed_row "b4" 5) [] refl (λ id. omega arith))))

ids_listed :
    map (λ (row : BookingRow). row.id) (newest (filter (is_listed "c1" none) rows))
    ≡ "b4" ∷ "b3" ∷ "b1" ∷ []
unfolding newest insert_newest is_before text_less text_leb
ids_listed = refl

second_page :
    (list_customer_bookings "c1" 2 (some (record { created_at = 5; id = "b4" })) tables).next_cursor
    ≡ none
unfolding list_customer_bookings page_of page_answer newest insert_newest is_before text_less
    text_leb last_cursor
second_page = refl

first_page :
    (list_customer_bookings "c1" 2 none tables).next_cursor
    ≡ some (record { created_at = 0; id = "b3" })
unfolding list_customer_bookings page_of page_answer newest insert_newest is_before text_less
    text_leb last_cursor
first_page = refl

all_pages-newest_example :
    all_pages 4 "c1" 1 none tables
    ≡ map (λ (row : BookingRow). map_booking row []) (newest (filter (is_listed "c1" none) rows))
all_pages-newest_example = all_pages-newest "c1" 1 tables 4 rows-IsKeyed (omega arith) (omega arith)
