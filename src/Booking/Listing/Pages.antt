-- ===== src/Booking/Listing/Pages.antt =====
-- The pages of the bookings of a customer, one after another.
use bus_ai_booking.Prelude.{
  ℕ, zero, suc, String, ◌+◌, ◌≤◌, ◌≡◌, refl, sym, ap, ◌∙◌, Bool, true, false, Option, none, some,
  List, [], ◌∷◌, ◌++◌, map, append-nil, filter, take, length, arith, ltb, string_eq,
}
use bus_ai_booking.Booking.Types.{BookingRow, BookingView, PassengerRow}
use bus_ai_booking.Booking.Repository.{BookingTables, map_booking}
use bus_ai_booking.Booking.Repository.Rows.{IsKeyed}
use bus_ai_booking.Booking.Listing.{
  BookingHistoryCursor, cursor_of, newest, is_listed, last_cursor, page_answer, page_of,
  list_customer_bookings,
}
use bus_ai_booking.Booking.Listing.Order.{length-newest, newest-IsDescending, newest-filter}
use bus_ai_booking.Booking.Listing.Cursors.{drop, length-drop, take_all, listed, listed_next}

-- What a client goes on to read.
abbrev go_on :
    (BookingHistoryCursor → List BookingView) → Option BookingHistoryCursor → List BookingView
go_on next none = []
go_on next (some c) = next c

-- What a client reads that asks for a page, and then for the next one as long as there is a cursor.
unfoldable pub all_pages :
    ℕ → String → ℕ → Option BookingHistoryCursor → BookingTables → List BookingView
all_pages zero customer_id page_size cursor t = []
all_pages (suc fuel) customer_id page_size cursor t =
    let page = list_customer_bookings customer_id page_size cursor t in
    page.bookings
    ++ go_on (λ (c : BookingHistoryCursor). all_pages fuel customer_id page_size (some c) t)
        page.next_cursor

last_cursor-some :
    (n : ℕ) (x : BookingRow) (xs : List BookingRow)
    → (c : BookingHistoryCursor) × (last_cursor (take (suc n) (x ∷ xs)) ≡ some c)
unfolding last_cursor
last_cursor-some zero x xs = (cursor_of x, refl)
last_cursor-some (suc n) x [] = (cursor_of x, refl)
last_cursor-some (suc n) x (y ∷ ys) = last_cursor-some n y ys

-- A page with a next cursor has a row.
length-drop-last_cursor :
    (n : ℕ) (xs : List BookingRow) (c : BookingHistoryCursor)
    → last_cursor (take n xs) ≡ some c
    → length (drop n xs) + 1 ≤ length xs
unfolding last_cursor
length-drop-last_cursor zero xs c h = absurd (ground (arith, h))
length-drop-last_cursor (suc n) [] c h = absurd (ground (arith, h))
length-drop-last_cursor (suc n) (x ∷ xs) c h = ground (arith, length-drop n xs)

map-take-drop :
    (f : BookingRow → BookingView) (n : ℕ) (xs : List BookingRow)
    → map f (take n xs) ++ map f (drop n xs) ≡ map f xs
map-take-drop f zero xs = refl
map-take-drop f (suc n) [] = refl
map-take-drop f (suc n) (x ∷ xs) = ap (λ (ys : List BookingView). f x ∷ ys) (map-take-drop f n xs)

take-take : (n : ℕ) (xs : List BookingRow) → take n (take (suc n) xs) ≡ take n xs
take-take zero xs = refl
take-take (suc n) [] = refl
take-take (suc n) (x ∷ xs) = ap (λ (ys : List BookingRow). x ∷ ys) (take-take n xs)

page_of_answered :
    (n : ℕ) (passengers : List PassengerRow) (xs : List BookingRow)
    → page_of n passengers xs
      ≡ page_answer passengers (take n xs) (ltb n (length (take (suc n) xs)))
unfolding page_of
page_of_answered n passengers xs =
    let size : n + 1 ≡ suc n = omega arith in
    rw size (
      ap
        (λ (rows : List BookingRow). page_answer passengers rows (ltb n (length (take (suc n) xs))))
        (take-take n xs))

-- A page and what follows it are the whole list.
answer_then :
    (n : ℕ) (passengers : List PassengerRow) (x : BookingRow) (xs : List BookingRow) (more : Bool)
    (next : BookingHistoryCursor → List BookingView)
    → ltb (suc n) (length (take (suc (suc n)) (x ∷ xs))) ≡ more
    → ((c : BookingHistoryCursor)
        → last_cursor (take (suc n) (x ∷ xs)) ≡ some c
        → next c ≡ map (λ (row : BookingRow). map_booking row passengers) (drop (suc n) (x ∷ xs)))
    → (page_answer passengers (take (suc n) (x ∷ xs)) more).bookings
        ++ go_on next (page_answer passengers (take (suc n) (x ∷ xs)) more).next_cursor
      ≡ map (λ (row : BookingRow). map_booking row passengers) (x ∷ xs)
unfolding page_answer
answer_then n passengers x xs true next e h =
    let end = last_cursor-some n x xs in
    rw end.1 (
      rw (h end.0 end.1)
        (map-take-drop (λ (row : BookingRow). map_booking row passengers) (suc n) (x ∷ xs)))
answer_then n passengers x xs false next e h =
    append-nil (map (λ (row : BookingRow). map_booking row passengers) (take (suc n) (x ∷ xs)))
    ∙ ap (map (λ (row : BookingRow). map_booking row passengers)) (take_all (suc n) (x ∷ xs) e)

answer_none :
    (passengers : List PassengerRow) (more : Bool) (next : BookingHistoryCursor → List BookingView)
    → (page_answer passengers [] more).bookings
        ++ go_on next (page_answer passengers [] more).next_cursor
      ≡ []
unfolding page_answer last_cursor
answer_none passengers true next = refl
answer_none passengers false next = refl

page_then :
    (n : ℕ) (passengers : List PassengerRow) (xs : List BookingRow)
    (next : BookingHistoryCursor → List BookingView)
    → ((c : BookingHistoryCursor)
        → last_cursor (take (suc n) xs) ≡ some c
        → next c ≡ map (λ (row : BookingRow). map_booking row passengers) (drop (suc n) xs))
    → (page_of (suc n) passengers xs).bookings
        ++ go_on next (page_of (suc n) passengers xs).next_cursor
      ≡ map (λ (row : BookingRow). map_booking row passengers) xs
unfolding page_answer
page_then n passengers [] next h =
    rw (page_of_answered (suc n) passengers []) (answer_none passengers (ltb (suc n) 0) next)
page_then n passengers (x ∷ xs) next h =
    rw (page_of_answered (suc n) passengers (x ∷ xs)) (
      answer_then n passengers x xs (ltb (suc n) (length (take (suc (suc n)) (x ∷ xs)))) next refl
        h)

empty : (xs : List BookingRow) → length xs ≤ 0 → xs ≡ []
empty [] h = refl
empty (x ∷ xs) h = absurd (ground (arith, h))

length-filter : (p : BookingRow → Bool) (xs : List BookingRow) → length (filter p xs) ≤ length xs
length-filter p [] = omega arith
length-filter p (x ∷ xs) = ground (arith, length-filter p xs)

module _ (customer_id : String) (n : ℕ) (t : BookingTables) (keyed : IsKeyed t.bookings) where
  abbrev view : BookingRow → BookingView
  view row = map_booking row t.passengers

  all_pages-from :
      (fuel : ℕ) (cursor : Option BookingHistoryCursor)
      → length (listed customer_id (newest t.bookings) cursor) ≤ fuel
      → all_pages fuel customer_id (suc n) cursor t
        ≡ map view (listed customer_id (newest t.bookings) cursor)
  unfolding all_pages list_customer_bookings
  all_pages-from zero cursor enough =
      ap (map view) (sym (empty (listed customer_id (newest t.bookings) cursor) enough))
  all_pages-from (suc fuel) cursor enough =
      rw (newest-filter (is_listed customer_id cursor) t.bookings keyed) (
        page_then n t.passengers (listed customer_id (newest t.bookings) cursor)
          (λ c. all_pages fuel customer_id (suc n) (some c) t)
          (λ c last.
            let rest =
              listed_next customer_id (newest t.bookings) (suc n) cursor c
                (newest-IsDescending t.bookings keyed) last in
            let less : length (listed customer_id (newest t.bookings) (some c)) ≤ fuel = ground (
              arith,
              enough,
              ap length rest,
              length-drop-last_cursor (suc n) (listed customer_id (newest t.bookings) cursor) c
                  last,
            ) in
            all_pages-from fuel (some c) less ∙ ap (map view) rest))

-- Where no two bookings have one id, a page has room for a booking, and a client may read as many
-- pages as there are bookings, a client that lists a customer's bookings from no cursor and then from
-- each cursor that it is given reads exactly the customer's bookings, newest first: between two pages
-- none is skipped and none comes again, also where bookings are of one instant.
pub all_pages-newest :
    (customer_id : String) (page_size : ℕ) (t : BookingTables) (fuel : ℕ)
    → IsKeyed t.bookings
    → 1 ≤ page_size
    → length t.bookings ≤ fuel
    → all_pages fuel customer_id page_size none t
      ≡ map
          (λ (row : BookingRow). map_booking row t.passengers)
          (newest (filter (is_listed customer_id none) t.bookings))
all_pages-newest customer_id zero t fuel keyed room enough = absurd (ground (arith, room))
all_pages-newest customer_id (suc n) t fuel keyed room enough =
    rw (newest-filter (is_listed customer_id none) t.bookings keyed) (
      all_pages-from customer_id n t keyed fuel none (
        ground (
          arith,
          enough,
          length-newest t.bookings,
          length-filter (is_listed customer_id none) (newest t.bookings),
        )))
