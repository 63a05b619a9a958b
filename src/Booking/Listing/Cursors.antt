-- ===== src/Booking/Listing/Cursors.antt =====
-- What the cursor of a page leaves of the listed bookings: the rows that follow the page.
use bus_ai_booking.Prelude.{
  ℕ, zero, suc, String, ◌≤◌, ◌≡◌, refl, sym, ap, ◌∙◌, subst, Bool, true, false, ◌&&◌, Option, none,
  some, List, [], ◌∷◌, filter, take, length, All, arith, ltb, string_eq, Bool-cases, inl, inr,
}
use bus_ai_booking.Booking.Types.{BookingRow}
use bus_ai_booking.Booking.Boarding.{some_same}
use bus_ai_booking.Booking.Listing.{
  BookingHistoryCursor, is_before, cursor_of, is_after_cursor, is_listed, last_cursor,
}
use bus_ai_booking.Booking.Listing.Order.{
  is_before_trans, is_before_asym, is_before_irrefl, IsDescending, filter-All,
}

abbrev pub drop : ℕ → List BookingRow → List BookingRow
drop zero xs = xs
drop (suc n) [] = []
drop (suc n) (x ∷ xs) = drop n xs

pub length-drop : (n : ℕ) (xs : List BookingRow) → length (drop n xs) ≤ length xs
length-drop zero xs = ground arith
length-drop (suc n) [] = ground arith
length-drop (suc n) (x ∷ xs) = ground (arith, length-drop n xs)

-- There is no next page where the page is the whole list.
pub take_all :
    (n : ℕ) (xs : List BookingRow) → ltb n (length (take (suc n) xs)) ≡ false → take n xs ≡ xs
take_all zero [] h = refl
take_all zero (x ∷ xs) h = absurd (ground (arith, h))
take_all (suc n) [] h = refl
take_all (suc n) (x ∷ xs) h =
    ap (λ (ys : List BookingRow). x ∷ ys) (take_all n xs (ground (arith, h)))

-- The last row of a page has what all rows have.
last_cursor-All {κ} :
    (P : BookingHistoryCursor → Type κ) (n : ℕ) (xs : List BookingRow) (c : BookingHistoryCursor)
    → last_cursor (take n xs) ≡ some c
    → All (λ (y : BookingRow). P (cursor_of y)) xs
    → P c
unfolding last_cursor
last_cursor-All P zero xs c h all = absurd (ground (arith, h))
last_cursor-All P (suc n) [] c h all = absurd (ground (arith, h))
last_cursor-All P (suc zero) (x ∷ xs) c h (p, ps) = subst P (some_same h) p
last_cursor-All P (suc (suc n)) (x ∷ []) c h (p, ps) = subst P (some_same h) p
last_cursor-All P (suc (suc n)) (x ∷ y ∷ ys) c h (p, ps) = last_cursor-All P (suc n) (y ∷ ys) c h ps

filter-full :
    (p : BookingRow → Bool) (xs : List BookingRow)
    → All (λ (y : BookingRow). p y ≡ true) xs
    → filter p xs ≡ xs
filter-full p [] h = refl
filter-full p (x ∷ xs) (h, hs) = rw h (ap (λ (ys : List BookingRow). x ∷ ys) (filter-full p xs hs))

filter_first :
    (x : BookingRow) (xs : List BookingRow)
    → All (λ (y : BookingRow). is_before (cursor_of x) y ≡ true) xs
    → filter (is_before (cursor_of x)) (x ∷ xs) ≡ xs
filter_first x xs h = rw (is_before_irrefl x) (filter-full (is_before (cursor_of x)) xs h)

asym_All :
    (x : BookingRow) (xs : List BookingRow)
    → All (λ (y : BookingRow). is_before (cursor_of x) y ≡ true) xs
    → All (λ (y : BookingRow). is_before (cursor_of y) x ≡ false) xs
asym_All x [] h = tt
asym_All x (y ∷ ys) (h, hs) = (is_before_asym x y h, asym_All x ys hs)

-- What is before the last row of a page is what follows the page.
filter-last_cursor :
    (n : ℕ) (xs : List BookingRow) (c : BookingHistoryCursor)
    → IsDescending xs
    → last_cursor (take n xs) ≡ some c
    → filter (is_before c) xs ≡ drop n xs
unfolding last_cursor
filter-last_cursor zero xs c d h = absurd (ground (arith, h))
filter-last_cursor (suc n) [] c d h = absurd (ground (arith, h))
filter-last_cursor (suc zero) (x ∷ xs) c (first, rest) h =
    subst (λ (c' : BookingHistoryCursor). filter (is_before c') (x ∷ xs) ≡ xs) (some_same h)
      (filter_first x xs first)
filter-last_cursor (suc (suc n)) (x ∷ []) c (first, rest) h =
    subst (λ (c' : BookingHistoryCursor). filter (is_before c') (x ∷ []) ≡ []) (some_same h)
      (filter_first x [] tt)
filter-last_cursor (suc (suc n)) (x ∷ y ∷ ys) c (first, rest) h =
    rw
      (last_cursor-All (λ (c' : BookingHistoryCursor). is_before c' x ≡ false) (suc n) (y ∷ ys) c h
        (asym_All x (y ∷ ys) first))
      (filter-last_cursor (suc n) (y ∷ ys) c rest h)

-- What stays of a list has what is asked.
filter_holds :
    (p : BookingRow → Bool) (xs : List BookingRow)
    → All (λ (y : BookingRow). p y ≡ true) (filter p xs)
filter_holds p [] = tt
filter_holds p (x ∷ xs) = elim (Bool-cases (p x)) [
  | inl e ↦ rw e (e, filter_holds p xs)
  | inr e ↦ rw e (filter_holds p xs)
]

filter-filter :
    (p q r : BookingRow → Bool) (xs : List BookingRow)
    → ((y : BookingRow) → (p y && q y) ≡ r y)
    → filter p (filter q xs) ≡ filter r xs
filter-filter p q r [] h = refl
filter-filter p q r (x ∷ xs) h = ground (arith, h x, filter-filter p q r xs h)

filter-IsDescending :
    (p : BookingRow → Bool) (xs : List BookingRow) → IsDescending xs → IsDescending (filter p xs)
filter-IsDescending p [] d = tt
filter-IsDescending p (x ∷ xs) (first, rest) = elim (Bool-cases (p x)) [
  | inl e ↦ rw e (
    filter-All (λ (y : BookingRow). is_before (cursor_of x) y ≡ true) p xs first,
    filter-IsDescending p xs rest,
  )
  | inr e ↦ rw e (filter-IsDescending p xs rest)
]

-- From the cursor of a row that is listed, the rows are some of those that were listed.
after_cursor :
    (cursor : Option BookingHistoryCursor) (x : BookingRow)
    → is_after_cursor cursor x ≡ true
    → (row : BookingRow) → is_before (cursor_of x) row ≡ true
    → is_after_cursor cursor row ≡ true
after_cursor none x h row k = refl
after_cursor (some c) x h row k = is_before_trans c x row h k

module _ (customer_id : String) (rows : List BookingRow) where
  after_All :
      (cursor : Option BookingHistoryCursor) (xs : List BookingRow)
      → All (λ (y : BookingRow). is_listed customer_id cursor y ≡ true) xs
      → All
          (λ (y : BookingRow).
            (row : BookingRow)
            → is_before (cursor_of y) row ≡ true
            → is_after_cursor cursor row ≡ true)
          xs
  after_All cursor [] h = tt
  after_All cursor (x ∷ xs) (h, hs) =
      (after_cursor cursor x (ground (arith, h)), after_All cursor xs hs)

  abbrev pub listed : Option BookingHistoryCursor → List BookingRow
  listed cursor = filter (is_listed customer_id cursor) rows

  -- What is listed from the cursor of a page is what follows the page.
  pub listed_next :
      (n : ℕ) (cursor : Option BookingHistoryCursor) (c : BookingHistoryCursor)
      → IsDescending rows
      → last_cursor (take n (listed cursor)) ≡ some c
      → listed (some c) ≡ drop n (listed cursor)
  listed_next n cursor c d h =
      let after : (row : BookingRow) → is_before c row ≡ true → is_after_cursor cursor row ≡ true =
        last_cursor-All
          (λ (c' : BookingHistoryCursor).
            (row : BookingRow) → is_before c' row ≡ true → is_after_cursor cursor row ≡ true)
          n (listed cursor) c h
          (after_All cursor (listed cursor) (filter_holds (is_listed customer_id cursor) rows)) in
      sym (
        filter-filter (is_before c) (is_listed customer_id cursor) (is_listed customer_id (some c))
          rows (λ row. ground (arith, after row)))
      ∙ filter-last_cursor n (listed cursor) c
          (filter-IsDescending (is_listed customer_id cursor) rows d) h
