-- ===== src/Booking/Repository/Rows.antt =====
-- The row of a booking after an UPDATE, where no id has two rows.
use bus_ai_booking.Prelude.{
  String, ◌≤◌, ◌≡◌, refl, Bool, true, false, Option, none, some, List, [], ◌∷◌, filter, find,
  length, any, arith, find-none, ◌==◌, string_eq, ℕ_eq, if◌then◌else◌,
}
use bus_ai_booking.Booking.Types.{BookingRow}
use bus_ai_booking.Booking.Repository.{update_where, is_one}

abbrev pub has_id : String → BookingRow → Bool
has_id id row = row.id == id

-- No id has two rows.
abbrev pub IsKeyed : List BookingRow → Type 0
IsKeyed rows = (id : String) → length (filter (has_id id) rows) ≤ 1

abbrev pub changed :
    (BookingRow → Bool) → (BookingRow → BookingRow) → Option BookingRow → Option BookingRow
changed p f none = none
changed p f (some row) = some (if p row then f row else row)

module _ (p : BookingRow → Bool) (f : BookingRow → BookingRow)
    (keeps : (row : BookingRow) → (f row).id ≡ row.id) where
  pub find-update_where :
      (id : String) (rows : List BookingRow)
      → find (has_id id) (update_where p f rows) ≡ changed p f (find (has_id id) rows)
  find-update_where id [] = refl
  find-update_where id (row ∷ rows) = ground (arith, keeps row, find-update_where id rows)

  count-update_where :
      (id : String) (rows : List BookingRow)
      → length (filter (has_id id) (update_where p f rows)) ≡ length (filter (has_id id) rows)
  count-update_where id [] = refl
  count-update_where id (row ∷ rows) = ground (arith, keeps row, count-update_where id rows)

  pub update_where-IsKeyed :
      (rows : List BookingRow) → IsKeyed rows → IsKeyed (update_where p f rows)
  update_where-IsKeyed rows keyed id = ground (arith, keyed id, count-update_where id rows)

  pub update_where_none :
      (rows : List BookingRow) → any p rows ≡ false → update_where p f rows ≡ rows
  update_where_none [] h = refl
  update_where_none (row ∷ rows) h = ground (arith, update_where_none rows)

module _ (p : BookingRow → Bool) (id : String)
    (sound : (row : BookingRow) → p row ≡ true → (row.id == id) ≡ true) where
  pub none_left :
      (rows : List BookingRow)
      → length (filter (has_id id) rows) ≤ 0
      → (any p rows ≡ false) × (length (filter p rows) ≡ 0)
  none_left [] h = (refl, refl)
  none_left (row ∷ rows) h = ground (arith, sound row, none_left rows)

  -- The one row of an id decides whether an UPDATE of that id changes a row.
  pub is_one_row :
      (rows : List BookingRow) (row : BookingRow)
      → length (filter (has_id id) rows) ≤ 1
      → find (has_id id) rows ≡ some row
      → (is_one p rows ≡ p row) × (any p rows ≡ p row)
  unfolding is_one
  is_one_row [] row h e = absurd (ground (arith, e))
  is_one_row (x ∷ rows) row h e = ground (arith, sound x, none_left rows, is_one_row rows row)

  pub is_one-none :
      (rows : List BookingRow)
      → find (has_id id) rows ≡ none
      → (is_one p rows ≡ false) × (any p rows ≡ false)
  unfolding is_one
  is_one-none [] e = (refl, refl)
  is_one-none (x ∷ rows) e = ground (arith, sound x, is_one-none rows)

  -- A row that is found by a condition on the id is the row of the id.
  pub find_by_id :
      (rows : List BookingRow) (row : BookingRow)
      → length (filter (has_id id) rows) ≤ 1
      → find p rows ≡ some row
      → find (has_id id) rows ≡ some row
  find_by_id [] row h e = absurd (ground (arith, e))
  find_by_id (x ∷ rows) row h e =
      ground (arith, sound x, none_left rows, find-none p rows, find_by_id rows row)
