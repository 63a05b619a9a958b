-- ===== src/SeatInventory/Accepts.antt =====
-- Which lists of seats the validators let through.
use bus_ai_booking.Prelude.{
  ℕ, String, ◌≡◌, ◌↔◌, ◌≤◌, ap, sym, subst, get_or, true, List, [], Option, none, some, arith, ℕ_eq,
  string_eq, all, length, ok, ◌∙◌,
}
use bus_ai_booking.Prelude.Text.{is_key}
use bus_ai_booking.Prelude.Sorting.{
  sort, distinct, sorted_set, IsDistinct, length-sort, all-sort, distinct_full, distinct-distinct,
  distinct-IsDistinct,
}
use bus_ai_booking.SeatInventory.Validation.{validate_seat_ids}

-- Between one and `most` seats, none twice, each a text of 1 to 64 characters of a key.
abbrev pub IsSeatList : ℕ → List String → Type 0
IsSeatList most xs =
    IsDistinct xs × (1 ≤ length xs) × (length xs ≤ most) × (all (is_key 1 64) xs ≡ true)

accepts :
    (most : ℕ) (xs : List String)
    → IsSeatList most xs
    → validate_seat_ids most (some xs) ≡ ok (sort xs)
unfolding validate_seat_ids sorted_set
accepts most xs (alone, low, high, keys) =
    rw (distinct-distinct xs alone)
      (ground (arith, low, high, keys, length-sort xs, all-sort (is_key 1 64) xs))

once : (xs : List String) → length (sort (distinct xs)) ≡ length xs → distinct xs ≡ xs
once xs h = distinct_full xs (sym (length-sort (distinct xs)) ∙ h)

accepted :
    (most : ℕ) (xs ids : List String)
    → validate_seat_ids most (some xs) ≡ ok ids
    → IsSeatList most xs × (ids ≡ sort xs)
unfolding validate_seat_ids sorted_set
accepted most xs ids e =
    let same : distinct xs ≡ xs = once xs (ground (arith, e)) in
    let alone : IsDistinct xs = subst IsDistinct same (distinct-IsDistinct xs) in
    ground (arith, same, e, alone, length-sort xs, all-sort (is_key 1 64) xs)

-- The seats of a request (none, where the request gives no list) are let through exactly where there
-- are between one and `most` of them, none twice, and each a text of 1 to 64 characters of a key; what
-- comes out are those seats in order.
pub validate_seat_ids_iff :
    (most : ℕ) (given : Option (List String)) (ids : List String)
    → (validate_seat_ids most given ≡ ok ids)
      ↔ (IsSeatList most (get_or given []) × (ids ≡ sort (get_or given [])))
unfolding validate_seat_ids
validate_seat_ids_iff most none ids = (
  accepted most [] ids,
  λ (list, e). accepts most [] list ∙ ap (λ (ys : List String). ok ys) (sym e),
)
validate_seat_ids_iff most (some xs) ids = (
  accepted most xs ids,
  λ (list, e). accepts most xs list ∙ ap (λ (ys : List String). ok ys) (sym e),
)
