-- ===== src/Booking/Listing/Order.antt =====
-- The order of the listing: rows with different ids are in exactly one order, and what is listed from
-- a cursor on is what follows it.
use bus_ai_booking.Prelude.{
  String, ◌≡◌, refl, ◌∙◌, Bool, true, false, ◌||◌, List, [], ◌∷◌, filter, any, suc, length, All,
  arith, ◌==◌, string_eq, ℕ_eq, eq_iff, eq_refl, if◌then◌else◌, Bool-cases, inl, inr,
}
use bus_ai_booking.Prelude.Sorting.{text_leb_antisym, text_leb_trans, text_leb_total}
use bus_ai_booking.Booking.Types.{BookingRow}
use bus_ai_booking.Booking.Repository.Rows.{has_id, IsKeyed, none_left}
use bus_ai_booking.Booking.Listing.{
  BookingHistoryCursor, text_less, is_before, cursor_of, insert_newest, newest,
}

text_less_trans :
    (a b c : String) → text_less a b ≡ true → text_less b c ≡ true → text_less a c ≡ true
unfolding text_less
text_less_trans a b c h k =
    ground (arith, h, k, eq_iff a b, eq_iff a c, text_leb_trans a b c, text_leb_antisym a b)

pub is_before_trans :
    (c : BookingHistoryCursor) (x y : BookingRow)
    → is_before c x ≡ true
    → is_before (cursor_of x) y ≡ true
    → is_before c y ≡ true
unfolding is_before
is_before_trans c x y h k = ground (arith, h, k, text_less_trans y.id x.id c.id)

-- Of two rows with different ids, one is before the other.
is_before_total :
    (x y : BookingRow)
    → (x.id == y.id) ≡ false
    → is_before (cursor_of x) y ≡ false
    → is_before (cursor_of y) x ≡ true
unfolding is_before text_less
is_before_total x y h k =
    ground (arith, h, k, eq_iff x.id y.id, eq_iff y.id x.id, text_leb_total y.id x.id)

-- No row is before a row that is before it.
pub is_before_asym :
    (x y : BookingRow) → is_before (cursor_of x) y ≡ true → is_before (cursor_of y) x ≡ false
unfolding is_before text_less
is_before_asym x y h =
    ground (arith, h, eq_iff x.id y.id, eq_iff y.id x.id, text_leb_antisym y.id x.id)

pub is_before_irrefl : (x : BookingRow) → is_before (cursor_of x) x ≡ false
is_before_irrefl x = elim (Bool-cases (is_before (cursor_of x) x)) [
  | inl e ↦ is_before_asym x x e
  | inr e ↦ e
]

-- Each row is before those that precede it.
abbrev pub IsDescending : List BookingRow → Type 0
IsDescending [] = Unit
IsDescending (x ∷ xs) =
    All (λ (y : BookingRow). is_before (cursor_of x) y ≡ true) xs × IsDescending xs

insert_newest-All {κ} :
    (P : BookingRow → Type κ) (a : BookingRow) (xs : List BookingRow)
    → P a
    → All P xs
    → All P (insert_newest a xs)
unfolding insert_newest
insert_newest-All P a [] h k = (h, tt)
insert_newest-All P a (x ∷ xs) h (k, ks) = elim (Bool-cases (is_before (cursor_of a) x)) [
  | inl e ↦ rw e (h, (k, ks))
  | inr e ↦ rw e (k, insert_newest-All P a xs h ks)
]

-- What follows a row follows what is before that row.
before-All :
    (c : BookingHistoryCursor) (x : BookingRow) (xs : List BookingRow)
    → is_before c x ≡ true
    → All (λ (y : BookingRow). is_before (cursor_of x) y ≡ true) xs
    → All (λ (y : BookingRow). is_before c y ≡ true) xs
before-All c x [] h k = tt
before-All c x (y ∷ ys) h (k, ks) = (is_before_trans c x y h k, before-All c x ys h ks)

any-insert_newest :
    (p : BookingRow → Bool) (a : BookingRow) (xs : List BookingRow)
    → any p (insert_newest a xs) ≡ (p a || any p xs)
unfolding insert_newest
any-insert_newest p a [] = refl
any-insert_newest p a (x ∷ xs) = ground (arith, any-insert_newest p a xs)

any-newest : (p : BookingRow → Bool) (xs : List BookingRow) → any p (newest xs) ≡ any p xs
unfolding newest
any-newest p [] = refl
any-newest p (x ∷ xs) = ground (arith, any-newest p xs, any-insert_newest p x (newest xs))

insert_newest-IsDescending :
    (a : BookingRow) (xs : List BookingRow)
    → any (has_id a.id) xs ≡ false
    → IsDescending xs
    → IsDescending (insert_newest a xs)
unfolding insert_newest
insert_newest-IsDescending a [] new d = (tt, tt)
insert_newest-IsDescending a (x ∷ xs) new (first, rest) =
    let one : any (has_id a.id) xs ≡ false = ground (arith, new) in
    let other : (a.id == x.id) ≡ false = ground (arith, new, eq_iff a.id x.id, eq_iff x.id a.id) in
    elim (Bool-cases (is_before (cursor_of a) x)) [
      | inl e ↦ rw e ((e, before-All (cursor_of a) x xs e first), (first, rest))
      | inr e ↦ rw e (
        insert_newest-All (λ (y : BookingRow). is_before (cursor_of x) y ≡ true) a xs
            (is_before_total a x other e) first,
        insert_newest-IsDescending a xs one rest,
      )
    ]

keyed_head :
    (x : BookingRow) (xs : List BookingRow) → IsKeyed (x ∷ xs) → any (has_id x.id) xs ≡ false
keyed_head x xs keyed =
    (none_left (has_id x.id) x.id (λ row h. h) xs (ground (arith, keyed x.id, eq_refl x.id))).0

pub newest-IsDescending : (rows : List BookingRow) → IsKeyed rows → IsDescending (newest rows)
unfolding newest
newest-IsDescending [] keyed = tt
newest-IsDescending (x ∷ xs) keyed =
    insert_newest-IsDescending x (newest xs) (any-newest (has_id x.id) xs ∙ keyed_head x xs keyed)
      (newest-IsDescending xs (λ id. ground (arith, keyed id)))

pub filter-All {κ} :
    (P : BookingRow → Type κ) (p : BookingRow → Bool) (xs : List BookingRow)
    → All P xs
    → All P (filter p xs)
filter-All P p [] h = tt
filter-All P p (x ∷ xs) (h, hs) = elim (Bool-cases (p x)) [
  | inl e ↦ rw e (h, filter-All P p xs hs)
  | inr e ↦ rw e (filter-All P p xs hs)
]

-- A row that is before the first of a list stands before the list.
insert_newest_first :
    (a : BookingRow) (xs : List BookingRow)
    → All (λ (y : BookingRow). is_before (cursor_of a) y ≡ true) xs
    → insert_newest a xs ≡ a ∷ xs
unfolding insert_newest
insert_newest_first a [] h = refl
insert_newest_first a (x ∷ xs) (h, hs) = rw h refl

filter-insert_newest :
    (p : BookingRow → Bool) (a : BookingRow) (xs : List BookingRow)
    → IsDescending xs
    → filter p (insert_newest a xs)
      ≡ (let rest = filter p xs in if p a then insert_newest a rest else rest)
unfolding insert_newest
filter-insert_newest p a [] d = refl
filter-insert_newest p a (x ∷ xs) (first, rest) = elim (Bool-cases (is_before (cursor_of a) x)) [
  | inl e ↦ rw e (
      ground (
        arith,
        insert_newest_first a (filter p (x ∷ xs)) (
            filter-All (λ (y : BookingRow). is_before (cursor_of a) y ≡ true) p (x ∷ xs)
              (e, before-All (cursor_of a) x xs e first)),
      ))
  | inr e ↦ ground (arith, e, filter-insert_newest p a xs rest)
]

-- What is listed of the rows is listed in the order of all.
pub newest-filter :
    (p : BookingRow → Bool) (rows : List BookingRow)
    → IsKeyed rows
    → newest (filter p rows) ≡ filter p (newest rows)
unfolding newest
newest-filter p [] keyed = refl
newest-filter p (x ∷ xs) keyed =
    let below : IsKeyed xs = λ id. ground (arith, keyed id) in
    ground (
      arith,
      newest-filter p xs below,
      filter-insert_newest p x (newest xs) (newest-IsDescending xs below),
    )

length-insert_newest :
    (a : BookingRow) (xs : List BookingRow) → length (insert_newest a xs) ≡ suc (length xs)
unfolding insert_newest
length-insert_newest a [] = refl
length-insert_newest a (x ∷ xs) = ground (arith, length-insert_newest a xs)

pub length-newest : (xs : List BookingRow) → length (newest xs) ≡ length xs
unfolding newest
length-newest [] = refl
length-newest (x ∷ xs) = ground (arith, length-newest xs, length-insert_newest x (newest xs))
