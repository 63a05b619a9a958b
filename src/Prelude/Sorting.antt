-- ===== src/Prelude/Sorting.antt =====
-- `[...new Set(values)].sort()` of texts: the order of `sort` compares code units, which for the
-- ASCII texts that the services let through are code points. Texts that compare alike are the same,
-- so the result does not depend on the algorithm, and sorting by insertion stands for it.
use Prim.Native.Nat.{ℕ, suc, ◌≤◌}
use Prim.Native.String.{String}
use mathlib.Core.Path.{◌≡◌, refl, ap, ap₂}
use mathlib.Core.Logic.{inl, inr}
use mathlib.Core.Bool.{Bool, true, false, not, ◌&&◌, ◌||◌}
use mathlib.Core.List.{List, [], ◌∷◌}
use native.Mathlib.Omega.{arith}
use text.Mathlib.TextEquality.{eq_iff, Char-path}
use text.Mathlib.TextPositions.{eq_refl}
use bus_ai_booking.Prelude.Tests.{ltb, nat_eq, ◌==◌, string_eq, if◌then◌else◌, Bool-cases}
use bus_ai_booking.Prelude.Lists.{length, all, filter, includes}
use bus_ai_booking.Prelude.Text.{codes}

abbrev pub codes_leb : List ℕ → List ℕ → Bool
codes_leb [] ds = true
codes_leb (c ∷ cs) [] = false
codes_leb (c ∷ cs) (d ∷ ds) = ltb c d || nat_eq c d && codes_leb cs ds

unfoldable pub text_leb : String → String → Bool
text_leb a b = codes_leb (codes a) (codes b)

unfoldable pub insert : String → List String → List String
insert a [] = a ∷ []
insert a (x ∷ xs) = let rest = insert a xs in if text_leb a x then a ∷ x ∷ xs else x ∷ rest

unfoldable pub sort : List String → List String
sort [] = []
sort (x ∷ xs) = insert x (sort xs)

-- The values of a Set, in the order in which they were first added.
unfoldable pub distinct : List String → List String
distinct [] = []
distinct (x ∷ xs) = x ∷ filter (λ (y : String). not (y == x)) (distinct xs)

-- `[...new Set(values)].sort()`
unfoldable pub sorted_set : List String → List String
sorted_set xs = sort (distinct xs)

-- No text is there twice.
abbrev pub IsDistinct : List String → Type 0
IsDistinct [] = Unit
IsDistinct (x ∷ xs) = (includes xs x ≡ false) × IsDistinct xs

-- Each text is at most the next.
abbrev pub IsSorted : List String → Type 0
IsSorted [] = Unit
IsSorted (x ∷ []) = Unit
IsSorted (x ∷ y ∷ ys) = (text_leb x y ≡ true) × IsSorted (y ∷ ys)

includes-insert :
    (a b : String) (xs : List String) → includes (insert a xs) b ≡ (a == b || includes xs b)
unfolding insert
includes-insert a b [] = refl
includes-insert a b (x ∷ xs) = ground (arith, includes-insert a b xs)

pub includes-sort : (b : String) (xs : List String) → includes (sort xs) b ≡ includes xs b
unfolding sort
includes-sort b [] = refl
includes-sort b (x ∷ xs) = ground (arith, includes-sort b xs, includes-insert x b (sort xs))

length-insert : (a : String) (xs : List String) → length (insert a xs) ≡ suc (length xs)
unfolding insert
length-insert a [] = refl
length-insert a (x ∷ xs) = ground (arith, length-insert a xs)

pub length-sort : (xs : List String) → length (sort xs) ≡ length xs
unfolding sort
length-sort [] = refl
length-sort (x ∷ xs) = ground (arith, length-sort xs, length-insert x (sort xs))

insert-IsDistinct :
    (a : String) (xs : List String)
    → includes xs a ≡ false
    → IsDistinct xs
    → IsDistinct (insert a xs)
unfolding insert
insert-IsDistinct a [] h d = (refl, tt)
insert-IsDistinct a (x ∷ xs) h (new, rest) =
    ground
      (arith, h, new, rest, includes-insert a x xs, eq_iff a x, eq_iff x a, insert-IsDistinct a xs)

pub sort-IsDistinct : (xs : List String) → IsDistinct xs → IsDistinct (sort xs)
unfolding sort
sort-IsDistinct [] d = tt
sort-IsDistinct (x ∷ xs) (new, rest) =
    insert-IsDistinct x (sort xs) (ground (arith, new, includes-sort x xs))
      (sort-IsDistinct xs rest)

includes-filter :
    (p : String → Bool) (b : String) (xs : List String)
    → includes (filter p xs) b ≡ (p b && includes xs b)
includes-filter p b [] = ground arith
includes-filter p b (x ∷ xs) = ground (arith, eq_iff x b, includes-filter p b xs)

filter-IsDistinct :
    (p : String → Bool) (xs : List String) → IsDistinct xs → IsDistinct (filter p xs)
filter-IsDistinct p [] d = tt
filter-IsDistinct p (x ∷ xs) (new, rest) =
    ground (arith, new, includes-filter p x xs, filter-IsDistinct p xs rest)

length-filter : (p : String → Bool) (xs : List String) → length (filter p xs) ≤ length xs
length-filter p [] = omega arith
length-filter p (x ∷ xs) = ground (arith, length-filter p xs)

pub includes-distinct : (b : String) (xs : List String) → includes (distinct xs) b ≡ includes xs b
unfolding distinct
includes-distinct b [] = refl
includes-distinct b (x ∷ xs) = ground (
  arith,
  eq_iff x b,
  eq_iff b x,
  includes-distinct b xs,
  includes-filter (λ (y : String). not (y == x)) b (distinct xs),
)

pub distinct-IsDistinct : (xs : List String) → IsDistinct (distinct xs)
unfolding distinct
distinct-IsDistinct [] = tt
distinct-IsDistinct (x ∷ xs) = (
  ground (arith, eq_refl x, includes-filter (λ (y : String). not (y == x)) x (distinct xs)),
  filter-IsDistinct (λ (y : String). not (y == x)) (distinct xs) (distinct-IsDistinct xs),
)

pub length-distinct : (xs : List String) → length (distinct xs) ≤ length xs
unfolding distinct
length-distinct [] = omega arith
length-distinct (x ∷ xs) =
    ground (arith, length-distinct xs, length-filter (λ (y : String). not (y == x)) (distinct xs))

-- Where the set has as many values as the list, the list has none twice.
filter_full :
    (p : String → Bool) (xs : List String) → length (filter p xs) ≡ length xs → filter p xs ≡ xs
filter_full p [] h = refl
filter_full p (x ∷ xs) h = ground (arith, length-filter p xs, filter_full p xs)

pub distinct_full : (xs : List String) → length (distinct xs) ≡ length xs → distinct xs ≡ xs
unfolding distinct
distinct_full [] h = refl
distinct_full (x ∷ xs) h =
    let p : String → Bool = λ (y : String). not (y == x) in
    ground (
      arith,
      h,
      length-distinct xs,
      length-filter p (distinct xs),
      filter_full p (distinct xs),
      distinct_full xs,
    )

codes_leb_total : (cs ds : List ℕ) → codes_leb cs ds ≡ false → codes_leb ds cs ≡ true
codes_leb_total [] ds h = absurd (ground arith)
codes_leb_total (c ∷ cs) [] h = refl
codes_leb_total (c ∷ cs) (d ∷ ds) h = ground (arith, codes_leb_total cs ds)

pub text_leb_total : (a b : String) → text_leb a b ≡ false → text_leb b a ≡ true
unfolding text_leb
text_leb_total a b h = codes_leb_total (codes a) (codes b) h

-- The new first text of a list after an insertion.
abbrev Heads : String → List String → Type 0
Heads x [] = Unit
Heads x (y ∷ ys) = text_leb x y ≡ true

IsSorted-cons : (x : String) (ys : List String) → Heads x ys → IsSorted ys → IsSorted (x ∷ ys)
IsSorted-cons x [] h s = tt
IsSorted-cons x (y ∷ ys) h s = (h, s)

IsSorted-tail : (x : String) (ys : List String) → IsSorted (x ∷ ys) → Heads x ys × IsSorted ys
IsSorted-tail x [] s = (tt, tt)
IsSorted-tail x (y ∷ ys) s = s

Heads-insert :
    (x a : String) (ys : List String) → text_leb x a ≡ true → Heads x ys → Heads x (insert a ys)
unfolding insert
Heads-insert x a [] h s = h
Heads-insert x a (y ∷ ys) h s = elim (Bool-cases (text_leb a y)) [ inl e ↦ rw e h | inr e ↦ rw e s ]

insert-IsSorted : (a : String) (xs : List String) → IsSorted xs → IsSorted (insert a xs)
unfolding insert
insert-IsSorted a [] s = tt
insert-IsSorted a (x ∷ xs) s = elim (Bool-cases (text_leb a x)) [
  | inl e ↦ rw e (e, s)
  | inr e ↦
      let (first, rest) = IsSorted-tail x xs s in
      rw e (
        IsSorted-cons x (insert a xs) (Heads-insert x a xs (text_leb_total a x e) first)
          (insert-IsSorted a xs rest))
]

pub sort-IsSorted : (xs : List String) → IsSorted (sort xs)
unfolding sort
sort-IsSorted [] = tt
sort-IsSorted (x ∷ xs) = insert-IsSorted x (sort xs) (sort-IsSorted xs)

-- Sorting changes nothing where the texts are in order already.
insert_first : (a : String) (xs : List String) → Heads a xs → insert a xs ≡ a ∷ xs
unfolding insert
insert_first a [] h = refl
insert_first a (x ∷ xs) h = rw h refl

pub sort_sorted : (xs : List String) → IsSorted xs → sort xs ≡ xs
unfolding sort
sort_sorted [] s = refl
sort_sorted (x ∷ xs) s =
    let (first, rest) = IsSorted-tail x xs s in rw (sort_sorted xs rest) (insert_first x xs first)

all-insert :
    (p : String → Bool) (a : String) (xs : List String) → all p (insert a xs) ≡ (p a && all p xs)
unfolding insert
all-insert p a [] = refl
all-insert p a (x ∷ xs) = ground (arith, all-insert p a xs)

pub all-sort : (p : String → Bool) (xs : List String) → all p (sort xs) ≡ all p xs
unfolding sort
all-sort p [] = refl
all-sort p (x ∷ xs) = ground (arith, all-sort p xs, all-insert p x (sort xs))

-- A filter that drops one text changes nothing where that text is not there.
filter_absent :
    (x : String) (xs : List String)
    → includes xs x ≡ false
    → filter (λ (y : String). not (y == x)) xs ≡ xs
filter_absent x [] h = refl
filter_absent x (y ∷ ys) h = ground (arith, h, filter_absent x ys)

pub distinct-distinct : (xs : List String) → IsDistinct xs → distinct xs ≡ xs
unfolding distinct
distinct-distinct [] d = refl
distinct-distinct (x ∷ xs) (new, rest) =
    rw (distinct-distinct xs rest) (ap (λ (ys : List String). x ∷ ys) (filter_absent x xs new))

-- Texts that are each at most the other are the same.
pub text_leb_antisym : (a b : String) → text_leb a b ≡ true → text_leb b a ≡ true → a ≡ b
unfolding text_leb
text_leb_antisym String.[] String.[] h k = refl
text_leb_antisym String.[] (String.◌∷◌ d t) h k = absurd (ground (arith, k))
text_leb_antisym (String.◌∷◌ c s) String.[] h k = absurd (ground (arith, h))
text_leb_antisym (String.◌∷◌ c s) (String.◌∷◌ d t) h k =
    ap₂ String.◌∷◌ (Char-path c d (ground (arith, h, k)))
      (text_leb_antisym s t (ground (arith, h, k)) (ground (arith, h, k)))

codes_leb_trans :
    (cs ds es : List ℕ) → codes_leb cs ds ≡ true → codes_leb ds es ≡ true → codes_leb cs es ≡ true
codes_leb_trans [] ds es h k = refl
codes_leb_trans (c ∷ cs) [] es h k = absurd (ground (arith, h))
codes_leb_trans (c ∷ cs) (d ∷ ds) [] h k = absurd (ground (arith, k))
codes_leb_trans (c ∷ cs) (d ∷ ds) (e ∷ es) h k = ground (arith, h, k, codes_leb_trans cs ds es)

pub text_leb_trans :
    (a b c : String) → text_leb a b ≡ true → text_leb b c ≡ true → text_leb a c ≡ true
unfolding text_leb
text_leb_trans a b c h k = codes_leb_trans (codes a) (codes b) (codes c) h k
