-- ===== src/Base/Sorting.antt =====
-- `sorted` on fractions.
use native.Mathlib.Nat.{mul-le-mul_right, le_of_mul-le-mul_left}
use shtapm.Base.{
  ℕ, zero, suc, ◌+◌, ◌*◌, ◌≤◌, ◌<◌, ◌≡◌, refl, ◌∙◌, ap, Bool, true, false, List, [], ◌∷◌, length,
  arith, All, Bool-cases, inl, inr, if◌then◌else◌,
}
use shtapm.Base.Int.{pos_part, neg_part}
use shtapm.Base.Ratio.{Ratio, IsFraction, frac, leb_r, ◌≤r◌}

unfoldable pub insert_r : Ratio → List Ratio → List Ratio
insert_r x [] = x ∷ []
insert_r x (y ∷ ys) = let r = insert_r x ys in if leb_r x y then x ∷ y ∷ ys else y ∷ r

unfoldable pub sorted_r : List Ratio → List Ratio
sorted_r [] = []
sorted_r (x ∷ xs) = insert_r x (sorted_r xs)

abbrev pub get_r : List Ratio → ℕ → Ratio
get_r [] i = frac 0 1
get_r (x ∷ xs) zero = x
get_r (x ∷ xs) (suc i) = get_r xs i

unfoldable pub count_r : (Ratio → Bool) → List Ratio → ℕ
count_r p [] = 0
count_r p (x ∷ xs) = let n = count_r p xs in if p x then suc n else n

pub leb_r-le : (x y : Ratio) → leb_r x y ≡ true → ◌≤r◌ x y
leb_r-le x y h = ground arith

pub le-leb_r : (x y : Ratio) → ◌≤r◌ x y → leb_r x y ≡ true
le-leb_r x y h = ground arith

pub leb_r_trans :
    (x y z : Ratio) → IsFraction y → leb_r x y ≡ true → leb_r y z ≡ true → leb_r x z ≡ true
leb_r_trans x y z f p q =
    let scaled : y.den * (pos_part x.num * z.den + neg_part z.num * x.den)
        ≤ y.den * (pos_part z.num * x.den + neg_part x.num * z.den) =
      omega
        (arith, mul-le-mul_right z.den (leb_r-le x y p), mul-le-mul_right x.den (leb_r-le y z q)) in
    le-leb_r x z (le_of_mul-le-mul_left scaled f)

leb_r-total : (x y : Ratio) → leb_r x y ≡ false → leb_r y x ≡ true
leb_r-total x y h = ground arith

-- A property that goes down with the order.
abbrev pub IsDown : (Ratio → Bool) → Type 0
IsDown p = (x y : Ratio) → IsFraction x → IsFraction y → leb_r x y ≡ true → p y ≡ true → p x ≡ true

abbrev pub Sorted : List Ratio → Type 0
Sorted [] = Unit
Sorted (x ∷ xs) = All (λ y. leb_r x y ≡ true) xs × Sorted xs

All-insert_r :
    (P : Ratio → Type 0) (x : Ratio) (xs : List Ratio) → P x → All P xs → All P (insert_r x xs)
unfolding insert_r
All-insert_r P x [] h a = (h, tt)
All-insert_r P x (y ∷ ys) h (a, rest) = elim (Bool-cases (leb_r x y)) [
  | inl e ↦ rw e (h, (a, rest))
  | inr e ↦ rw e (a, All-insert_r P x ys h rest)
]

below-All :
    (x y : Ratio) (ys : List Ratio)
    → IsFraction y
    → leb_r x y ≡ true
    → All (λ z. leb_r y z ≡ true) ys
    → All (λ z. leb_r x z ≡ true) ys
below-All x y [] f h a = tt
below-All x y (z ∷ zs) f h (a, rest) = (leb_r_trans x y z f h a, below-All x y zs f h rest)

Sorted-insert_r :
    (x : Ratio) (xs : List Ratio)
    → IsFraction x
    → All IsFraction xs
    → Sorted xs
    → Sorted (insert_r x xs)
unfolding insert_r
Sorted-insert_r x [] f fs s = (tt, tt)
Sorted-insert_r x (y ∷ ys) f (g, gs) (a, s) = elim (Bool-cases (leb_r x y)) [
  | inl e ↦ rw e ((e, below-All x y ys g e a), (a, s))
  | inr e ↦
      rw e (
        All-insert_r (λ z. leb_r y z ≡ true) x ys (leb_r-total x y e) a,
        Sorted-insert_r x ys f gs s,
      )
]

pub All-sorted_r : (P : Ratio → Type 0) (xs : List Ratio) → All P xs → All P (sorted_r xs)
unfolding sorted_r
All-sorted_r P [] a = tt
All-sorted_r P (x ∷ xs) (a, rest) = All-insert_r P x (sorted_r xs) a (All-sorted_r P xs rest)

pub sorted_r-Sorted : (xs : List Ratio) → All IsFraction xs → Sorted (sorted_r xs)
unfolding sorted_r
sorted_r-Sorted [] f = tt
sorted_r-Sorted (x ∷ xs) (f, fs) =
    Sorted-insert_r x (sorted_r xs) f (All-sorted_r IsFraction xs fs) (sorted_r-Sorted xs fs)

count-insert_r :
    (p : Ratio → Bool) (x : Ratio) (xs : List Ratio)
    → count_r p (insert_r x xs) ≡ count_r p (x ∷ xs)
unfolding insert_r count_r
count-insert_r p x [] = refl
count-insert_r p x (y ∷ ys) = let ih = count-insert_r p x ys in ground arith

pub count-sorted_r : (p : Ratio → Bool) (xs : List Ratio) → count_r p (sorted_r xs) ≡ count_r p xs
unfolding sorted_r count_r
count-sorted_r p [] = refl
count-sorted_r p (x ∷ xs) =
    let ih = count-sorted_r p xs in let one = count-insert_r p x (sorted_r xs) in ground arith

length-insert_r : (x : Ratio) (xs : List Ratio) → length (insert_r x xs) ≡ suc (length xs)
unfolding insert_r
length-insert_r x [] = refl
length-insert_r x (y ∷ ys) = let ih = length-insert_r x ys in ground arith

pub length-sorted_r : (xs : List Ratio) → length (sorted_r xs) ≡ length xs
unfolding sorted_r
length-sorted_r [] = refl
length-sorted_r (x ∷ xs) = length-insert_r x (sorted_r xs) ∙ ap suc (length-sorted_r xs)

module _ (p : Ratio → Bool) (down : IsDown p) where
  none_above :
      (x : Ratio) (xs : List Ratio)
      → IsFraction x
      → All IsFraction xs
      → All (λ y. leb_r x y ≡ true) xs
      → p x ≡ false
      → count_r p xs ≡ 0
  unfolding count_r
  none_above x [] f fs a e = refl
  none_above x (y ∷ ys) f (g, gs) (a, rest) e =
      let ih = none_above x ys f gs rest e in
      elim (Bool-cases (p y)) [ inl h ↦ let h' = down x y f g a h in cc | inr h ↦ rw h ih ]

  -- In a sorted list the items with the property come first.
  pub get-count :
      (xs : List Ratio) (i : ℕ)
      → All IsFraction xs
      → Sorted xs
      → i < count_r p xs
      → p (get_r xs i) ≡ true
  unfolding count_r
  get-count [] i f s h = ground arith
  get-count (x ∷ xs) zero (f, fs) (a, s) h = elim (Bool-cases (p x)) [
    | inl e ↦ e
    | inr e ↦ let z = none_above x xs f fs a e in ground arith
  ]
  get-count (x ∷ xs) (suc i) (f, fs) (a, s) h =
      let fewer : i < count_r p xs = elim (Bool-cases (p x)) [
        | inl e ↦ ground arith
        | inr e ↦ let z = none_above x xs f fs a e in ground arith
      ] in
      get-count xs i fs s fewer

  pub get-not_count :
      (xs : List Ratio) (i : ℕ)
      → All IsFraction xs
      → Sorted xs
      → count_r p xs ≤ i
      → i < length xs
      → p (get_r xs i) ≡ false
  unfolding count_r
  get-not_count [] i f s h l = ground arith
  get-not_count (x ∷ xs) zero (f, fs) (a, s) h l = ground arith
  get-not_count (x ∷ xs) (suc i) (f, fs) (a, s) h l =
      let few : count_r p xs ≤ i = elim (Bool-cases (p x)) [
        | inl e ↦ ground arith
        | inr e ↦ let z = none_above x xs f fs a e in omega (arith, z)
      ] in
      get-not_count xs i fs s few (omega arith)

pub get-IsFraction : (xs : List Ratio) (i : ℕ) → All IsFraction xs → IsFraction (get_r xs i)
get-IsFraction [] i f = omega arith
get-IsFraction (x ∷ xs) zero (f, fs) = f
get-IsFraction (x ∷ xs) (suc i) (f, fs) = get-IsFraction xs i fs

get-All : (P : Ratio → Type 0) (xs : List Ratio) (i : ℕ) → All P xs → i < length xs → P (get_r xs i)
get-All P [] i a h = ground arith
get-All P (x ∷ xs) zero (a, rest) h = a
get-All P (x ∷ xs) (suc i) (a, rest) h = get-All P xs i rest (omega (arith, h))

leb_r_refl : (x : Ratio) → leb_r x x ≡ true
leb_r_refl x = ground arith

-- A sorted list ascends.
pub get-Sorted :
    (xs : List Ratio) (i j : ℕ)
    → Sorted xs
    → i ≤ j
    → j < length xs
    → leb_r (get_r xs i) (get_r xs j) ≡ true
get-Sorted [] i j s h l = ground arith
get-Sorted (x ∷ xs) zero zero s h l = leb_r_refl x
get-Sorted (x ∷ xs) zero (suc j) (a, s) h l =
    get-All (λ y. leb_r x y ≡ true) xs j a (omega (arith, l))
get-Sorted (x ∷ xs) (suc i) zero s h l = ground arith
get-Sorted (x ∷ xs) (suc i) (suc j) (a, s) h l =
    get-Sorted xs i j s (omega (arith, h)) (omega (arith, l))

-- An item of the sorted list is one of the list's.
pub get-sorted_r :
    (P : Ratio → Type 0) (xs : List Ratio) (i : ℕ)
    → All P xs
    → i < length xs
    → P (get_r (sorted_r xs) i)
get-sorted_r P xs i a h =
    get-All P (sorted_r xs) i (All-sorted_r P xs a) (omega (arith, length-sorted_r xs, h))
