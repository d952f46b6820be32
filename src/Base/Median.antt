-- ===== src/Base/Median.antt =====
-- `statistics.median` on fractions.
use native.Mathlib.Nat.{mul-le-mul_right}
use shtapm.Base.{
  ℕ, ◌+◌, ◌-◌, ◌*◌, ◌/◌, ◌%◌, ◌≤◌, ◌<◌, ◌≡◌, refl, ap, Bool, true, false, not, List, [], ◌∷◌,
  length, arith, All, Bool-cases, ◌==◌, inl, inr, if◌then◌else◌,
}
use shtapm.Base.Int.{pos_part, neg_part}
use shtapm.Base.Ratio.{Ratio, IsFraction, frac, diff, leb_r, ◌+r◌, half}
use shtapm.Base.Sorting.{
  sorted_r, get_r, count_r, leb_r-le, le-leb_r, leb_r_trans, All-sorted_r, sorted_r-Sorted,
  count-sorted_r, length-sorted_r, get-count, get-not_count, get-IsFraction,
}

unfoldable pub median_sorted : List Ratio → ℕ → Ratio
median_sorted s n =
    if n % 2 == 1 then get_r s (n / 2) else half (get_r s (n / 2 - 1) +r get_r s (n / 2))

unfoldable pub median : List Ratio → Ratio
unfolding median_sorted
median xs = median_sorted (sorted_r xs) (length xs)

diff_parts : (a b : ℕ) → pos_part (diff a b) + b ≡ neg_part (diff a b) + a
diff_parts a b = ground arith

-- The mean of two fractions on one side of a bound is on that side.
module _ (x y b : Ratio) where
  sum_parts :
      (pos_part (half (x +r y)).num + (neg_part x.num * y.den + neg_part y.num * x.den)) * b.den
      ≡ (neg_part (half (x +r y)).num + (pos_part x.num * y.den + pos_part y.num * x.den)) * b.den
  unfolding half ◌+r◌
  sum_parts =
      ap (λ (t : ℕ). t * b.den)
        (diff_parts (pos_part x.num * y.den + pos_part y.num * x.den)
          (neg_part x.num * y.den + neg_part y.num * x.den))

  half_den : (half (x +r y)).den ≡ 2 * (x.den * y.den)
  unfolding half ◌+r◌
  half_den = refl

  half-le : leb_r x b ≡ true → leb_r y b ≡ true → leb_r (half (x +r y)) b ≡ true
  half-le p q = le-leb_r (half (x +r y)) b (
      rw half_den (
        omega (
          arith,
          sum_parts,
          mul-le-mul_right y.den (leb_r-le x b p),
          mul-le-mul_right x.den (leb_r-le y b q),
        )))

  half-ge : leb_r b x ≡ true → leb_r b y ≡ true → leb_r b (half (x +r y)) ≡ true
  half-ge p q = le-leb_r b (half (x +r y)) (
      rw half_den (
        omega (
          arith,
          sum_parts,
          mul-le-mul_right y.den (leb_r-le b x p),
          mul-le-mul_right x.den (leb_r-le b y q),
        )))

-- If more than half of some fractions are at most b, so is their median.
pub median-le :
    (xs : List Ratio) (b : Ratio)
    → All IsFraction xs
    → length xs < 2 * count_r (λ x. leb_r x b) xs
    → leb_r (median xs) b ≡ true
unfolding median median_sorted
median-le xs b f h =
    let p : Ratio → Bool = λ x. leb_r x b in
    let s = sorted_r xs in
    let n = length xs in
    let low = λ (i : ℕ) (l : i < count_r p s).
      get-count p (λ x y g g' e k. leb_r_trans x y b g' e k) s i (All-sorted_r IsFraction xs f)
        (sorted_r-Sorted xs f) l in
    let same = count-sorted_r p xs in
    elim (Bool-cases (n % 2 == 1)) [
      | inl odd ↦ rw odd (low (n / 2) (omega (arith, same)))
      | inr even ↦ rw even (
          half-le (get_r s (n / 2 - 1)) (get_r s (n / 2)) b (low (n / 2 - 1) (omega (arith, same)))
            (low (n / 2) (omega (arith, same))))
    ]

count-not :
    (p : Ratio → Bool) (xs : List Ratio) → count_r p xs + count_r (λ x. not (p x)) xs ≡ length xs
unfolding count_r
count-not p [] = omega arith
count-not p (x ∷ xs) = let ih = count-not p xs in ground arith

not_above :
    (b x y : Ratio)
    → IsFraction x
    → leb_r x y ≡ true
    → not (leb_r b y) ≡ true
    → not (leb_r b x) ≡ true
not_above b x y f e k = elim (Bool-cases (leb_r b x)) [
  | inl h ↦ let t = leb_r_trans b x y f h e in ground arith
  | inr h ↦ rw h refl
]

-- If more than half of some fractions are at least b, so is their median.
pub median-ge :
    (xs : List Ratio) (b : Ratio)
    → All IsFraction xs
    → length xs < 2 * count_r (λ x. leb_r b x) xs
    → leb_r b (median xs) ≡ true
unfolding median median_sorted
median-ge xs b f h =
    let p : Ratio → Bool = λ x. not (leb_r b x) in
    let s = sorted_r xs in
    let n = length xs in
    let high = λ (i : ℕ) (l : count_r p s ≤ i) (m : i < length s). not_false (
      get-not_count p (λ x y g g' e k. not_above b x y g e k) s i (All-sorted_r IsFraction xs f)
        (sorted_r-Sorted xs f) l m) in
    let same = count-sorted_r p xs in
    let all = count-not (λ x. leb_r b x) xs in
    let size = length-sorted_r xs in
    elim (Bool-cases (n % 2 == 1)) [
      | inl odd ↦ rw odd (high (n / 2) (omega (arith, same, all)) (omega (arith, size, all)))
      | inr even ↦ rw even (
          half-ge (get_r s (n / 2 - 1)) (get_r s (n / 2)) b
            (high (n / 2 - 1) (ground (arith, same, all, even)) (omega (arith, size, all)))
            (high (n / 2) (omega (arith, same, all)) (omega (arith, size, all))))
    ]
  where
    not_false : {t : Bool} → not t ≡ false → t ≡ true
    not_false {t} e = ground arith

half-IsFraction : (x y : Ratio) → IsFraction x → IsFraction y → IsFraction (half (x +r y))
half-IsFraction x y f g = rw (half_den x y (frac 0 1)) (grind arith)

pub median-IsFraction : (xs : List Ratio) → All IsFraction xs → IsFraction (median xs)
unfolding median median_sorted
median-IsFraction xs f =
    let s = sorted_r xs in
    let fs = All-sorted_r IsFraction xs f in
    let n = length xs in
    elim (Bool-cases (n % 2 == 1)) [
      | inl odd ↦ rw odd (get-IsFraction s (n / 2) fs)
      | inr even ↦ rw even (
          half-IsFraction (get_r s (n / 2 - 1)) (get_r s (n / 2)) (get-IsFraction s (n / 2 - 1) fs)
            (get-IsFraction s (n / 2) fs))
    ]
