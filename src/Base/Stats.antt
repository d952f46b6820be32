-- ===== src/Base/Stats.antt =====
-- Sums and means of fractions, and the rank of a fraction in a list.
use shtapm.Base.{ℕ, ◌+◌, ◌-◌, ◌*◌, ◌≤◌, ◌≡◌, List, [], ◌∷◌, map, length, arith}
use shtapm.Base.Ratio.{Ratio, frac, leb_r, ltb_r, ◌+r◌, ◌-r◌, ◌*r◌}
use shtapm.Base.Sorting.{count_r, sorted_r, count-sorted_r}

unfoldable pub sum_r : List Ratio → Ratio
sum_r [] = frac 0 1
sum_r (x ∷ xs) = x +r sum_r xs

-- x over a positive n.
abbrev pub over : Ratio → ℕ → Ratio
over x n = record x { den = x.den * n }

-- `mean` of at least one item.
unfoldable pub mean_r : List Ratio → Ratio
mean_r xs = over (sum_r xs) (length xs)

abbrev pub squares_about : Ratio → List Ratio → List Ratio
squares_about m xs = map (λ x. (x -r m) *r (x -r m)) xs

-- `statistics.variance`, of at least two items.
unfoldable pub sample_variance : List Ratio → Ratio
unfolding sum_r mean_r
sample_variance xs = over (sum_r (squares_about (mean_r xs) xs)) (length xs - 1)

-- Where the left and the right bisection of an ascending list put x: how many items are less than
-- x, and how many are at most x.
abbrev pub bisect_left : List Ratio → Ratio → ℕ
bisect_left s x = count_r (λ y. ltb_r y x) s

abbrev pub bisect_right : List Ratio → Ratio → ℕ
bisect_right s x = count_r (λ y. leb_r y x) s

-- Twice the mid-rank of x: equal items count as half.
abbrev pub double_rank : List Ratio → Ratio → ℕ
double_rank s x = bisect_left s x + bisect_right s x

abbrev pub above : List Ratio → Ratio → ℕ
above s x = count_r (λ y. ltb_r x y) s

at_most_or_above : (s : List Ratio) (x : Ratio) → bisect_right s x + above s x ≡ length s
unfolding count_r
at_most_or_above [] x = omega arith
at_most_or_above (y ∷ s) x = let ih = at_most_or_above s x in ground arith

pub below_and_above : (s : List Ratio) (x : Ratio) → bisect_left s x + above s x ≤ length s
unfolding count_r
below_and_above [] x = omega arith
below_and_above (y ∷ s) x = let ih = below_and_above s x in ground arith

-- The rank in a sorted list, by the items on both sides of x.
pub double_rank-sorted_r :
    (s : List Ratio) (x : Ratio)
    → double_rank (sorted_r s) x + above s x ≡ bisect_left s x + length s
double_rank-sorted_r s x =
    let l = count-sorted_r (λ y. ltb_r y x) s in
    let r = count-sorted_r (λ y. leb_r y x) s in omega (arith, l, r, at_most_or_above s x)
