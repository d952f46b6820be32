-- ===== src/Base/Round.antt =====
-- `round` of a quotient.
use native.Mathlib.Nat.{div-mul-le_self, le-div_iff_mul-le, mod-eq-sub-div-mul}
use shtapm.Base.{
  ℕ, ◌+◌, ◌*◌, ◌/◌, ◌%◌, ◌≤◌, ◌<◌, ◌≡◌, ap, ltb, ltb→lt, arith, if◌then◌else◌, Bool-cases, inl, inr,
}

-- `round(n / d)`: to the nearest, and to the even one of two.
unfoldable pub round : ℕ → ℕ → ℕ
round n d =
    if ltb (2 * (n % d)) d
    then n / d
    else if ltb d (2 * (n % d))
    then n / d + 1
    else n / d + n / d % 2

-- Rounding moves by less than one, and two numbers of one quotient keep their order.
round_low : (a d : ℕ) → a / d ≤ round a d
unfolding round
round_low a d = ground arith

round_high : (a d : ℕ) → round a d ≤ a / d + 1
unfolding round
round_high a d = ground arith

round_same : (a b d : ℕ) → a / d ≡ b / d → a % d ≤ b % d → round a d ≤ round b d
unfolding round
round_same a b d q r = ground arith

pub round_mono : (a b d : ℕ) → 0 < d → a ≤ b → round a d ≤ round b d
round_mono a b d p h =
    let q : a / d ≤ b / d = (le-div_iff_mul-le p).1 (omega (arith, div-mul-le_self a d)) in
    elim (Bool-cases (ltb (a / d) (b / d))) [
      | inl less ↦ omega (arith, round_high a d, round_low b d, ltb→lt (a / d) (b / d) less)
      | inr e ↦
          let same : a / d ≡ b / d = ground arith in
          let times = ap (λ n. n * d) same in
          round_same a b d same
            (omega (arith, mod-eq-sub-div-mul a d, mod-eq-sub-div-mul b d, times))
    ]
