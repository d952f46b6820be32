-- ===== src/Trust/Reliability.antt =====
-- edge/trust/h_reliability.py: the moving average of the outcomes of a channel's windows.
use native.Mathlib.Nat.{mul-add}
use shtapm.Base.{
  ℕ, zero, suc, ◌+◌, ◌*◌, ◌≤◌, Bool, true, false, List, [], ◌∷◌, length, Option, none, some, String,
  arith, if◌then◌else◌,
}
use shtapm.Contracts.{Channel, channel_of}
use shtapm.Trust.Beta.{Fraction}
use shtapm.Trust.Detection.{IsUnit}
use shtapm.Trust.Detection.{IsUnit}
use shtapm.Trust.Engine.{put}

abbrev pub Histories : Type 0
Histories = Channel → Fraction

-- `H_INIT` for every channel.
abbrev pub new_histories : Histories
new_histories ch = record { num = 1; den = 1 }

-- GAMMA * h + (1 - GAMMA) * outcome, with GAMMA = 19/20.
unfoldable pub average : Fraction → Bool → Fraction
average h was_healthy = record {
  num = 19 * h.num + (if was_healthy then h.den else 0);
  den = 20 * h.den;
}

-- `record_outcome`; `none` is the ValueError of an unknown channel.
unfoldable pub record_outcome : String → Bool → Histories → Option Histories
record_outcome name was_healthy hs = elim (channel_of name) [
  | none ↦ none
  | some ch ↦ some (put ch (average (hs ch) was_healthy) hs)
]

-- `evaluate`.
unfoldable pub evaluate_h : String → Histories → Option Fraction
evaluate_h name hs = elim (channel_of name) [ none ↦ none | some ch ↦ some (hs ch) ]

-- A channel's value after its outcomes, newest first.
unfoldable pub average_all : Fraction → List Bool → Fraction
average_all h [] = h
average_all h (o ∷ older) = average (average_all h older) o

abbrev pub power : ℕ → ℕ → ℕ
power b zero = 1
power b (suc n) = b * power b n

pub average-IsUnit : (h : Fraction) (o : Bool) → IsUnit h → IsUnit (average h o)
unfolding average
average-IsUnit h true (p, q) = (omega arith, omega arith)
average-IsUnit h false (p, q) = (omega arith, omega arith)

slower : (p q n d x : ℕ) → p * d ≤ q * n → 19 * p * (20 * d) ≤ 20 * q * (19 * n + x)
slower p q n d x h = omega (arith, h, mul-add (20 * q) (19 * n) x)

-- From the clean-history prior, a channel's reliability after any outcomes is in [0, 1] and at
-- least 0.95 to the power of their number.
pub average_all_bounds :
    (os : List Bool)
    → let h = average_all (record { num = 1; den = 1 }) os in
      (h.num ≤ h.den) × (power 19 (length os) * h.den ≤ power 20 (length os) * h.num)
unfolding average_all average
average_all_bounds [] = (omega arith, omega arith)
average_all_bounds (true ∷ older) =
    let h = average_all (record { num = 1; den = 1 }) older in
    let (p, q) = average_all_bounds older in
    (omega arith, slower (power 19 (length older)) (power 20 (length older)) h.num h.den h.den q)
average_all_bounds (false ∷ older) =
    let h = average_all (record { num = 1; den = 1 }) older in
    let (p, q) = average_all_bounds older in
    (omega arith, slower (power 19 (length older)) (power 20 (length older)) h.num h.den 0 q)
