-- ===== src/Trust/Examples.antt =====
-- The modules of edge/trust on concrete signals.
use shtapm.Base.{ℕ, ◌≤◌, ◌≡◌, refl, true, arith}
use shtapm.Contracts.{gas}
use shtapm.Trust.Detection.{prior-IsReputation}
use shtapm.Trust.Engine.{new_engine}
use shtapm.Trust.Readings.{Signals, AllUnit}
use shtapm.Trust.Response.{round, Returns, silent_is_isolated}
use shtapm.Isolation.{TrustMap, update, no_channels}

-- Every signal of every channel is n / 10.
abbrev all_at : ℕ → Signals
all_at n = record {
  c = λ ch. record { num = n; den = 10 };
  k = λ ch. record { num = n; den = 10 };
  h = λ ch. record { num = n; den = 10 };
}

all_at-unit : (n : ℕ) → n ≤ 10 → AllUnit (all_at n)
all_at-unit n h ch = ((omega arith, h), (omega arith, h), (omega arith, h))

silent_is_isolated_example :
    (trust : TrustMap) × Returns (all_at 0) (round (all_at 0) (round (all_at 0) new_engine)) trust
    × ((update no_channels trust).0 gas ≡ true)
silent_is_isolated_example =
    silent_is_isolated new_engine (all_at 0) (all_at 0) (all_at 0) gas no_channels
      prior-IsReputation (all_at-unit 0 (omega arith)) (all_at-unit 0 (omega arith))
      (all_at-unit 0 (omega arith)) (refl, refl, refl) (refl, refl, refl) (refl, refl, refl)
