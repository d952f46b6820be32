-- ===== src/Trust/Beta.antt =====
-- edge/trust/beta.py: the Beta reputation of one sensor. A weight, a signal and an evidence value
-- are fractions of natural numbers; alpha and beta stand over one denominator. A negative signal,
-- which `_check_unit` refuses like one above 1, has no counterpart.
use shtapm.Base.{
  ℕ, ◌+◌, ◌-◌, ◌*◌, Bool, not, ◌&&◌, ltb, leb, ◌||◌, Option, none, some, if◌then◌else◌,
}
use shtapm.Base.Ratio.{Ratio, frac}
use shtapm.Trust.Bands.{TrustBand, classify}

-- n / d.
pub record Fraction : Type 0 where
  pub num : ℕ
  pub den : ℕ

-- `_check_unit`, as a test.
abbrev pub is_unit : Fraction → Bool
is_unit x = leb x.num x.den

-- 0.4 * c + 0.3 * k + 0.3 * h.
unfoldable pub mix : Fraction → Fraction → Fraction → Fraction
mix c k h = record {
  num =
      4 * (c.num * (k.den * h.den)) + 3 * (k.num * (c.den * h.den)) + 3 * (h.num * (c.den * k.den));
  den = 10 * (c.den * (k.den * h.den));
}

-- `combine_g` of three signals; `none` is the ValueError.
unfoldable pub combine_g : Fraction → Fraction → Fraction → Option Fraction
unfolding mix
combine_g c k h = if is_unit c && is_unit k && is_unit h then some (mix c k h) else none

pub record BetaState : Type 0 where
  pub alpha : ℕ
  pub beta : ℕ
  pub scale : ℕ
  pub forgetting : Fraction

-- `BetaState(alpha, beta, forgetting)` with its checks, and with the default priors.
unfoldable pub new_beta : ℕ → ℕ → ℕ → Fraction → Option BetaState
new_beta alpha beta scale forgetting =
    if not (ltb 0 forgetting.num && leb forgetting.num forgetting.den)
    then none
    else if leb alpha 0 || leb beta 0
    then none
    else some (record { alpha = alpha; beta = beta; scale = scale; forgetting = forgetting })

abbrev pub default_lambda : Fraction
default_lambda = record { num = 7; den = 10 }

abbrev pub prior : BetaState
prior = record { alpha = 1; beta = 1; scale = 1; forgetting = default_lambda }

-- The property `trust`, alpha / (alpha + beta).
unfoldable pub trust_of : BetaState → Ratio
trust_of s = frac s.alpha (s.alpha + s.beta)

abbrev pub band_of : BetaState → TrustBand
band_of s = classify (trust_of s)

-- `update` for an evidence in [0, 1].
unfoldable pub decay : BetaState → Fraction → BetaState
decay s g =
    let old = s.forgetting.num * g.den in
    let new = s.forgetting.den * s.scale in
    record s {
      alpha = old * s.alpha + new * g.num;
      beta = old * s.beta + new * (g.den - g.num);
      scale = new * g.den;
    }

unfoldable pub update_beta : BetaState → Fraction → Option BetaState
update_beta s g = if is_unit g then some (decay s g) else none
