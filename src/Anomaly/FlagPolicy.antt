-- ===== src/Anomaly/FlagPolicy.antt =====
-- edge/anomaly/policy.py: which channels an anomalous window flags, by the rank of each channel's
-- variance among those of its own baseline.
use shtapm.Base.{
  ℕ, ◌+◌, ◌*◌, ◌≤◌, ◌≡◌, refl, Bool, true, false, not, ◌||◌, ltb, leb, Option, none, some, List, [],
  ◌∷◌, map, length, arith, ◌↔◌, ◌⊎◌, inl, inr, Bool-cases, if◌then◌else◌,
}
use shtapm.Base.Ratio.{Ratio, frac, leb_r, ◌-r◌}
use shtapm.Base.Sorting.{sorted_r, length-sorted_r}
use shtapm.Base.Stats.{sample_variance, double_rank, bisect_left, above, double_rank-sorted_r}
use shtapm.Contracts.{Channel, ChannelSet}
use shtapm.Anomaly.Preprocess.{Window}
use shtapm.Anomaly.Detector.{AnomalyResult, in_unit}

unfoldable pub window_channel_variance : Window → Channel → Ratio
window_channel_variance w ch =
    let values = w.features ch in if ltb 1 (length values) then sample_variance values else frac 0 1

pub record FlagPolicy : Type 0 where
  pub tail_fraction : Ratio
  pub train_variance_sorted : Channel → List Ratio
  pub fitted : Bool

-- `SeverityThresholdFlagPolicy(tail_fraction)`; `none` is the ValueError.
unfoldable pub new_flag_policy : Ratio → Option FlagPolicy
new_flag_policy tail =
    if not (in_unit tail)
    then none
    else some (record { tail_fraction = tail; train_variance_sorted = λ ch. []; fitted = false })

-- The variances of a channel in some windows.
abbrev pub baseline_of : List Window → Channel → List Ratio
baseline_of windows ch = map (λ w. window_channel_variance w ch) windows

abbrev pub is_empty : List Window → Bool
is_empty [] = true
is_empty (w ∷ ws) = false

-- `fit`; `none` is the ValueError.
unfoldable pub fit_policy : List Window → FlagPolicy → Option FlagPolicy
fit_policy windows p =
    if is_empty windows
    then none
    else some (record p {
      train_variance_sorted = λ ch. sorted_r (baseline_of windows ch);
      fitted = true;
    })

-- The test of one channel.
unfoldable pub is_outlier : Ratio → List Ratio → Ratio → Bool
is_outlier tail train current_var =
    let percentile = frac (double_rank train current_var) (2 * length train) in
    leb_r percentile tail || leb_r (frac 1 1 -r tail) percentile

-- `flags`; `none` is the RuntimeError.
unfoldable pub flags : FlagPolicy → Window → AnomalyResult → Option ChannelSet
unfolding is_outlier
flags p w anomaly =
    if not anomaly.flag
    then some (λ ch. false)
    else if not p.fitted
    then none
    else some (λ ch.
      is_outlier p.tail_fraction (p.train_variance_sorted ch) (window_channel_variance w ch))

-- The default of `tail_fraction`.
abbrev pub default_tail : Ratio
default_tail = frac 1 10

-- x lies below four fifths more of the items than it lies above, or the other way round.
abbrev pub IsExtreme : List Ratio → Ratio → Type 0
IsExtreme xs x =
    (4 * length xs + 5 * bisect_left xs x ≤ 5 * above xs x)
    ⊎ (4 * length xs + 5 * above xs x ≤ 5 * bisect_left xs x)

tail_test :
    (d n a b : ℕ)
    → d + a ≡ b + n
    → ((leb (d * 10 + 0 * (2 * n)) (1 * (2 * n) + 0)
          || leb (9 * (2 * n) + 0) (d * 10 + 0 * (2 * n)))
        ≡ true)
      ↔ ((4 * n + 5 * b ≤ 5 * a) ⊎ (4 * n + 5 * a ≤ 5 * b))
tail_test d n a b e = ground arith

is_outlier_lem :
    (xs : List Ratio) (x : Ratio)
    → (is_outlier default_tail (sorted_r xs) x ≡ true) ↔ IsExtreme xs x
unfolding is_outlier ◌-r◌
is_outlier_lem xs x =
    rw (is_outlier, length-sorted_r xs)
      (tail_test (double_rank (sorted_r xs) x) (length xs) (above xs x) (bisect_left xs x)
        (double_rank-sorted_r xs x))

module _ (windows : List Window) (p : FlagPolicy) (some_window : is_empty windows ≡ false)
    (default : p.tail_fraction ≡ default_tail) where
  abbrev pub fitted_policy : FlagPolicy
  fitted_policy = record p {
    train_variance_sorted = λ ch. sorted_r (baseline_of windows ch);
    fitted = true;
  }

  -- The flags of a window, by the extremes of the baseline.
  abbrev pub Flags : Window → AnomalyResult → ChannelSet → Type 0
  Flags w anomaly out =
      (ch : Channel)
      → (out ch ≡ true) ↔ (
          (anomaly.flag ≡ true) × IsExtreme (baseline_of windows ch) (window_channel_variance w ch))

  fitted_flags :
      (w : Window) (anomaly : AnomalyResult)
      → (out : ChannelSet) × (flags fitted_policy w anomaly ≡ some out) × Flags w anomaly out
  unfolding flags
  fitted_flags w anomaly = elim (Bool-cases anomaly.flag) [
    | inr quiet ↦ (λ ch. false, rw (flags, quiet) refl, λ ch. (λ e. cc, λ (e, x). cc))
    | inl loud ↦ (
      λ ch.
          is_outlier default_tail (sorted_r (baseline_of windows ch))
            (window_channel_variance w ch),
      rw (flags, loud, default) refl,
      λ ch.
          let law = is_outlier_lem (baseline_of windows ch) (window_channel_variance w ch) in
          (λ e. (loud, law.0 e), λ (e, x). law.1 x),
    )
  ]

  -- A policy with the default tail fraction that is fitted on at least one window never raises. It
  -- flags a channel exactly if the detector flags the window and the variance of the channel is
  -- extreme in the channel's own baseline: the share of the baseline windows with a larger
  -- variance exceeds the share with a smaller one by four fifths or more, or the other way round.
  -- The order of the baseline windows and the variances of other channels are of no account.
  pub flags_lem :
      (w : Window) (anomaly : AnomalyResult)
      → (fit_policy windows p ≡ some fitted_policy)
        × (out : ChannelSet) × (flags fitted_policy w anomaly ≡ some out)
        × Flags w anomaly out
  unfolding fit_policy
  flags_lem w anomaly = let (out, e, h) = fitted_flags w anomaly in (rw some_window refl, out, e, h)
