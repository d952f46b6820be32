-- ===== src/Anomaly/Consistency.antt =====
-- The c signal of edge/trust/c_consistency.py: the rank of a window's residual among those of the
-- baseline windows. NumPy's square root is an argument.
use shtapm.Base.{
  ◌+◌, ◌-◌, ◌*◌, ◌≤◌, ◌≡◌, refl, Bool, true, false, not, Option, none, some, List, [], ◌∷◌, ◌++◌,
  map, length, arith, if◌then◌else◌,
}
use shtapm.Base.Ratio.{Ratio, frac, ◌+r◌, ◌-r◌, ◌*r◌, ◌/r◌}
use shtapm.Base.Sorting.{sorted_r, length-sorted_r}
use shtapm.Base.Stats.{
  sum_r, over, mean_r, squares_about, double_rank, bisect_left, above, double_rank-sorted_r,
  below_and_above,
}
use shtapm.Contracts.{Channel}
use shtapm.Trust.Beta.{Fraction}
use shtapm.Trust.Detection.{IsUnit}
use shtapm.Trust.Engine.{Provider}
use shtapm.Anomaly.Preprocess.{Window}

pub record Consistency : Type 0 where
  pub train_mean : Channel → Ratio
  pub train_std : Channel → Ratio
  pub train_rms_z_sorted : Channel → List Ratio
  pub c : Provider
  pub fitted : Bool

abbrev pub new_consistency : Consistency
new_consistency = record {
  train_mean = λ ch. frac 0 1;
  train_std = λ ch. frac 0 1;
  train_rms_z_sorted = λ ch. [];
  c = λ ch. record { num = 1; den = 2 };
  fitted = false;
}

-- All samples of a channel, in the order of the windows.
unfoldable pub data_of : List Window → Channel → List Ratio
data_of [] ch = []
data_of (w ∷ ws) ch = w.features ch ++ data_of ws ch

-- `np.searchsorted` ranks, counted.
unfoldable pub consistency_of : List Ratio → Ratio → Fraction
consistency_of train rms_z = record {
  num = 2 * length train - double_rank train rms_z;
  den = 2 * length train;
}

module _ (sqrt : Ratio → Ratio) where
  -- `np.std`.
  unfoldable pub std_r : List Ratio → Ratio
  unfolding sum_r mean_r
  std_r xs = sqrt (over (sum_r (squares_about (mean_r xs) xs)) (length xs))

  -- The square of a z-score.
  unfoldable pub squared_z : Ratio → Ratio → Ratio → Ratio
  squared_z mean std x = let z = (x -r mean) /r (std +r frac 1 100000000) in z *r z

  unfoldable pub rms_z : Ratio → Ratio → List Ratio → Ratio
  unfolding mean_r squared_z
  rms_z mean std samples = sqrt (mean_r (map (squared_z mean std) samples))

  -- `fit` of the windows w and ws, which are not empty.
  unfoldable pub fit_windows : List Window → Consistency → Consistency
  unfolding data_of std_r rms_z mean_r
  fit_windows windows p =
      let mean : Channel → Ratio = λ ch. mean_r (data_of windows ch) in
      let std : Channel → Ratio = λ ch. std_r (data_of windows ch) in
      record p {
        train_mean = mean;
        train_std = std;
        train_rms_z_sorted =
            λ ch. sorted_r (map (λ (w : Window). rms_z (mean ch) (std ch) (w.features ch)) windows);
        fitted = true;
      }

  -- `fit`; `none` is the ValueError.
  unfoldable pub fit : List Window → Consistency → Option Consistency
  unfolding fit_windows
  fit [] p = none
  fit (w ∷ ws) p = some (fit_windows (w ∷ ws) p)

  -- `record_window`; `none` is the RuntimeError.
  unfoldable pub record_window : Window → Consistency → Option Consistency
  unfolding consistency_of rms_z
  record_window w p =
      if not p.fitted
      then none
      else some (record p {
        c = λ ch.
            consistency_of (p.train_rms_z_sorted ch)
              (rms_z (p.train_mean ch) (p.train_std ch) (w.features ch));
      })

-- The signal by the items on both sides of the residual.
consistency_of_lem :
    (xs : List Ratio) (x : Ratio)
    → let g = consistency_of (sorted_r xs) x in
      (g.den ≡ 2 * length xs)
      × (g.num ≤ g.den)
      × (g.num + bisect_left xs x ≡ length xs + above xs x)
unfolding consistency_of
consistency_of_lem xs x =
    let l = length-sorted_r xs in
    let r = double_rank-sorted_r xs x in
    let b = below_and_above xs x in (omega (arith, l), omega arith, omega (arith, l, r, b))

length-map : {A B : Type 0} (f : A → B) (xs : List A) → length (map f xs) ≡ length xs
length-map f [] = refl
length-map f (x ∷ xs) = omega (arith, length-map f xs)

module _ (sqrt : Ratio → Ratio) (w : Window) (ws : List Window) (p : Consistency) where
  -- The residuals of a channel's baseline, and the residual of a window against it.
  abbrev pub residual : Channel → Window → Ratio
  unfolding fit_windows
  residual ch v =
      let fitted = fit_windows sqrt (w ∷ ws) p in
      rms_z sqrt (fitted.train_mean ch) (fitted.train_std ch) (v.features ch)

  abbrev pub residuals : Channel → List Ratio
  residuals ch = map (residual ch) (w ∷ ws)

  -- The c signal of a residual against those of the baseline.
  abbrev pub IsRank : Channel → Window → Fraction → Type 0
  IsRank ch v g =
      IsUnit g
      × (g.den ≡ 2 * length (w ∷ ws))
      × (g.num + bisect_left (residuals ch) (residual ch v)
          ≡ length (w ∷ ws) + above (residuals ch) (residual ch v))

  abbrev pub recorded : Window → Channel → Fraction
  recorded v ch = consistency_of (sorted_r (residuals ch)) (residual ch v)

  recorded-IsRank : (v : Window) (ch : Channel) → IsRank ch v (recorded v ch)
  recorded-IsRank v ch =
      let (d, u, e) = consistency_of_lem (residuals ch) (residual ch v) in
      let n = length-map (residual ch) ws in
      ((omega (arith, d), u), omega (arith, d, n), omega (arith, e, n))

  -- After a fit on at least one window, recording a window never raises, whatever the square root
  -- answers. The c signal of each channel is then a fraction in [0, 1] with twice the number n of
  -- baseline windows as its denominator, and (n + a - b) as its numerator, where a and b count
  -- the baseline windows of a larger and of a smaller residual than the window's.
  pub record_window_lem :
      (v : Window)
      → (fitted : Consistency) × (fit sqrt (w ∷ ws) p ≡ some fitted)
        × (after : Consistency) × (record_window sqrt v fitted ≡ some after)
        × ((ch : Channel) → IsRank ch v (after.c ch))
  unfolding fit record_window fit_windows consistency_of
  record_window_lem v = (
    fit_windows sqrt (w ∷ ws) p,
    refl,
    record (fit_windows sqrt (w ∷ ws) p) { c = recorded v },
    refl,
    λ ch. recorded-IsRank v ch,
  )
