-- ===== src/Anomaly/Glitch.antt =====
-- Which samples decide the motor's state of edge/anomaly/operating_state_rule.py.
use shtapm.Base.{
  ◌*◌, ◌<◌, ◌≡◌, refl, ◌⊎◌, inl, inr, true, false, List, length, arith, All, Bool-cases,
}
use shtapm.Base.Ratio.{Ratio, IsFraction, leb_r, ltb_r}
use shtapm.Base.Sorting.{count_r, leb_r_trans}
use shtapm.Base.Median.{median, median-le, median-ge, median-IsFraction}
use shtapm.Anomaly.Physics.{
  StateBands, idle, running, motor_state, RawWindow, Rule, check_window, consistent,
}

-- More than half of the samples are in the idle band, or in the running band.
abbrev pub MostlyIdle : StateBands → List Ratio → Type 0
MostlyIdle b xs = length xs < 2 * count_r (λ x. leb_r x b.idle_max) xs

abbrev pub MostlyRunning : StateBands → List Ratio → Type 0
MostlyRunning b xs = length xs < 2 * count_r (λ x. leb_r b.running_min x) xs

-- Bands with a gap, of positive denominators.
abbrev pub IsBand : StateBands → Type 0
IsBand b =
    IsFraction b.idle_max × IsFraction b.running_min × (ltb_r b.idle_max b.running_min ≡ true)

not_both : (x y : Ratio) → ltb_r x y ≡ true → leb_r y x ≡ true → true ≡ false
not_both x y p q = ground arith

module _ (b : StateBands) (xs : List Ratio) (f : All IsFraction xs) where
  mostly_idle : MostlyIdle b xs → motor_state b (median xs) ≡ idle
  unfolding motor_state
  mostly_idle h = rw (median-le xs b.idle_max f h) refl

  mostly_running : IsBand b → MostlyRunning b xs → motor_state b (median xs) ≡ running
  unfolding motor_state
  mostly_running (fi, fr, gap) h =
      let m = median-IsFraction xs f in
      let high = median-ge xs b.running_min f h in
      elim (Bool-cases (leb_r (median xs) b.idle_max)) [
        | inl low ↦
            let no =
              not_both b.idle_max b.running_min gap
                (leb_r_trans b.running_min (median xs) b.idle_max m high low) in
            cc
        | inr e ↦ rw (e, high) refl
      ]

abbrev pub AreFractions : RawWindow → Type 0
AreFractions w = All IsFraction w.current_samples × All IsFraction w.vibration_samples

-- Most samples of both channels tell one state.
abbrev pub Agree : Rule → RawWindow → Type 0
Agree r w =
    (MostlyIdle r.current_bands w.current_samples
      × MostlyIdle r.vibration_bands w.vibration_samples)
    ⊎ (MostlyRunning r.current_bands w.current_samples
        × MostlyRunning r.vibration_bands w.vibration_samples)

-- If more than half of the current samples and more than half of the vibration samples are in the
-- idle bands, or more than half of both are in the running bands, the rule finds no violation,
-- whatever the remaining samples are. The bands leave a gap.
pub check_window-Agree :
    (r : Rule) (w : RawWindow)
    → AreFractions w
    → IsBand r.current_bands
    → IsBand r.vibration_bands
    → Agree r w
    → check_window r w ≡ consistent
unfolding check_window
check_window-Agree r w (fc, fv) bc bv (inl (c, v)) =
    rw
      (
        mostly_idle r.current_bands w.current_samples fc c,
        mostly_idle r.vibration_bands w.vibration_samples fv v,
      )
      refl
check_window-Agree r w (fc, fv) bc bv (inr (c, v)) =
    rw
      (
        mostly_running r.current_bands w.current_samples fc bc c,
        mostly_running r.vibration_bands w.vibration_samples fv bv v,
      )
      refl
