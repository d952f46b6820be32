-- ===== src/Anomaly/Detector.antt =====
-- edge/anomaly/detector.py: the result of a detector, its protocol and the placeholder. A detector
-- is its operations on a state; `none` is an exception.
use shtapm.Base.{ℕ, Bool, true, false, not, ◌&&◌, Option, none, some, List, length, if◌then◌else◌}
use shtapm.Base.Ratio.{Ratio, frac, leb_r}
use shtapm.Anomaly.Preprocess.{Window}

pub record AnomalyResult : Type 0 where
  pub flag : Bool
  pub severity : Ratio

abbrev pub in_unit : Ratio → Bool
in_unit x = leb_r (frac 0 1) x && leb_r x (frac 1 1)

-- `AnomalyResult(...)`; `none` is the ValueError.
unfoldable pub new_result : Bool → Ratio → Option AnomalyResult
new_result flag severity =
    if not (in_unit severity) then none else some (record { flag = flag; severity = severity })

-- The protocol `AnomalyDetector`.
pub record AnomalyDetector (D : Type 0) : Type 0 where
  pub fit : List Window → D → Option D
  pub score : Window → D → Option Ratio
  pub flag : Window → D → Option Bool

unfoldable pub detect : {D : Type 0} → AnomalyDetector D → Window → D → Option AnomalyResult
unfolding new_result
detect detector w d = elim (detector.flag w d) [
  | none ↦ none
  | some flag ↦ elim (detector.score w d) [ none ↦ none | some severity ↦ new_result flag severity ]
]

-- The state of `NullDetector`.
pub record NullState : Type 0 where
  pub fitted : Bool
  pub fit_count : ℕ

abbrev pub null_detector : AnomalyDetector NullState
null_detector = record {
  fit = λ windows d. some (record { fitted = true; fit_count = length windows });
  score = λ w d. some (frac 0 1);
  flag = λ w d. some false;
}
