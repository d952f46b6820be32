-- ===== src/Drivers/Sensor.antt =====
-- `Sensor` of edge/drivers/base.py. A call takes what its raw read did and the time that its clock
-- gave, in milliseconds; its reading is one of the sampler's, without the unit and the time.
use shtapm.Base.{ℕ, ◌+◌, Bool, false, not, ◌&&◌, ltb, Option, none, some, if◌then◌else◌}
use shtapm.Base.Ratio.{Ratio, leb_r, ltb_r}
use shtapm.Acquisition.Sampler.{Reading, healthy, unhealthy}

-- An exception, None, what is no number (NaN with it), or a number.
pub data RawRead : Type 0 where
  raised missing not_a_number : RawRead
  number : Ratio → RawRead

-- A calibration of `none` raises or gives NaN. Of the state, the value that is reported unchanged
-- and since when.
pub record Sensor : Type 0 where
  pub calibrate : Option (Ratio → Option Ratio)
  pub value_range : Option (Ratio × Ratio)
  pub max_age : Option ℕ
  pub unchanged : Option (Ratio × ℕ)

abbrev pub new_sensor : Option (Ratio → Option Ratio) → Option (Ratio × Ratio) → Option ℕ → Sensor
new_sensor calibrate value_range max_age = record {
  calibrate = calibrate;
  value_range = value_range;
  max_age = max_age;
  unchanged = none;
}

abbrev pub same_value : Ratio → Ratio → Bool
same_value x y = leb_r x y && leb_r y x

unfoldable pub clamp : Ratio → Ratio → Ratio → Ratio
clamp value lo hi = if ltb_r value lo then lo else if ltb_r hi value then hi else value

abbrev pub clamp_to : Option (Ratio × Ratio) → Ratio → Ratio
clamp_to none value = value
clamp_to (some (lo, hi)) value = clamp value lo hi

-- `_is_stale`, of the value that was seen last.
unfoldable pub is_stale : ℕ → Option (Ratio × ℕ) → Ratio → ℕ → Option (Ratio × ℕ) × Bool
is_stale max_age none value now = (some (value, now), false)
is_stale max_age (some (seen, since)) value now =
    if not (same_value value seen)
    then (some (value, now), false)
    else (some (seen, since), ltb (since + max_age) now)

abbrev pub calibrated : Option (Ratio → Option Ratio) → Ratio → Option Ratio
calibrated none value = some value
calibrated (some f) value = f value

-- The end of `read`, with the value that would be reported.
unfoldable pub finish : Option ℕ → Ratio → ℕ → Sensor → Sensor × Reading
finish none value now s = (s, healthy value)
finish (some max_age) value now s =
    let (unchanged, is_old) = is_stale max_age s.unchanged value now in
    (record s { unchanged = unchanged }, if is_old then unhealthy else healthy value)

unfoldable pub read : RawRead → ℕ → Sensor → Sensor × Reading
unfolding finish
read raised now s = (s, unhealthy)
read missing now s = (s, unhealthy)
read not_a_number now s = (s, unhealthy)
read (number raw) now s = elim (calibrated s.calibrate raw) [
  | none ↦ (s, unhealthy)
  | some value ↦ finish s.max_age (clamp_to s.value_range value) now s
]
