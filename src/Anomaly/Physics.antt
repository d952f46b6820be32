-- ===== src/Anomaly/Physics.antt =====
-- edge/anomaly/operating_state_rule.py: the motor's state as current and vibration tell it, and
-- the rule on their agreement. A window's raw frames are the two channels' samples; the display
-- snapshot is left out.
use shtapm.Base.{
  ℕ, suc, ◌+◌, Bool, true, false, not, ◌&&◌, ◌||◌, ltb, ◌==◌, Option, none, some, List, [], ◌∷◌,
  if◌then◌else◌,
}
use shtapm.Base.Int.{pos, pos_part, neg_part}
use shtapm.Base.Ratio.{Ratio, frac, leb_r, ltb_r}
use shtapm.Base.Median.{median}
use shtapm.Contracts.{Channel, current, vibration}

pub data MotorState : Type 0 where
  idle running unclear : MotorState

pub record StateBands : Type 0 where
  pub idle_max : Ratio
  pub running_min : Ratio

-- `StateBands(...)`; `none` is the ValueError.
unfoldable pub new_bands : Ratio → Ratio → Option StateBands
new_bands idle_max running_min =
    if not (ltb_r idle_max running_min)
    then none
    else some (record { idle_max = idle_max; running_min = running_min })

unfoldable pub motor_state : StateBands → Ratio → MotorState
motor_state b m =
    if leb_r m b.idle_max then idle else if leb_r b.running_min m then running else unclear

abbrev pub bench_current_bands : StateBands
bench_current_bands = record { idle_max = frac 5 100; running_min = frac 3 10 }

abbrev pub bench_vibration_bands : StateBands
bench_vibration_bands = record { idle_max = frac 35 100; running_min = frac 5 10 }

-- `TRANSDUCER_LIMITS`.
abbrev pub current_limit : Ratio
current_limit = frac 32 10

abbrev pub vibration_limit : Ratio
vibration_limit = frac 624 100

-- The samples of a window.
pub record RawWindow : Type 0 where
  pub current_samples : List Ratio
  pub vibration_samples : List Ratio

-- A channel's last determinate state, and the window count at which it was entered.
pub record Entered : Type 0 where
  pub state : MotorState
  pub since : ℕ

pub record Rule : Type 0 where
  pub current_bands : StateBands
  pub vibration_bands : StateBands
  pub raw : Option RawWindow
  pub current_entered : Option Entered
  pub vibration_entered : Option Entered
  pub tick : ℕ
  pub fitted : Bool

unfoldable pub new_rule : StateBands → StateBands → Rule
new_rule current_bands vibration_bands = record {
  current_bands = current_bands;
  vibration_bands = vibration_bands;
  raw = none;
  current_entered = none;
  vibration_entered = none;
  tick = 0;
  fitted = false;
}

-- `fit` of at least one window.
unfoldable pub fit_rule : Rule → Rule
fit_rule r = record r { current_entered = none; vibration_entered = none; tick = 0; fitted = true }

abbrev pub same_state : MotorState → MotorState → Bool
same_state idle idle = true
same_state running running = true
same_state unclear unclear = true
same_state _ _ = false

abbrev pub is_unclear : MotorState → Bool
is_unclear unclear = true
is_unclear _ = false

-- What a channel's entry becomes in the window number `tick`.
unfoldable pub enter : ℕ → MotorState → Option Entered → Option Entered
enter tick s none = if is_unclear s then none else some (record { state = s; since = tick })
enter tick s (some e) =
    if not (is_unclear s) && not (same_state e.state s)
    then some (record { state = s; since = tick })
    else some e

unfoldable pub observe_raw_window : RawWindow → Rule → Rule
unfolding enter
observe_raw_window w r =
    let tick = suc r.tick in
    record r {
      raw = some w;
      tick = tick;
      current_entered =
          enter tick (motor_state r.current_bands (median w.current_samples)) r.current_entered;
      vibration_entered =
          enter tick (motor_state r.vibration_bands (median w.vibration_samples))
            r.vibration_entered;
    }

-- The reason texts: none, no suspect, or the suspect with both states.
pub data PhysicsReason : Type 0 where
  no_reason no_suspect : PhysicsReason
  says : Channel → MotorState → MotorState → PhysicsReason

pub record PhysicsCheck : Type 0 where
  pub violated : Bool
  pub suspect_channel : Option Channel
  pub reason : PhysicsReason

abbrev pub consistent : PhysicsCheck
consistent = record { violated = false; suspect_channel = none; reason = no_reason }

-- abs(x) > limit.
abbrev pub is_beyond : Ratio → Ratio → Bool
is_beyond limit x =
    ltb_r limit (record { num = pos (pos_part x.num + neg_part x.num); den = x.den })

unfoldable pub any_beyond : Ratio → List Ratio → Bool
any_beyond limit [] = false
any_beyond limit (x ∷ xs) = is_beyond limit x || any_beyond limit xs

abbrev pub since_of : Option Entered → ℕ
since_of none = 0
since_of (some e) = e.since

unfoldable pub suspect : MotorState → MotorState → ℕ → ℕ → PhysicsCheck
suspect c v since_cur since_vib =
    if since_cur == since_vib
    then record { violated = true; suspect_channel = none; reason = no_suspect }
    else if ltb since_vib since_cur
    then record { violated = true; suspect_channel = some current; reason = says current c v }
    else record { violated = true; suspect_channel = some vibration; reason = says vibration v c }

unfoldable pub check_window : Rule → RawWindow → PhysicsCheck
unfolding suspect
check_window r w =
    let c = motor_state r.current_bands (median w.current_samples) in
    let v = motor_state r.vibration_bands (median w.vibration_samples) in
    if is_unclear c || is_unclear v || same_state c v
    then consistent
    else if any_beyond current_limit w.current_samples
        || any_beyond vibration_limit w.vibration_samples
    then consistent
    else suspect c v (since_of r.current_entered) (since_of r.vibration_entered)

-- `check`: it uses the raw frames up; `none` is the RuntimeError.
unfoldable pub check_physics : Rule → Option (Rule × PhysicsCheck)
unfolding check_window
check_physics r =
    let answer : PhysicsCheck = elim r.raw [ none ↦ consistent | some w ↦ check_window r w ] in
    if not r.fitted then none else some (record r { raw = none }, answer)
