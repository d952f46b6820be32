-- ===== src/Actuation/Supervisor.antt =====
-- `SafetySupervisor` of edge/actuation/supervisor.py over an actuator, with the wire types of
-- backend/app/schemas/actuation.py. A method takes the clock and the wall time that it reads, and
-- returns the new supervisor; `published` holds what was handed to `_publish`, newest first.
use shtapm.Base.{
  ℕ, Bool, true, false, not, ◌||◌, Option, none, some, List, [], ◌∷◌, String, str_eq, if◌then◌else◌,
}
use shtapm.Base.Int.{ℤ}
use shtapm.Actuation.Watchdog.{Watchdog, new_watchdog, kick, check, reset}
use shtapm.Actuation.Relay.{RelayState, off, on, Actuator, switch_on, safe_off, is_on}
use shtapm.Actuation.DryRun.{DryRunDetector, reset_detector, observe}

-- `ActuationCause`.
pub data Cause : Type 0 where
  startup command safe_stop dry_run watchdog shutdown : Cause

-- `AUTONOMOUS_CAUSES`.
abbrev pub is_autonomous : Cause → Bool
is_autonomous safe_stop = true
is_autonomous dry_run = true
is_autonomous watchdog = true
is_autonomous _ = false

-- The texts of `reason`, one constructor for each format string of the file.
pub data Reason : Type 0 where
  edge_started edge_stopped blind_or_stalled : Reason
  started_by stopped_by : String → Reason
  dry_at : ℤ → ℤ → Reason
  given : String → Reason

pub record Status : Type 0 where
  pub device_id : String
  pub ts : String
  pub relay : RelayState
  pub cause : Cause
  pub reason : Reason
  pub latched : Bool
  pub hardware : Bool

pub record RelayCommand : Type 0 where
  pub device_id : String
  pub state : RelayState
  pub issued_by : String

-- The readings of `time.monotonic` and `now_iso` during one call.
pub record Moment : Type 0 where
  pub clock : ℕ
  pub iso : String

pub record Supervisor (S : Type 0) : Type 0 where
  pub device_id : String
  pub hardware : Bool
  pub relay : S
  pub detector : Option DryRunDetector
  pub latched : Bool
  pub last : Option Status
  pub timer : Watchdog
  pub stopping : Bool
  pub published : List Status

-- What `command` does to its caller: `return False`, `return True`, or the driver's exception.
pub data Reply : Type 0 where
  ignored accepted raised : Reply

-- `SafetySupervisor.__init__`; `none` is the ValueError of its watchdog. The controller that made
-- the relay safe was built before.
unfoldable pub new_supervisor :
    {S : Type 0} → String → Bool → S → Option DryRunDetector → ℕ → ℕ → Option (Supervisor S)
new_supervisor device_id hardware relay detector timeout now = elim (new_watchdog timeout now) [
  | none ↦ none
  | some w ↦ some (record {
    device_id = device_id;
    hardware = hardware;
    relay = relay;
    detector = detector;
    latched = false;
    last = none;
    timer = w;
    stopping = false;
    published = [];
  })
]

module _ {S : Type 0} (a : Actuator S) where
  unfoldable pub emit : Supervisor S → Cause → Reason → Moment → Supervisor S
  unfolding is_on
  emit s cause reason m =
      let status : Status = record {
        device_id = s.device_id;
        ts = m.iso;
        relay = if is_on a s.relay then on else off;
        cause = cause;
        reason = reason;
        latched = s.latched;
        hardware = s.hardware;
      } in
      record s { last = some status; published = status ∷ s.published }

  -- The driver's exception is logged and swallowed.
  unfoldable pub switch_off : Supervisor S → Supervisor S
  unfolding safe_off
  switch_off s = record s { relay = (safe_off a s.relay).0 }

  -- `start`, without the thread.
  unfoldable pub start : Supervisor S → Moment → Supervisor S
  unfolding emit
  start s m = emit s startup edge_started m

  unfoldable pub stop : Supervisor S → Moment → Supervisor S
  unfolding emit switch_off
  stop s m = emit (switch_off (record s { stopping = true })) shutdown edge_stopped m

  -- `safe_stop`: off, and latched until an operator starts the pump.
  unfoldable pub stop_safely : Supervisor S → Cause → Reason → Moment → Supervisor S
  unfolding emit switch_off is_on
  stop_safely s cause reason m =
      let was_on = is_on a s.relay in
      let s' = switch_off s in
      if was_on || not s'.latched then emit (record s' { latched = true }) cause reason m else s'

  -- The frame's current, behind the test for a held value.
  unfoldable pub feed_detector : Supervisor S → DryRunDetector → ℤ → Moment → Supervisor S
  unfolding stop_safely is_on
  feed_detector s d current m =
      let (d', dry) = observe d current (is_on a s.relay) m.clock in
      let s' = record s { detector = some d' } in
      if dry then stop_safely s' dry_run (dry_at current d'.threshold) m else s'

  -- `stale` says whether "current" is among the frame's stale channels.
  unfoldable pub on_frame : Supervisor S → ℤ → Bool → Moment → Supervisor S
  unfolding feed_detector kick
  on_frame s current stale m =
      if stale
      then s
      else let s' = record s { timer = kick s.timer m.clock } in
        elim s'.detector [ none ↦ s' | some d ↦ feed_detector s' d current m ]

  abbrev restart_detector : Option DryRunDetector → ℕ → Option DryRunDetector
  restart_detector none now = none
  restart_detector (some d) now = some (reset_detector d now)

  -- `command` for `state == "on"`; `ran` is false if the driver raised, and nothing else happens.
  unfoldable pub start_pump : Supervisor S → S × Bool → String → Moment → Supervisor S × Reply
  unfolding emit reset reset_detector
  start_pump s (relay, ran) issued_by m =
      if ran
      then (
        emit
            (record s {
              relay = relay;
              latched = false;
              timer = reset s.timer m.clock;
              detector = restart_detector s.detector m.clock;
            })
            command (started_by issued_by) m,
        accepted,
      )
      else (record s { relay = relay }, raised)

  unfoldable pub on_command : Supervisor S → RelayCommand → Moment → Supervisor S × Reply
  unfolding start_pump switch_off emit switch_on
  on_command s c m = if not (str_eq c.device_id s.device_id) then (s, ignored) else elim c.state [
    | on ↦ start_pump s (switch_on a s.relay) c.issued_by m
    | off ↦ (emit (switch_off s) command (stopped_by c.issued_by) m, accepted)
  ]

  -- `_on_watchdog`.
  unfoldable pub on_watchdog : Supervisor S → Moment → Supervisor S
  unfolding stop_safely is_on
  on_watchdog s m = if is_on a s.relay then stop_safely s watchdog blind_or_stalled m else s

  -- `check_watchdog`: the callback runs inside `check`, and an expired timer is re-armed.
  unfoldable pub check_watchdog : Supervisor S → Moment → Supervisor S
  unfolding on_watchdog check reset
  check_watchdog s m =
      let (w, fires) = check s.timer m.clock in
      let s' = record s { timer = w } in
      let s'' = if fires then on_watchdog s' m else s' in
      if w.expired then record s'' { timer = reset s''.timer m.clock } else s''

  -- One round of `_watch`, which ends once `stop` was called.
  unfoldable pub watch_round : Supervisor S → Moment → Supervisor S
  unfolding check_watchdog
  watch_round s m = if s.stopping then s else check_watchdog s m

-- The calls that reach a supervisor; `safe_stops` is the self-heal escalation.
pub data Call : Type 0 where
  frames : ℤ → Bool → Call
  commands : RelayCommand → Call
  safe_stops : String → Call
  watches stops : Call

module _ {S : Type 0} (a : Actuator S) where
  unfoldable pub step : Supervisor S → Moment × Call → Supervisor S
  step s (m, frames current stale) = on_frame a s current stale m
  step s (m, commands c) = (on_command a s c m).0
  step s (m, safe_stops text) = stop_safely a s safe_stop (given text) m
  step s (m, watches) = watch_round a s m
  step s (m, stops) = stop a s m

  unfoldable pub run : Supervisor S → List (Moment × Call) → Supervisor S
  run s [] = s
  run s (c ∷ cs) = run (step s c) cs
