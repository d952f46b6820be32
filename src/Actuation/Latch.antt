-- ===== src/Actuation/Latch.antt =====
-- The safe-stop latch of edge/actuation/supervisor.py: nothing but an operator starts the pump.
use shtapm.Base.{◌≡◌, Bool, true, false, ◌&&◌, List, [], ◌∷◌, String, str_eq, arith, All}
use shtapm.Actuation.Relay.{off, is_state_on, Actuator, NeverCloses}
use shtapm.Actuation.Supervisor.{
  Moment, Supervisor, Call, frames, commands, safe_stops, watches, stops, stop, stop_safely,
  on_frame, on_command, watch_round, step, run,
}

-- A command that starts the pump of this device.
abbrev pub is_start : String → Call → Bool
is_start device (commands c) = str_eq c.device_id device && is_state_on c.state
is_start device _ = false

module _ {S : Type 0} (a : Actuator S) where
  -- The relay is open and a safe stop is latched.
  pub record IsHeld (s : Supervisor S) : Type 0 where
    pub open_relay : a.get_state s.relay ≡ off
    pub held : s.latched ≡ true

module _ {S : Type 0} {a : Actuator S} (safe : NeverCloses a) where
  step_device : (s : Supervisor S) (c : Moment × Call) → (step a s c).device_id ≡ s.device_id
  unfolding step on_frame on_command watch_round stop_safely stop
  step_device s (m, frames current stale) = ground arith
  step_device s (m, commands c) = ground arith
  step_device s (m, safe_stops text) = ground arith
  step_device s (m, watches) = ground arith
  step_device s (m, stops) = ground arith

  pub step-IsHeld :
      (s : Supervisor S) (c : Moment × Call)
      → is_start s.device_id c.1 ≡ false
      → IsHeld a s
      → IsHeld a (step a s c)
  unfolding step on_frame on_command watch_round stop_safely stop
  step-IsHeld s (m, frames current stale) n h = ground (arith, safe.stays_off s.relay)
  step-IsHeld s (m, commands c) n h = ground (arith, safe.stays_off s.relay)
  step-IsHeld s (m, safe_stops text) n h = ground (arith, safe.stays_off s.relay)
  step-IsHeld s (m, watches) n h = ground (arith, safe.stays_off s.relay)
  step-IsHeld s (m, stops) n h = ground (arith, safe.stays_off s.relay)

  -- After a safe stop the relay stays open and the latch stays set through every history of
  -- frames, further safe stops, watchdog rounds, a shutdown, stop commands and commands to other
  -- devices, whenever the driver may raise but never closes the relay on being told to open it.
  pub run-IsHeld :
      (s : Supervisor S) (cs : List (Moment × Call))
      → All (λ c. is_start s.device_id c.1 ≡ false) cs
      → IsHeld a s
      → IsHeld a (run a s cs)
  unfolding run
  run-IsHeld s [] n h = h
  run-IsHeld s (c ∷ cs) n h =
      run-IsHeld (step a s c) cs (rw (step_device s c) (n.1)) (step-IsHeld s c n.0 h)
