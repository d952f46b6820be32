-- ===== src/Actuation/Stops.antt =====
-- The autonomous stops of edge/actuation/supervisor.py: what each does, and when the watchdog
-- brings one about.
use shtapm.Base.{
  ℕ, ◌+◌, ◌≡◌, ◌≤◌, ◌<◌, refl, Bool, true, false, some, List, [], ◌∷◌, arith, ◌⊎◌, inl, inr, All,
}
use shtapm.Actuation.Relay.{off, on, Actuator, IsReliable, NeverCloses}
use shtapm.Actuation.Supervisor.{
  Cause, Status, Moment, Supervisor, Call, Reason, frames, commands, safe_stops, watches, stops,
  stop_safely, on_frame, watch_round, step, run,
}
use shtapm.Actuation.Latch.{IsHeld, is_start, step-IsHeld}

-- The status that a safe stop publishes.
abbrev pub stop_status : {S : Type 0} → Supervisor S → Cause → Reason → Moment → Status
stop_status s cause reason m = record {
  device_id = s.device_id;
  ts = m.iso;
  relay = off;
  cause = cause;
  reason = reason;
  latched = true;
  hardware = s.hardware;
}

-- Frames that bring no live current reading, and rounds of the watchdog.
abbrev pub is_blind : Call → Bool
is_blind (frames current stale) = stale
is_blind watches = true
is_blind _ = false

blind_is_no_start :
    {S : Type 0} (s : Supervisor S) (c : Moment × Call)
    → is_blind c.1 ≡ true
    → is_start s.device_id c.1 ≡ false
blind_is_no_start s (m, frames current stale) b = refl
blind_is_no_start s (m, commands c) b = cc
blind_is_no_start s (m, safe_stops text) b = refl
blind_is_no_start s (m, watches) b = refl
blind_is_no_start s (m, stops) b = refl

module _ {S : Type 0} {a : Actuator S} (reliable : IsReliable a) where
  never_closes : NeverCloses a
  never_closes = record { stays_off = λ s h. reliable.get-set off s }

  -- A safe stop opens the relay and latches. It publishes one status with its cause, saying that
  -- the relay is off and latched, unless the pump was off and latched before: then it publishes
  -- nothing and keeps the last status.
  pub stop_safely_lem :
      (s : Supervisor S) (cause : Cause) (reason : Reason) (m : Moment)
      → let s' = stop_safely a s cause reason m in
        IsHeld a s'
        × ((IsHeld a s × (s'.published ≡ s.published) × (s'.last ≡ s.last))
            ⊎ (((a.get_state s.relay ≡ on) ⊎ (s.latched ≡ false))
                × (s'.published ≡ stop_status s cause reason m ∷ s.published)
                × (s'.last ≡ some (stop_status s cause reason m))))
  unfolding stop_safely
  stop_safely_lem s cause reason m = ground (arith, reliable.get-set off s.relay)

  -- Running on a timer that was fed last at `fed`.
  record IsRunning (fed timeout : ℕ) (s : Supervisor S) : Type 0 where
    relay_on : a.get_state s.relay ≡ on
    alive : s.stopping ≡ false
    armed : s.timer.expired ≡ false
    last_fed : s.timer.last_kick ≡ fed
    limit : s.timer.timeout ≡ timeout

  step_blind :
      (fed timeout : ℕ) (s : Supervisor S) (c : Moment × Call)
      → is_blind c.1 ≡ true
      → IsRunning fed timeout s
      → IsRunning fed timeout (step a s c) ⊎ IsHeld a (step a s c)
  unfolding step on_frame watch_round
  step_blind fed timeout s (m, frames current stale) b h = ground arith
  step_blind fed timeout s (m, commands c) b h = cc
  step_blind fed timeout s (m, safe_stops text) b h = cc
  step_blind fed timeout s (m, watches) b h = ground (arith, reliable.get-set off s.relay)
  step_blind fed timeout s (m, stops) b h = cc

  late_round :
      (fed timeout : ℕ) (s : Supervisor S) (m : Moment)
      → fed + timeout < m.clock
      → IsRunning fed timeout s ⊎ IsHeld a s
      → IsHeld a (watch_round a s m)
  unfolding watch_round
  late_round fed timeout s m late (inl h) = ground (arith, reliable.get-set off s.relay)
  late_round fed timeout s m late (inr h) = ground (arith, reliable.get-set off s.relay)

  blind_round :
      (fed timeout : ℕ) (s : Supervisor S) (cs : List (Moment × Call)) (m : Moment)
      → All (λ c. is_blind c.1 ≡ true) cs
      → fed + timeout < m.clock
      → IsRunning fed timeout s ⊎ IsHeld a s
      → IsHeld a (watch_round a (run a s cs) m)
  unfolding run
  blind_round fed timeout s [] m b late h = late_round fed timeout s m late h
  blind_round fed timeout s (c ∷ cs) m b late (inl h) =
      blind_round fed timeout (step a s c) cs m b.1 late (step_blind fed timeout s c b.0 h)
  blind_round fed timeout s (c ∷ cs) m b late (inr h) =
      blind_round fed timeout (step a s c) cs m b.1 late
        (inr (step-IsHeld never_closes s c (blind_is_no_start s c b.0) h))

  -- A pump that runs without a live current reading is stopped: let the pump be on, the watchdog
  -- thread alive and its timer not expired. After any history of frames with a held current and
  -- of watchdog rounds, the first round later than the timeout after the last feeding leaves
  -- the relay open and the stop latched, whatever rounds came before it.
  pub blind_pump_stops :
      (s : Supervisor S) (cs : List (Moment × Call)) (m : Moment)
      → a.get_state s.relay ≡ on
      → s.stopping ≡ false
      → s.timer.expired ≡ false
      → All (λ c. is_blind c.1 ≡ true) cs
      → s.timer.last_kick + s.timer.timeout < m.clock
      → IsHeld a (watch_round a (run a s cs) m)
  blind_pump_stops s cs m up alive armed b late =
      blind_round s.timer.last_kick s.timer.timeout s cs m b late (
        inl (record { relay_on = up; alive = alive; armed = armed; last_fed = refl; limit = refl }))

  -- A round of the watchdog that is not late changes nothing, and neither does a late one while
  -- the pump is off, but for the timer, which starts anew.
  pub watch_round_quiet :
      (s : Supervisor S) (m : Moment)
      → s.timer.expired ≡ false
      → (m.clock ≤ s.timer.last_kick + s.timer.timeout) ⊎ (a.get_state s.relay ≡ off)
      → let s' = watch_round a s m in
        (s'.relay ≡ s.relay)
        × (s'.latched ≡ s.latched)
        × (s'.published ≡ s.published)
        × (s'.timer.expired ≡ false)
        × ((s'.timer.last_kick ≡ s.timer.last_kick) ⊎ (s'.timer.last_kick ≡ m.clock))
  unfolding watch_round
  watch_round_quiet s m armed h = ground arith
