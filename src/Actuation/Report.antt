-- ===== src/Actuation/Report.antt =====
-- What the supervisor of edge/actuation/supervisor.py publishes, against the relay itself.
use shtapm.Base.{
  ◌≡◌, refl, Bool, false, Option, some, List, [], ◌∷◌, arith, if◌then◌else◌, ◌⊎◌, inl,
}
use shtapm.Base.Int.{ℤ}
use shtapm.Actuation.Relay.{RelayState, off, on, is_state_on, Actuator, IsReliable, is_on}
use shtapm.Actuation.Supervisor.{
  Cause, Status, Moment, RelayCommand, Reason, edge_started, given, safe_stop, startup, Supervisor,
  Call, frames, commands, safe_stops, watches, stops, emit, start, stop, stop_safely, on_frame,
  on_command, watch_round, step, run,
}

-- The kept status is the newest one that was published, and it tells this relay and latch.
abbrev pub Tells : Option Status → List Status → RelayState → Bool → Type 0
Tells (some st) (p ∷ ps) relay latched = (st ≡ p) × (st.relay ≡ relay) × (st.latched ≡ latched)
Tells _ _ _ _ = ⊥

module _ {S : Type 0} (a : Actuator S) where
  -- The last status tells the truth, and a latched relay is open.
  pub record IsReported (s : Supervisor S) : Type 0 where
    pub latch_open : (s.latched ≡ false) ⊎ (a.get_state s.relay ≡ off)
    pub told : Tells s.last s.published (a.get_state s.relay) s.latched

relay_state : (r : RelayState) → (if is_state_on r then on else off) ≡ r
relay_state off = refl
relay_state on = refl

module _ {S : Type 0} {a : Actuator S} (reliable : IsReliable a) where
  emit-IsReported :
      (s : Supervisor S) (cause : Cause) (reason : Reason) (m : Moment)
      → (s.latched ≡ false) ⊎ (a.get_state s.relay ≡ off)
      → IsReported a (emit a s cause reason m)
  unfolding emit is_on
  emit-IsReported s cause reason m h = record {
    latch_open = h;
    told = (refl, relay_state (a.get_state s.relay), refl);
  }

  stop_safely-IsReported :
      (s : Supervisor S) (cause : Cause) (reason : Reason) (m : Moment)
      → IsReported a s
      → IsReported a (stop_safely a s cause reason m)
  unfolding stop_safely
  stop_safely-IsReported s cause reason m h = ground (arith, reliable.get-set off s.relay)

  on_frame-IsReported :
      (s : Supervisor S) (current : ℤ) (stale : Bool) (m : Moment)
      → IsReported a s
      → IsReported a (on_frame a s current stale m)
  unfolding on_frame
  on_frame-IsReported s current stale m h = ground (arith, reliable.get-set off s.relay)

  on_command-IsReported :
      (s : Supervisor S) (c : RelayCommand) (m : Moment)
      → IsReported a s
      → IsReported a (on_command a s c m).0
  unfolding on_command
  on_command-IsReported s c m h = ground (
    arith,
    reliable.get-set off s.relay,
    reliable.get-set on s.relay,
    reliable.returns on s.relay,
  )

  watch_round-IsReported :
      (s : Supervisor S) (m : Moment) → IsReported a s → IsReported a (watch_round a s m)
  unfolding watch_round
  watch_round-IsReported s m h = ground (arith, reliable.get-set off s.relay)

  step-IsReported :
      (s : Supervisor S) (c : Moment × Call) → IsReported a s → IsReported a (step a s c)
  unfolding step
  step-IsReported s (m, frames current stale) h = on_frame-IsReported s current stale m h
  step-IsReported s (m, commands c) h = on_command-IsReported s c m h
  step-IsReported s (m, safe_stops text) h = stop_safely-IsReported s safe_stop (given text) m h
  step-IsReported s (m, watches) h = watch_round-IsReported s m h
  step-IsReported s (m, stops) h = unfold stop in ground (arith, reliable.get-set off s.relay)

  run_from-IsReported :
      (s : Supervisor S) (cs : List (Moment × Call)) → IsReported a s → IsReported a (run a s cs)
  unfolding run
  run_from-IsReported s [] h = h
  run_from-IsReported s (c ∷ cs) h = run_from-IsReported (step a s c) cs (step-IsReported s c h)

  -- With a driver that does as it is told: from `start` on, after every history of calls the kept
  -- status is the newest published one and tells the relay's state and the latch, and whenever
  -- the latch is set the relay is open.
  pub run-start-IsReported :
      (s : Supervisor S) (m : Moment) (cs : List (Moment × Call))
      → s.latched ≡ false
      → IsReported a (run a (start a s m) cs)
  unfolding start
  run-start-IsReported s m cs h =
      run_from-IsReported (start a s m) cs (emit-IsReported s startup edge_started m (inl h))
