-- ===== src/Edge/Held.antt =====
-- A held relay, through the handler of edge/main.py.
use shtapm.Base.{
  ℕ, zero, suc, ◌≤◌, ◌<◌, ◌≡◌, refl, sym, subst, false, ◌⊎◌, inl, inr, some, ◌∷◌, arith, All,
  String,
}
use shtapm.Actuation.Relay.{off, IsReliable, NeverCloses}
use shtapm.Actuation.Supervisor.{Moment, Supervisor, Call, given, safe_stop, run, step, stop_safely}
use shtapm.Actuation.Latch.{IsHeld, is_start, run-IsHeld, step-IsHeld}
use shtapm.Actuation.Stops.{stop_safely_lem}
use shtapm.Acquisition.Sampler.{Frame}
use shtapm.Edge.Wiring.{Parts, Edge, Times, escalation_text, on_healthy_frame}
use shtapm.Edge.Supervised.{stop_calls, frame_call, on_healthy_frame_lem}

stop_calls-safe :
    (device : String) (n : ℕ) (m : Moment) → All (λ c. is_start device c.1 ≡ false) (stop_calls n m)
unfolding stop_calls
stop_calls-safe device zero m = tt
stop_calls-safe device (suc n) m = (refl, stop_calls-safe device n m)

module _ {S D : Type 0} (p : Parts S D) (reliable : IsReliable p.actuator) where
  never_closes : NeverCloses p.actuator
  never_closes = record { stays_off = λ s h. reliable.get-set off s }

  IsHeld-after :
      (n : ℕ) (m : Moment) (s : Supervisor S) (c : Moment × Call)
      → is_start s.device_id c.1 ≡ false
      → IsHeld p.actuator s ⊎ (1 ≤ n)
      → IsHeld p.actuator (run p.actuator s (c ∷ stop_calls n m))
  unfolding run stop_calls step
  IsHeld-after zero m s c b (inl held) = step-IsHeld never_closes s c b held
  IsHeld-after zero m s c b (inr l) = ground arith
  IsHeld-after (suc n) m s c b held =
      let s' = step p.actuator s c in
      run-IsHeld never_closes (stop_safely p.actuator s' safe_stop (given escalation_text) m)
        (stop_calls n m) (stop_calls-safe _ n m)
        (stop_safely_lem reliable s' safe_stop (given escalation_text) m).0

  -- A frame keeps a held relay held, and holds it if the orchestrator asks for a stop.
  pub frame-IsHeld :
      (t : Times) (f : Frame) (e e' : Edge S D)
      → on_healthy_frame p t f e ≡ some e'
      → IsHeld p.actuator e.supervisor ⊎ (e.healer.safe_stops < e'.healer.safe_stops)
      → IsHeld p.actuator e'.supervisor
  frame-IsHeld t f e e' h held =
      let (n, q, g) = on_healthy_frame_lem p t f e e' h in
      let reason : IsHeld p.actuator e.supervisor ⊎ (1 ≤ n) = elim held [
        | inl s ↦ inl s
        | inr l ↦ inr (omega (arith, l, g))
      ] in
      subst (IsHeld p.actuator) (sym q)
        (IsHeld-after n t.stop e.supervisor (frame_call p t f e) refl reason)
