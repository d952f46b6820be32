-- ===== src/Actuation/Examples.antt =====
-- The supervisor of edge/actuation/supervisor.py on concrete histories, over the in-memory relay.
use shtapm.Base.{ℕ, refl, true, false, none, some, List, [], ◌∷◌, arith}
use shtapm.Base.Int.{ℤ, pos}
use shtapm.Actuation.Relay.{off, on, FakeActuator, get_fake, fake, fake-IsReliable, NeverCloses}
use shtapm.Actuation.DryRun.{DryRunDetector}
use shtapm.Actuation.Supervisor.{
  Moment, Supervisor, frames, commands, watches, stops, start, run, watch_round, RelayCommand,
}
use shtapm.Actuation.Latch.{IsHeld, run-IsHeld}
use shtapm.Actuation.Report.{IsReported, run-start-IsReported}
use shtapm.Actuation.Stops.{blind_pump_stops}

abbrev at : ℕ → Moment
at n = record { clock = n; iso = "2026-10-28T10:00:00.000Z" }

abbrev detector : DryRunDetector
detector = record {
  threshold = pos 250000;
  grace = 5000;
  hold = 3;
  started_at = some 0;
  streak = 0;
}

-- The pump runs since the clock read 0.
abbrev running : Supervisor FakeActuator
running = record {
  device_id = "pump-1";
  hardware = false;
  relay = record { state = on; history = on ∷ off ∷ [] };
  detector = some detector;
  latched = false;
  last = none;
  timer = record { timeout = 10000; last_kick = 0; expired = false };
  stopping = false;
  published = [];
}

abbrev stopped : Supervisor FakeActuator
stopped = record running { relay = record { state = off; history = off ∷ [] }; latched = true }

abbrev off_command : RelayCommand
off_command = record { device_id = "pump-1"; state = off; issued_by = "admin" }

abbrev start_elsewhere : RelayCommand
start_elsewhere = record { device_id = "pump-2"; state = on; issued_by = "admin" }

fake-NeverCloses : NeverCloses fake
fake-NeverCloses = record { stays_off = λ s h. fake-IsReliable.get-set off s }

stopped-IsHeld : IsHeld fake stopped
unfolding get_fake
stopped-IsHeld = record { open_relay = refl; held = refl }

run-IsHeld_example : IsHeld fake (
    run fake stopped (
      (at 20000, frames (pos 400000) false)
      ∷ (at 21000, commands start_elsewhere)
      ∷ (at 40000, watches)
      ∷ (at 41000, commands off_command)
      ∷ (at 42000, stops)
      ∷ []))
run-IsHeld_example = run-IsHeld fake-NeverCloses stopped _ (ground arith) stopped-IsHeld

run-start-IsReported_example : IsReported fake (
    run fake (start fake running (at 0)) (
      (at 6000, frames (pos 100000) false)
      ∷ (at 7000, frames (pos 100000) false)
      ∷ (at 8000, frames (pos 100000) false)
      ∷ (at 9000, watches)
      ∷ []))
run-start-IsReported_example = run-start-IsReported fake-IsReliable running (at 0) _ refl

blind_pump_stops_example : IsHeld fake (
    watch_round fake
      (run fake running ((at 4000, frames (pos 0) true) ∷ (at 9000, watches) ∷ []))
      (at 10001))
unfolding get_fake
blind_pump_stops_example =
    blind_pump_stops fake-IsReliable running _ (at 10001) refl refl refl (ground arith)
      (omega arith)

abbrev dry_readings : List (ℤ × ℕ)
dry_readings = (pos 100000, 7000) ∷ (pos 90000, 6000) ∷ (pos 400000, 5000) ∷ []
