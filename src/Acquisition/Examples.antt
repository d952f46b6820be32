-- ===== src/Acquisition/Examples.antt =====
-- The modules of edge/acquisition on concrete inputs.
use shtapm.Base.{ℕ, ◌≡◌, refl, true, false, List, [], ◌∷◌, ◌++◌, none, some, arith, map}
use shtapm.Base.Ratio.{frac}
use shtapm.Contracts.{Channel, ChannelSet, gas}
use shtapm.Acquisition.RingBuffer.{RingBuffer}
use shtapm.Acquisition.Publisher.{
  Publisher, handle_all, disconnects, connects, publishes, status, telemetry,
}
use shtapm.Acquisition.Resume.{outage_lem}
use shtapm.Acquisition.RingBuffer.{new_buffer}
use shtapm.Acquisition.Publisher.{Event, new_publisher, buffer_capacity}
use shtapm.Acquisition.Retention.{retention_lem}
use shtapm.Acquisition.Board.{stale, is_overdue}
use shtapm.Acquisition.Debounce.{Tick, board_after, run_start, stale_iff_overdue}
use shtapm.Acquisition.Sampler.{Frame, Sampler, Reading, healthy, unhealthy, sample_once}
use shtapm.Acquisition.Replay.{ReplaySampler, new_replay, replay_all, stamped, IsPass, replay_lem}
use shtapm.Acquisition.Hold.{sampler_after, newest, Framed, hold_lem}

abbrev two_of_three : RingBuffer ℕ
two_of_three = record { capacity = 3; items = 1 ∷ 2 ∷ [] }

abbrev publisher : Publisher ℕ
publisher = record {
  buffer = record { capacity = 3; items = [] };
  connected = true;
  sent = telemetry 1 ∷ [];
}

abbrev resumed : Publisher ℕ
resumed =
    handle_all (disconnects ∷ (map publishes (2 ∷ 3 ∷ 4 ∷ 5 ∷ []) ++ (connects ∷ []))) publisher

outage_lem_example :
    (resumed.sent ≡ telemetry 1 ∷ status true ∷ telemetry 3 ∷ telemetry 4 ∷ telemetry 5 ∷ [])
    × (resumed.buffer.items ≡ [])
    × (resumed.connected ≡ true)
outage_lem_example = outage_lem publisher (2 ∷ 3 ∷ 4 ∷ 5 ∷ []) refl (omega arith)

abbrev gas_failed : ChannelSet
gas_failed gas = true
gas_failed _ = false

-- Gas fails from time 1 on.
abbrev ticks : List Tick
ticks = (6, gas_failed) ∷ (3, gas_failed) ∷ (1, gas_failed) ∷ []

stale_iff_overdue_example : stale (board_after 5 ticks) gas ≡ is_overdue (run_start gas ticks) 5 6
stale_iff_overdue_example =
    stale_iff_overdue 5 gas ticks (omega arith, (omega arith, (omega arith, tt)))

abbrev sampler : Sampler
sampler = record {
  device_id = "pump-01";
  seq = 7;
  hold = true;
  last_good = λ ch. none;
  buffer = record { capacity = 120; items = [] };
}

abbrev all_good : Channel → Reading
all_good ch = healthy (frac 1 1)

abbrev gas_lost : Channel → Reading
gas_lost gas = unhealthy
gas_lost _ = healthy (frac 2 1)

hold_lem_example :
    Framed gas_lost
      (λ c. newest c (("t1", gas_lost) ∷ ("t0", all_good) ∷ []))
      (sampler_after sampler (("t0", all_good) ∷ [])).seq
      (sample_once "t1" gas_lost (sampler_after sampler (("t0", all_good) ∷ [])))
hold_lem_example = hold_lem sampler refl (λ c. refl) (("t0", all_good) ∷ []) "t1" gas_lost

-- 1 Hz for 4 seconds.
abbrev small_publisher : Publisher ℕ
small_publisher = record {
  buffer = record { capacity = 4; items = [] };
  connected = false;
  sent = [];
}

retention_lem_example :
    let q =
      handle_all
        (connects ∷ disconnects ∷ (map publishes (7 ∷ 8 ∷ []) ++ (connects ∷ [])))
        small_publisher in
    (q.sent ≡ status true ∷ status true ∷ telemetry 7 ∷ telemetry 8 ∷ []) × (q.buffer.items ≡ [])
unfolding new_publisher buffer_capacity new_buffer
retention_lem_example =
    retention_lem (frac 1 1) (frac 4 1) small_publisher (7 ∷ 8 ∷ []) refl (omega arith)
      (omega arith)

-- A message before the first connection, one on it, and one after it is lost.
abbrev calls : List (Event ℕ)
calls = publishes 1 ∷ connects ∷ publishes 2 ∷ disconnects ∷ publishes 3 ∷ []

abbrev recorded_frame : ℕ → Frame
recorded_frame n = record { device_id = "old"; ts = "old"; values = λ ch. frac n 1; sample_seq = n }

-- Two recorded frames are served again.
replay_lem_example :
    (s : ReplaySampler) × (last : ReplaySampler) × (new_replay "d"
        (recorded_frame 7 ∷ recorded_frame 9 ∷ [])
        1
        (record { capacity = 2; items = [] })
      ≡ some s)
    × (replay_all ("t1" ∷ "t2" ∷ []) s
        ≡ some (last, stamped "d" (recorded_frame 7 ∷ recorded_frame 9 ∷ []) ("t1" ∷ "t2" ∷ []) 1))
    × IsPass s last 2
replay_lem_example =
    replay_lem "d" (recorded_frame 7) (recorded_frame 9 ∷ []) 1
      (record { capacity = 2; items = [] }) "t1" ("t2" ∷ []) refl
