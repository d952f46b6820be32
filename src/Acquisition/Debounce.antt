-- ===== src/Acquisition/Debounce.antt =====
-- When the board of edge/acquisition/health.py reports a sensor dead.
use shtapm.Base.{ℕ, ◌≤◌, ◌≡◌, refl, Option, none, List, [], ◌∷◌, arith, if◌then◌else◌}
use shtapm.Contracts.{Channel, ChannelSet}
use shtapm.Acquisition.Board.{Board, new_board, set_default, is_overdue, update_board, stale}

-- One tick: its time and the channels that failed.
abbrev pub Tick : Type 0
Tick = ℕ × ChannelSet

-- The board after a history of ticks, newest first.
unfoldable pub board_after : ℕ → List Tick → Board
board_after dead_after [] = new_board dead_after
board_after dead_after ((now, unhealthy) ∷ older) =
    (update_board now unhealthy (board_after dead_after older)).0

-- When the unbroken run of failures that the history ends with began.
unfoldable pub run_start : Channel → List Tick → Option ℕ
run_start ch [] = none
run_start ch ((now, unhealthy) ∷ older) =
    let before = run_start ch older in if unhealthy ch then set_default before now else none

abbrev latest : List Tick → ℕ
latest [] = 0
latest ((now, _) ∷ older) = now

-- The clock does not run backwards.
abbrev pub IsOrdered : List Tick → Type 0
IsOrdered [] = Unit
IsOrdered ((now, _) ∷ older) = (latest older ≤ now) × IsOrdered older

module _ (d : ℕ) (ch : Channel) where
  board_step :
      (now : ℕ) (unhealthy : ChannelSet) (b : Board) (before : Option ℕ) (last : ℕ)
      → last ≤ now
      → (b.dead_after ≡ d) × (b.failing_since ch ≡ before) × (b.dead ch ≡ is_overdue before d last)
      → let c = (update_board now unhealthy b).0 in
        let start = if unhealthy ch then set_default before now else none in
        (c.dead_after ≡ d) × (c.failing_since ch ≡ start) × (c.dead ch ≡ is_overdue start d now)
  unfolding update_board
  board_step now unhealthy b before last h (e, f, g) = ground arith

  board_state :
      (h : List Tick)
      → IsOrdered h
      → let b = board_after d h in
        (b.dead_after ≡ d)
        × (b.failing_since ch ≡ run_start ch h)
        × (b.dead ch ≡ is_overdue (run_start ch h) d (latest h))
  unfolding board_after run_start
  board_state [] o = (refl, refl, refl)
  board_state ((now, unhealthy) ∷ older) o =
      board_step now unhealthy (board_after d older) (run_start ch older) (latest older) o.0
        (board_state older o.1)

  -- For ticks in the order of the clock, a channel is reported dead exactly if the run of
  -- failures that the ticks end with has lasted for the debounce time at the latest tick.
  pub stale_iff_overdue :
      (h : List Tick)
      → IsOrdered h
      → stale (board_after d h) ch ≡ is_overdue (run_start ch h) d (latest h)
  stale_iff_overdue h o = (board_state h o).2
