-- ===== src/Actuation/Watchdog.antt =====
-- edge/actuation/watchdog.py: the deadman timer. Clock readings are numbers of milliseconds.
use shtapm.Base.{ℕ, ◌+◌, Bool, true, false, Option, none, some, ltb, leb, if◌then◌else◌}

pub record Watchdog : Type 0 where
  pub timeout : ℕ
  pub last_kick : ℕ
  pub expired : Bool

-- `Watchdog.__init__`; `none` is its ValueError.
unfoldable pub new_watchdog : ℕ → ℕ → Option Watchdog
new_watchdog timeout now =
    if leb timeout 0
    then none
    else some (record { timeout = timeout; last_kick = now; expired = false })

-- No effect once expired.
unfoldable pub kick : Watchdog → ℕ → Watchdog
kick w now = if w.expired then w else record w { last_kick = now }

-- The new state, and whether `on_expire` is called. The source returns `expired` of that state.
unfoldable pub check : Watchdog → ℕ → Watchdog × Bool
check w now =
    if w.expired
    then (w, false)
    else if ltb (w.last_kick + w.timeout) now
    then (record w { expired = true }, true)
    else (w, false)

unfoldable pub reset : Watchdog → ℕ → Watchdog
reset w now = record w { last_kick = now; expired = false }
