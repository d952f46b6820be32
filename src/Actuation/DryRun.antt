-- ===== src/Actuation/DryRun.antt =====
-- `DryRunDetector` of edge/actuation/supervisor.py. Currents are integers of microamperes, times
-- numbers of milliseconds.
use shtapm.Base.{ℕ, ◌+◌, Bool, false, not, ◌&&◌, Option, none, some, ltb, leb, if◌then◌else◌}
use shtapm.Base.Int.{ℤ, pos, ltb_ℤ, leb_ℤ}

-- `CURRENT_IDLE_MAX_A`, 0.05 A.
abbrev pub current_idle_max : ℤ
current_idle_max = pos 50000

abbrev pub spin_up_grace : ℕ
spin_up_grace = 5000

abbrev pub dry_run_hold_samples : ℕ
dry_run_hold_samples = 3

pub record DryRunDetector : Type 0 where
  pub threshold : ℤ
  pub grace : ℕ
  pub hold : ℕ
  pub started_at : Option ℕ
  pub streak : ℕ

-- `DryRunDetector.__init__`; `none` is its ValueError.
unfoldable pub new_detector : ℤ → ℕ → ℕ → Option DryRunDetector
new_detector threshold grace hold =
    if not (ltb_ℤ current_idle_max threshold)
    then none
    else some (record {
      threshold = threshold;
      grace = grace;
      hold = hold;
      started_at = none;
      streak = 0;
    })

-- The pump was just switched on.
unfoldable pub reset_detector : DryRunDetector → ℕ → DryRunDetector
reset_detector d now = record d { started_at = some now; streak = 0 }

abbrev pub in_band : DryRunDetector → ℤ → Bool
in_band d current = ltb_ℤ current_idle_max current && leb_ℤ current d.threshold

-- The part of `observe` behind the spin-up grace.
unfoldable pub observe_running : DryRunDetector → ℤ → DryRunDetector × Bool
observe_running d current =
    let streak = if in_band d current then d.streak + 1 else 0 in
    (record d { streak = streak }, leb d.hold streak)

unfoldable pub observe : DryRunDetector → ℤ → Bool → ℕ → DryRunDetector × Bool
unfolding observe_running
observe d current relay_on now =
    if not relay_on then (record d { streak = 0 }, false) else elim d.started_at [
      | none ↦ (record d { streak = 0 }, false)
      | some started ↦ if ltb now (started + d.grace) then (d, false) else observe_running d current
    ]
