-- ===== src/Injection/Commands.antt =====
-- backend/app/schemas/command.py: the commands, once their fields have their types, so that each
-- scenario has its own parameters. `lookback_s` is a whole number of seconds; who issued a command
-- and when is left out.
use shtapm.Base.{ℕ, Bool, true, ◌&&◌, leb, Option, String}
use shtapm.Base.Ratio.{Ratio, frac, ltb_r}
use shtapm.Contracts.{Channel}

pub data Scenario : Type 0 where
  drift_command : Ratio → Scenario
  spike_command : Ratio → Scenario
  stuck_at_command : Option Ratio → Scenario
  bias_fdi_command : Ratio → Scenario
  ramp_fdi_command : Ratio → Scenario
  replay_command : ℕ → Scenario
  constant_spoof_command : Ratio → Scenario
  adaptive_stealth_fdi_command : Ratio → Ratio → Scenario

pub record InjectCommand : Type 0 where
  pub command_id : String
  pub device_id : String
  pub scenario : Scenario
  pub channel : Channel
  pub duration_s : ℕ

abbrev pub max_duration_s : ℕ
max_duration_s = 600

-- The validator's tests of the values.
unfoldable pub is_valid_command : InjectCommand → Bool
is_valid_command c =
    leb 1 c.duration_s && (leb c.duration_s max_duration_s && check_params c.scenario)
  where
    check_params : Scenario → Bool
    check_params (adaptive_stealth_fdi_command rate cap) = ltb_r (frac 0 1) cap
    check_params (replay_command lookback) = leb c.duration_s lookback
    check_params _ = true

pub record CancelCommand : Type 0 where
  pub command_id : String
  pub device_id : String

pub data Command : Type 0 where
  inject : InjectCommand → Command
  cancels : CancelCommand → Command
