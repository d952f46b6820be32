-- ===== src/Injection/Live.antt =====
-- edge/injection/live.py and edge/acquisition/command_listener.py: one injection at a time on the
-- running stream. The calls come one at a time, as the lock has them. Values are exact, so none
-- is infinite.
use shtapm.Base.{
  ℕ, suc, ◌+◌, ◌-◌, ◌*◌, max, Bool, true, false, not, ◌||◌, ltb, leb, Option, none, some, List, [],
  ◌∷◌, ◌++◌, length, drop, String, str_eq, if◌then◌else◌,
}
use shtapm.Base.Int.{pos_part}
use shtapm.Base.Ratio.{Ratio, ◌/r◌}
use shtapm.Base.Round.{round}
use shtapm.Acquisition.Sampler.{Frame}
use shtapm.Acquisition.RingBuffer.{RingBuffer, push}
use shtapm.Injection.Transforms.{
  Injection, InjectionType, drift, spike, stuck_at, bias_fdi, ramp_fdi, replay, constant_spoof,
  adaptive_stealth_fdi, new_injection, injected_value, rebuilt,
}
use shtapm.Injection.Commands.{
  InjectCommand, Scenario, CancelCommand, Command, inject, cancels, drift_command, spike_command,
  stuck_at_command, bias_fdi_command, ramp_fdi_command, replay_command, constant_spoof_command,
  adaptive_stealth_fdi_command,
}

pub record Active : Type 0 where
  pub command : InjectCommand
  pub injection : Injection
  pub stream : List Frame

abbrev pub end_index : Active → ℕ
end_index a = a.injection.onset + a.injection.duration

pub record LiveInjector : Type 0 where
  pub device_id : String
  pub rate_hz : Ratio
  pub history : RingBuffer Frame
  pub active : Option Active

-- `_frames`, of a positive rate.
unfoldable pub frames_of : Ratio → ℕ → ℕ
frames_of rate seconds = max 1 (round (seconds * pos_part rate.num) rate.den)

abbrev pub per_sample : Ratio → Ratio → Ratio
per_sample rate per_second = per_second /r rate

-- The injection of a scenario, with the onset it takes and the frames that precede it; `none` is
-- the ValueError.
unfoldable pub plan : Scenario → LiveInjector → Option (InjectionType × List Frame)
plan (replay_command lookback_s) l =
    let lookback = frames_of l.rate_hz lookback_s in
    if ltb (length l.history.items) lookback
    then none
    else some (replay 0, drop (length l.history.items - lookback) l.history.items)
plan (drift_command rate) l = some (drift (per_sample l.rate_hz rate), [])
plan (spike_command amplitude) l = some (spike amplitude, [])
plan (stuck_at_command held) l = some (stuck_at held, [])
plan (bias_fdi_command bias) l = some (bias_fdi bias, [])
plan (ramp_fdi_command slope) l = some (ramp_fdi (per_sample l.rate_hz slope), [])
plan (constant_spoof_command value) l = some (constant_spoof value, [])
plan (adaptive_stealth_fdi_command rate cap) l =
    some (adaptive_stealth_fdi (per_sample l.rate_hz rate) cap, [])

-- The onset of the injection.
abbrev pub onset_of : Scenario → LiveInjector → ℕ
onset_of (replay_command lookback_s) l = frames_of l.rate_hz lookback_s
onset_of _ l = 0

abbrev pub activate : InjectCommand → List Frame → Option Injection → Option Active
activate c stream none = none
activate c stream (some inj) = some (record { command = c; injection = inj; stream = stream })

-- `_build`; `none` is a ValueError.
unfoldable pub build : InjectCommand → LiveInjector → Option Active
build c l = elim (plan c.scenario l) [
  | none ↦ none
  | some (t, prefix) ↦
      activate c prefix
        (new_injection t c.channel (onset_of c.scenario l) (frames_of l.rate_hz c.duration_s))
]

abbrev pub start_active : LiveInjector → Option Active → LiveInjector × Bool
start_active l none = (l, false)
start_active l (some a) = (record l { active = some a }, true)

unfoldable pub submit : InjectCommand → LiveInjector → LiveInjector × Bool
submit c l = if not (str_eq c.device_id l.device_id) then (l, false) else start_active l (build c l)

unfoldable pub cancel : CancelCommand → LiveInjector → LiveInjector × Bool
cancel c l = elim l.active [
  | none ↦ (l, false)
  | some a ↦
      if str_eq c.command_id a.command.command_id || str_eq c.command_id "*"
      then (record l { active = none }, true)
      else (l, false)
]

-- `status`: the frames done and the frames in total.
unfoldable pub status : LiveInjector → Option (ℕ × ℕ)
status l = elim l.active [
  | none ↦ none
  | some a ↦ some (length a.stream - a.injection.onset, a.injection.duration)
]

-- The frame and the injection that are left when the value is known.
abbrev pub conclude : Frame → Active → Option Frame → Option Active × Frame
conclude frame a none = (none, frame)
conclude frame a (some out) = (if leb (end_index a) (length a.stream) then none else some a, out)

-- `transform` with an active injection.
unfoldable pub transform_active : Frame → Active → Option Active × Frame
transform_active frame a =
    let extended = record a { stream = a.stream ++ frame ∷ [] } in
    conclude frame extended (
      rebuilt frame a.command.channel
        (injected_value a.injection (length extended.stream - 1) extended.stream))

unfoldable pub transform : Frame → LiveInjector → LiveInjector × Frame
transform frame l =
    let recorded = record l { history = push frame l.history } in
    elim l.active [
      | none ↦ (recorded, frame)
      | some a ↦
          let (active, out) = transform_active frame a in (record recorded { active = active }, out)
    ]

-- `transform` of the frames of a stream.
unfoldable pub transform_all : List Frame → LiveInjector → LiveInjector × List Frame
transform_all [] l = (l, [])
transform_all (f ∷ rest) l =
    let (next, out) = transform f l in
    let (last, outs) = transform_all rest next in (last, out ∷ outs)

-- `CommandListener`, without its client.
pub record CommandListener : Type 0 where
  pub injector : LiveInjector
  pub rejected_count : ℕ
  pub applied_count : ℕ

abbrev pub count_command : LiveInjector × Bool → CommandListener → CommandListener × Bool
count_command (l, true) s = (record s { injector = l; applied_count = suc s.applied_count }, true)
count_command (l, false) s =
    (record s { injector = l; rejected_count = suc s.rejected_count }, false)

-- `handle` of a payload as it is parsed; `none` is the exception of `parse_command`.
unfoldable pub handle : Option Command → CommandListener → CommandListener × Bool
handle none s = count_command (s.injector, false) s
handle (some (inject c)) s = count_command (submit c s.injector) s
handle (some (cancels c)) s = count_command (cancel c s.injector) s
