-- ===== src/Heal/Runtime.antt =====
-- `SelfHealRuntime` of edge/pipeline/self_heal_runtime.py, which serves the one channel of its twin
-- bundle. The bundle's scaler and twin are arguments; an exception leaves no report.
use shtapm.Base.{
  ℕ, zero, suc, ◌-◌, not, Option, none, some, str_eq, List, [], ◌∷◌, map, length, drop, ltb,
  if◌then◌else◌,
}
use shtapm.Base.Ratio.{Ratio, frac}
use shtapm.Contracts.{Channel, ChannelSet, channel_of, channel_name}
use shtapm.Acquisition.Sampler.{Frame}
use shtapm.Heal.Orchestrator.{Result, ok, err, Settings, Orchestrator, SelfHealOutcome, end_episode}
use shtapm.Heal.Cycle.{Dict, Outcomes, process_isolated_channels}

-- The channels' series of a window, in the scale of the twin.
abbrev pub Features : Type 0
Features = Channel → List Ratio

-- A bundle with the window size and the orchestrator's settings.
pub record Bundle : Type 0 where
  pub channel : Channel
  pub fitted : ChannelSet
  pub normalize : Channel → Ratio → Ratio
  pub denormalize : Channel → Ratio → Ratio
  pub window_size : ℕ
  pub settings : Settings Features

-- The settings that `__init__` gives: `ESCALATION_DISABLED_THRESHOLD` is infinite.
abbrev pub IsUnthresholded : Bundle → Type 0
IsUnthresholded b = Path (Option Ratio) b.settings.divergence_threshold none

-- An observed value of `none` is NaN.
pub record SubstitutionReport : Type 0 where
  pub channel : Channel
  pub substituted_value : Ratio
  pub observed_value : Option Ratio
  pub divergence : Option Ratio
  pub uncertainty : Option Ratio

-- What one call of `substitute` is given, with its clock readings.
pub record Round : Type 0 where
  pub trust : Channel → Ratio
  pub isolated : ChannelSet
  pub frames : List Frame
  pub opened : ℕ
  pub now : ℕ

abbrev pub zeros : ℕ → List Ratio
zeros zero = []
zeros (suc n) = frac 0 1 ∷ zeros n

unfoldable pub scaled_window : Bundle → List Frame → Option Features
scaled_window b frames =
    let recent = drop (length frames - b.window_size) frames in
    if ltb (length frames) b.window_size
    then none
    else some (λ ch.
      if b.fitted ch
      then map (λ (f : Frame). b.normalize ch (f.values ch)) recent
      else zeros b.window_size)

-- `frames[-1]`; `none` is the IndexError.
abbrev pub last_frame : List Frame → Option Frame
last_frame [] = none
last_frame (f ∷ []) = some f
last_frame (f ∷ (g ∷ fs)) = last_frame (g ∷ fs)

abbrev denormalized : Bundle → Channel → Option Ratio → Option Ratio
denormalized b ch none = none
denormalized b ch (some v) = some (b.denormalize ch v)

unfoldable pub to_report : Bundle → SelfHealOutcome → Option SubstitutionReport
to_report b o = if not o.substituted then none else elim o.reconstructed_value [
  | none ↦ none
  | some v ↦ some (record {
    channel = o.channel;
    substituted_value = b.denormalize o.channel v;
    observed_value = denormalized b o.channel o.observed_value;
    divergence = o.divergence;
    uncertainty = o.uncertainty;
  })
]

abbrev pub one_report : Bundle → Option SelfHealOutcome → List SubstitutionReport
one_report b none = []
one_report b (some o) = elim (to_report b o) [ none ↦ [] | some r ↦ r ∷ [] ]

-- `outcome.trust` and `raw_values`, by name.
abbrev pub trust_of_name : (Channel → Ratio) → Dict
trust_of_name trust name = elim (channel_of name) [ none ↦ none | some ch ↦ some (trust ch) ]

abbrev pub raw_of_name : Channel → Frame → Dict
raw_of_name ch f name = if str_eq name (channel_name ch) then some (f.values ch) else none

abbrev pub reports_of :
    Bundle → Orchestrator × Result Outcomes → Orchestrator × List SubstitutionReport
reports_of b (s, err e) = (s, [])
reports_of b (s, ok results) = (s, one_report b (results (channel_name b.channel)))

-- The call of the cycle for the bundle's channel.
unfoldable pub heal_target :
    Bundle → Round → Features → Option Frame → Orchestrator → Orchestrator × List SubstitutionReport
heal_target b r window none s = (s, [])
heal_target b r window (some f) s = reports_of b (
    process_isolated_channels b.settings (trust_of_name r.trust) (raw_of_name b.channel f) window s
      (record { name = channel_name b.channel; opened = r.opened; now = r.now } ∷ []))

unfoldable pub substitute : Bundle → Round → Orchestrator → Orchestrator × List SubstitutionReport
substitute b r s =
    if not (r.isolated b.channel)
    then (end_episode s b.channel, [])
    else elim (scaled_window b r.frames) [
      | none ↦ (s, [])
      | some window ↦ heal_target b r window (last_frame r.frames) s
    ]

-- The orchestrator after the calls of some rounds.
unfoldable pub substitute_all : Bundle → List Round → Orchestrator → Orchestrator
substitute_all b [] s = s
substitute_all b (r ∷ rs) s = substitute_all b rs (substitute b r s).0
