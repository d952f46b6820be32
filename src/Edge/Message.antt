-- ===== src/Edge/Message.antt =====
-- `build_decision_diagnostic_message` of edge/pipeline/decision_diagnostic.py, with the reason
-- texts of edge/anomaly/attribution.py and operating_state_rule.py. Of the message, the fields
-- that the backend's services read.
use shtapm.Base.{Bool, true, false, ◌||◌, Option, none, some, List, [], ◌∷◌, if◌then◌else◌, String}
use shtapm.Contracts.{Channel, ChannelSet, any_of, is_channel, channel_name, current, vibration}
use shtapm.Trust.Bands.{TrustReading}
use shtapm.Trust.Engine.{Readings}
use shtapm.Isolation.{TrustMap, TrackerResult}
use shtapm.Acquisition.Sampler.{Frame}
use shtapm.Heal.Runtime.{SubstitutionReport}
use shtapm.Anomaly.Detector.{AnomalyResult}
use shtapm.Anomaly.Physics.{
  MotorState, idle, running, unclear, PhysicsReason, no_reason, no_suspect, says,
}
use shtapm.Anomaly.Attribution.{
  AttributionReason, AttributionResult, reason_none, reason_fault, reason_attack,
}
use shtapm.Anomaly.Pipeline.{WindowOutcome}
use shtapm.Backend.Condition.{DecisionMessage, ChannelVerdict}
use Prim.Native.String.{◌++◌ as str_append}

abbrev pub state_text : MotorState → String
state_text idle = "idle"
state_text running = "running"
state_text unclear = "unclear"

abbrev pub other_channel : Channel → Channel
other_channel current = vibration
other_channel _ = current

-- `REASON.format(...)`.
unfoldable pub physics_text : PhysicsReason → String
physics_text no_reason = ""
physics_text no_suspect = "physics violation"
physics_text (says suspect s o) = str_append "physics violation: " (
    str_append (channel_name suspect) (
      str_append " says the motor is " (
        str_append (state_text s) (
          str_append " while " (
            str_append (channel_name (other_channel suspect))
              (str_append " says it is " (state_text o)))))))

-- The reason that `attribute` gives; an attack without one of the rule's has the fallback.
unfoldable pub reason_text : AttributionReason → String
unfolding physics_text
reason_text reason_none = ""
reason_text reason_fault = "anomaly: physics consistent"
reason_text (reason_attack no_reason) = "physics violation"
reason_text (reason_attack r) = physics_text r

abbrev pub verdict_of : AttributionResult → ChannelVerdict
verdict_of r = record { attribution = r.attribution; reason = reason_text r.reason }

-- The window's result, as its callbacks see it.
pub record Judged : Type 0 where
  pub anomaly : AnomalyResult
  pub outcome : WindowOutcome

-- The channels of some reports.
unfoldable pub reported : List SubstitutionReport → ChannelSet
reported [] ch = false
reported (r ∷ rs) ch = is_channel r.channel ch || reported rs ch

-- `build_decision_diagnostic_message`, of a window whose readings are all there. `raw` is the
-- window's last frame.
unfoldable pub build_message :
    Judged
    → TrustMap
    → TrackerResult
    → Frame
    → List SubstitutionReport
    → ChannelSet
    → DecisionMessage
unfolding reported reason_text
build_message o trust tracked raw reports stale = record {
  ts = raw.ts;
  sample_seq = raw.sample_seq;
  trust = λ ch. (trust ch).trust;
  anomaly_flag = o.anomaly.flag;
  anomaly_severity = o.anomaly.severity;
  attribution = λ ch. some (verdict_of (o.outcome.attribution ch));
  isolation_candidates = tracked.candidates;
  tracked_isolation_candidates = tracked.tracked;
  substituted_channels = reported reports;
  stale_channels = stale;
}

abbrev is_absent : Option TrustReading → Bool
is_absent none = true
is_absent (some r) = false

abbrev present_reading : Option TrustReading → TrustReading → TrustReading
present_reading none default = default
present_reading (some r) default = r

-- `outcome.trust[ch]` for all channels; `none` is the KeyError.
unfoldable pub trust_map : Readings → Option TrustMap
trust_map r = elim (r current) [
  | none ↦ none
  | some d ↦ if any_of (λ ch. is_absent (r ch)) then none else some (λ ch. present_reading (r ch) d)
]
