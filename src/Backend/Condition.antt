-- ===== src/Backend/Condition.antt =====
-- backend/app/services/condition.py, and `reduce_attribution` of
-- decision_diagnostic_persistence.py. The sinks are called one at a time; the database gets the
-- levels in `written`, newest first.
use shtapm.Base.{
  ℕ, Bool, true, false, ◌&&◌, ◌||◌, leb, Option, none, some, List, [], ◌∷◌, map, String, suc,
  if◌then◌else◌,
}
use shtapm.Base.Ratio.{Ratio}
use shtapm.Contracts.{
  Channel, ChannelSet, any_of, sorted_members, Attribution, nothing, fault, attack, HealthState,
  healthy, warning, critical,
}
use shtapm.Actuation.Supervisor.{is_autonomous, Cause}
use shtapm.Acquisition.RingBuffer.{RingBuffer, push}

-- `AttributionVerdict` of a channel, in the decision message.
pub record ChannelVerdict : Type 0 where
  pub attribution : Attribution
  pub reason : String

-- The fields of `DecisionDiagnosticMessage` that the services read.
pub record DecisionMessage : Type 0 where
  pub ts : String
  pub sample_seq : ℕ
  pub trust : Channel → Ratio
  pub anomaly_flag : Bool
  pub anomaly_severity : Ratio
  pub attribution : Channel → Option ChannelVerdict
  pub isolation_candidates : ChannelSet
  pub tracked_isolation_candidates : ChannelSet
  pub substituted_channels : ChannelSet
  pub stale_channels : ChannelSet

abbrev pub is_attack : Attribution → Bool
is_attack attack = true
is_attack _ = false

abbrev pub is_fault : Attribution → Bool
is_fault fault = true
is_fault _ = false

abbrev pub is_anomaly : Attribution → Bool
is_anomaly nothing = false
is_anomaly _ = true

abbrev pub has_label : (Attribution → Bool) → Option ChannelVerdict → Bool
has_label test none = false
has_label test (some v) = test v.attribution

abbrev pub reason_of : Option ChannelVerdict → String
reason_of none = ""
reason_of (some v) = v.reason

-- The label, with the channels that carry it and their reasons, sorted as the text shows them.
unfoldable pub reduce_attribution : DecisionMessage → Attribution × Option (List (Channel × String))
reduce_attribution m =
    let attacked : ChannelSet = λ ch. has_label is_attack (m.attribution ch) in
    let faulty : ChannelSet = λ ch. has_label is_fault (m.attribution ch) in
    let named : ChannelSet → List (Channel × String) =
      λ s. map (λ ch. (ch, reason_of (m.attribution ch))) (sorted_members s) in
    if any_of attacked
    then (attack, some (named attacked))
    else if any_of faulty
    then (fault, some (named faulty))
    else (nothing, none)

abbrev pub window : ℕ
window = 10

abbrev pub majority : ℕ
majority = 5

pub record Condition : Type 0 where
  pub recent : RingBuffer Attribution
  pub isolated : Bool
  pub safe_stopped : Bool
  pub level : Option HealthState
  pub written : List HealthState

abbrev pub new_condition : Condition
new_condition = record {
  recent = record { capacity = window; items = [] };
  isolated = false;
  safe_stopped = false;
  level = none;
  written = [];
}

unfoldable pub count : (Attribution → Bool) → List Attribution → ℕ
count test [] = 0
count test (a ∷ rest) = let n = count test rest in if test a then suc n else n

-- `recent[-1] == Attribution.attack`, false of an empty window.
unfoldable pub ends_in_attack : List Attribution → Bool
ends_in_attack [] = false
ends_in_attack (a ∷ []) = is_attack a
ends_in_attack (a ∷ b ∷ rest) = ends_in_attack (b ∷ rest)

unfoldable pub compute : Condition → HealthState
compute d =
    let attacks = count is_attack d.recent.items in
    let anomalies = count is_anomaly d.recent.items in
    if d.safe_stopped || leb majority attacks || (d.isolated && ends_in_attack d.recent.items)
    then critical
    else if d.isolated || leb majority anomalies
    then warning
    else healthy

abbrev pub same_level : Option HealthState → HealthState → Bool
same_level (some healthy) healthy = true
same_level (some warning) warning = true
same_level (some critical) critical = true
same_level _ _ = false

unfoldable pub refresh : Condition → Condition
refresh d =
    let level = compute d in
    if same_level d.level level
    then d
    else record d { level = some level; written = level ∷ d.written }

unfoldable pub on_decision : DecisionMessage → Condition → Condition
on_decision m d = refresh (record d {
  recent = push (reduce_attribution m).0 d.recent;
  isolated = any_of m.tracked_isolation_candidates || any_of m.stale_channels;
})

-- `on_actuation`, of the latch and the cause that the status reports.
unfoldable pub on_actuation : Bool → Cause → Condition → Condition
on_actuation latched cause d = refresh (record d { safe_stopped = latched && is_autonomous cause })

-- `level`.
abbrev pub level_of : Condition → HealthState
level_of d = value_or_healthy d.level
  where
    value_or_healthy : Option HealthState → HealthState
    value_or_healthy none = healthy
    value_or_healthy (some l) = l
