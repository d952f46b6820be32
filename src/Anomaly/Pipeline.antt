-- ===== src/Anomaly/Pipeline.antt =====
-- One window of edge/anomaly/pipeline.py. The detector with its flag policy and the c provider are
-- injected there: their answers for the window are arguments. The k provider and the attribution
-- engine hold a rule each.
use shtapm.Base.{Bool, not, ◌||◌, Option, none, some, if◌then◌else◌}
use shtapm.Contracts.{Channel, ChannelSet}
use shtapm.Trust.Engine.{Engine, Provider, Readings, update_from_providers}
use shtapm.Trust.Reliability.{Histories, average}
use shtapm.Anomaly.Physics.{Rule, RawWindow, PhysicsCheck, observe_raw_window, check_physics}
use shtapm.Anomaly.Attribution.{AttributionResult, attribute, record_k, blames}

pub record Pipeline : Type 0 where
  pub physics_flags : Bool
  pub k_rule : Rule
  pub rule : Rule
  pub histories : Histories
  pub engine : Engine

-- `WindowOutcome`, without the window itself.
pub record WindowOutcome : Type 0 where
  pub channel_flags : ChannelSet
  pub trust : Readings
  pub attribution : Channel → AttributionResult

-- The outcomes of all channels are recorded.
abbrev pub record_outcomes : ChannelSet → Histories → Histories
record_outcomes flags hs ch = average (hs ch) (not (flags ch))

-- The flags, with the suspect of the physics.
abbrev pub join_flags : ChannelSet → Option PhysicsCheck → ChannelSet
join_flags flags check ch = flags ch || blames check ch

-- The attribution of the window and what it leaves, after the trust update.
unfoldable pub attribute_window :
    ChannelSet
    → Option PhysicsCheck
    → Histories
    → Pipeline
    → Engine × Option Readings
    → Option (Pipeline × WindowOutcome)
attribute_window joined check histories p (engine, none) = none
attribute_window joined check histories p (engine, some readings) =
    elim (attribute joined check p.rule) [
      | none ↦ none
      | some (rule, attribution) ↦ some (
        record p { rule = rule; histories = histories; engine = engine },
        record { channel_flags = joined; trust = readings; attribution = attribution },
      )
    ]

-- The steps after the physics.
unfoldable pub judge_window :
    ChannelSet
    → Provider
    → Provider
    → Option PhysicsCheck
    → Pipeline
    → Option (Pipeline × WindowOutcome)
unfolding attribute_window
judge_window flags c k check p =
    let joined = join_flags flags check in
    let histories = record_outcomes joined p.histories in
    attribute_window joined check histories p (update_from_providers c k histories p.engine)

-- The loop body of `process`; `none` is an exception.
unfoldable pub process_window :
    ChannelSet → Provider → RawWindow → Pipeline → Option (Pipeline × WindowOutcome)
unfolding judge_window
process_window flags c w p =
    let observed = observe_raw_window w p.rule in
    elim (record_k (observe_raw_window w p.k_rule)) [
      | none ↦ none
      | some (k_rule, k) ↦
          if p.physics_flags
          then elim (check_physics observed) [
            | none ↦ none
            | some (rule, check) ↦
                judge_window flags c k (some check) (record p { k_rule = k_rule; rule = rule })
          ]
          else judge_window flags c k none (record p { k_rule = k_rule; rule = observed })
    ]
