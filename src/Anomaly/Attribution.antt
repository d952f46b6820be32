-- ===== src/Anomaly/Attribution.antt =====
-- edge/anomaly/attribution.py with the rule of operating_state_rule.py, and the k signal of
-- edge/trust/k_operating_state.py.
use shtapm.Base.{Bool, false, not, ◌&&◌, ◌||◌, Option, none, some, if◌then◌else◌}
use shtapm.Contracts.{
  Channel, ChannelSet, any_of, is_channel, current, vibration, Attribution, nothing, fault, attack,
}
use shtapm.Trust.Beta.{Fraction}
use shtapm.Anomaly.Physics.{PhysicsCheck, PhysicsReason, Rule, check_physics}

-- The reason texts: empty, physics consistent, or the rule's.
pub data AttributionReason : Type 0 where
  reason_none reason_fault : AttributionReason
  reason_attack : PhysicsReason → AttributionReason

pub record AttributionResult : Type 0 where
  pub attribution : Attribution
  pub reason : AttributionReason

abbrev pub is_suspect : Option Channel → Channel → Bool
is_suspect none ch = false
is_suspect (some s) ch = is_channel s ch

-- The check names the channel as the one that lies.
abbrev pub blames : Option PhysicsCheck → Channel → Bool
blames none ch = false
blames (some check) ch = check.violated && is_suspect check.suspect_channel ch

abbrev pub reason_given : Option PhysicsCheck → AttributionReason
reason_given none = reason_none
reason_given (some check) = reason_attack check.reason

-- The body of the loop of `attribute`.
unfoldable pub attribute_channel : Option PhysicsCheck → Bool → Channel → AttributionResult
attribute_channel check flagged ch =
    if not flagged
    then record { attribution = nothing; reason = reason_none }
    else if blames check ch
    then record { attribution = attack; reason = reason_given check }
    else record { attribution = fault; reason = reason_fault }

-- `attribute`, whose rule is asked only if no check is given and some channel is flagged.
unfoldable pub attribute :
    ChannelSet → Option PhysicsCheck → Rule → Option (Rule × (Channel → AttributionResult))
attribute flags (some check) r = some (r, λ ch. attribute_channel (some check) (flags ch) ch)
attribute flags none r =
    if any_of flags
    then elim (check_physics r) [
      | none ↦ none
      | some (r', check) ↦ some (r', λ ch. attribute_channel (some check) (flags ch) ch)
    ]
    else some (r, λ ch. attribute_channel none (flags ch) ch)

abbrev pub full : Fraction
full = record { num = 1; den = 1 }

abbrev pub objection : Fraction
objection = record { num = 0; den = 1 }

-- The k values that `OperatingStateCorrelationProvider.record_window` makes of a check.
unfoldable pub k_of : PhysicsCheck → Channel → Fraction
k_of check ch = if check.violated && is_objected check.suspect_channel ch then objection else full
  where
    is_objected : Option Channel → Channel → Bool
    is_objected none ch = is_channel current ch || is_channel vibration ch
    is_objected (some s) ch = is_channel s ch

-- `record_window` of a rule that observed the window.
unfoldable pub record_k : Rule → Option (Rule × (Channel → Fraction))
unfolding k_of
record_k r = elim (check_physics r) [ none ↦ none | some (r', check) ↦ some (r', k_of check) ]
