-- ===== src/Rl/Gate.antt =====
-- edge/rl/fallback_gate.py: the gate between a proposed action and the system. A reason text is
-- its case, with what it shows; the constant execution mode is left out.
use shtapm.Base.{Bool, true, false, not, ◌&&◌, Option, none, some, List, String, if◌then◌else◌}
use shtapm.Base.Ratio.{Ratio, ltb_r}
use shtapm.Contracts.{Channel, any_of, sorted_members, RlAction, continues, isolate, safe_stop}
use shtapm.Isolation.{TrackerResult}
use shtapm.Rl.State.{RlState, is_missing}

pub data SafetyStatus : Type 0 where
  safe_stop_active isolation_active nominal : SafetyStatus

pub data PolicyStatus : Type 0 where
  unavailable unvalidated validated_low_confidence validated : PolicyStatus

-- What the caller passes for the action: nothing, a member of `RLAction`, or any other object,
-- which is known by its text.
pub data Request : Type 0 where
  no_request : Request
  request : RlAction → Request
  other_object : String → Request

pub data FallbackReason : Type 0 where
  already_in_safe_stop state_unavailable no_action : FallbackReason
  not_an_action : String → FallbackReason
  policy_unavailable policy_unvalidated no_confidence : FallbackReason
  low_confidence : Ratio → Ratio → FallbackReason
  would_resume : List Channel → FallbackReason

pub record GateInput : Type 0 where
  pub requested_action : Request
  pub state : Option RlState
  pub isolation_status : TrackerResult
  pub policy_available : Bool
  pub policy_validated : Bool
  pub confidence_threshold : Ratio
  pub confidence : Option Ratio
  pub already_safe_stopped : Bool

pub record GateDecision : Type 0 where
  pub requested_action : Request
  pub approved_action : RlAction
  pub fallback_used : Bool
  pub fallback_reason : Option FallbackReason
  pub safety_status : SafetyStatus
  pub policy_status : PolicyStatus
  pub confidence : Option Ratio
  pub confidence_threshold : Ratio

abbrev pub is_safe_stop : Request → Bool
is_safe_stop (request safe_stop) = true
is_safe_stop _ = false

abbrev pub is_continue : RlAction → Bool
is_continue continues = true
is_continue _ = false

unfoldable pub deterministic_fallback_action : TrackerResult → RlAction
deterministic_fallback_action isolation_status =
    if any_of isolation_status.tracked then isolate else continues

unfoldable pub status_of_confidence : Option Ratio → Ratio → PolicyStatus
status_of_confidence none threshold = validated
status_of_confidence (some c) threshold =
    if ltb_r c threshold then validated_low_confidence else validated

unfoldable pub status_of_policy : GateInput → PolicyStatus
status_of_policy i =
    if not i.policy_available
    then unavailable
    else if not i.policy_validated
    then unvalidated
    else status_of_confidence i.confidence i.confidence_threshold

unfoldable pub status_of_safety : GateInput → SafetyStatus
status_of_safety i =
    if i.already_safe_stopped
    then safe_stop_active
    else if any_of i.isolation_status.tracked
    then isolation_active
    else nominal

-- A `GateDecision` of this call.
unfoldable pub decided : GateInput → RlAction → Bool → Option FallbackReason → GateDecision
decided i action used reason = record {
  requested_action = i.requested_action;
  approved_action = action;
  fallback_used = used;
  fallback_reason = reason;
  safety_status = status_of_safety i;
  policy_status = status_of_policy i;
  confidence = i.confidence;
  confidence_threshold = i.confidence_threshold;
}

unfoldable pub fallback : GateInput → FallbackReason → GateDecision
fallback i reason = decided i (deterministic_fallback_action i.isolation_status) true (some reason)

-- The checks 7 to 9.
unfoldable pub check_confidence : GateInput → RlAction → Option Ratio → GateDecision
check_confidence i action none = fallback i no_confidence
check_confidence i action (some c) =
    if ltb_r c i.confidence_threshold
    then fallback i (low_confidence c i.confidence_threshold)
    else if any_of i.isolation_status.tracked && is_continue action
    then fallback i (would_resume (sorted_members i.isolation_status.tracked))
    else decided i action false none

-- The checks 4 to 6.
unfoldable pub check_request : GateInput → Request → GateDecision
check_request i no_request = fallback i no_action
check_request i (other_object text) = fallback i (not_an_action text)
check_request i (request action) =
    if not i.policy_available
    then fallback i policy_unavailable
    else if not i.policy_validated
    then fallback i policy_unvalidated
    else check_confidence i action i.confidence

unfoldable pub evaluate_rl_action : GateInput → GateDecision
evaluate_rl_action i =
    if i.already_safe_stopped
    then decided i safe_stop true (some already_in_safe_stop)
    else if is_safe_stop i.requested_action
    then decided i safe_stop false none
    else if is_missing i.state
    then fallback i state_unavailable
    else check_request i i.requested_action
