-- ===== src/Rl/Reward.antt =====
-- edge/rl/reward.py: the reward of a transition by objective, and what it says of the gate. The
-- constant status texts are left out.
use shtapm.Base.{
  Bool, true, false, not, ◌&&◌, ◌||◌, Option, none, some, List, [], ◌∷◌, if◌then◌else◌, ◌≡◌, ◌↔◌,
  arith,
}
use shtapm.Base.Int.{negsuc}
use shtapm.Base.Ratio.{Ratio, frac, ◌+r◌, ◌-r◌, ◌*r◌, ◌/r◌}
use shtapm.Contracts.{Channel, channels, RlAction, reduce_weight, isolate}
use shtapm.Rl.State.{RlState, is_missing}
use shtapm.Rl.Gate.{
  SafetyStatus, safe_stop_active, isolation_active, nominal, Request, request, GateInput,
  GateDecision, is_safe_stop, is_continue, deterministic_fallback_action, decided, fallback,
  check_confidence, check_request, evaluate_rl_action, status_of_safety,
}
use shtapm.Rl.Safety.{IsTrustedPolicy}

abbrev pub reward_magnitude : Ratio
reward_magnitude = frac 1 1

-- `-PENALTY_MAGNITUDE_FIXTURE`.
abbrev pub penalty : Ratio
penalty = record { num = negsuc 0; den = 1 }

abbrev pub neutral : Ratio
neutral = frac 0 1

pub record RewardComponents : Type 0 where
  pub health_maintenance : Ratio
  pub anomaly_impact : Ratio
  pub trust_preservation : Ratio
  pub isolation_appropriateness : Ratio
  pub unsafe_action_penalty : Ratio
  pub recovery_stabilization : Ratio
  pub safe_stop_behavior : Ratio

-- `RewardWeights` has the fields of the components.
abbrev pub RewardWeights : Type 0
RewardWeights = RewardComponents

abbrev pub simulation_reward_weights : RewardWeights
simulation_reward_weights = record {
  health_maintenance = frac 1 1;
  anomaly_impact = frac 1 1;
  trust_preservation = frac 1 1;
  isolation_appropriateness = frac 1 1;
  unsafe_action_penalty = frac 1 1;
  recovery_stabilization = frac 1 1;
  safe_stop_behavior = frac 1 1;
}

pub record RewardResult : Type 0 where
  pub total : Option Ratio
  pub components : RewardComponents
  pub requested_action : Request
  pub approved_action : RlAction
  pub fallback_used : Bool
  pub previous_state : Option RlState
  pub next_state : Option RlState

abbrev pub is_nominal : SafetyStatus → Bool
is_nominal nominal = true
is_nominal _ = false

abbrev pub is_isolation_active : SafetyStatus → Bool
is_isolation_active isolation_active = true
is_isolation_active _ = false

abbrev pub is_safe_stop_active : SafetyStatus → Bool
is_safe_stop_active safe_stop_active = true
is_safe_stop_active _ = false

-- The request is `isolate` or `reduce_weight`; the request is `continue_`.
abbrev pub is_isolating : Request → Bool
is_isolating (request isolate) = true
is_isolating (request reduce_weight) = true
is_isolating _ = false

abbrev pub is_continuing : Request → Bool
is_continuing (request a) = is_continue a
is_continuing _ = false

abbrev pub health_or_none : Option RlState → Option Ratio
health_or_none none = none
health_or_none (some s) = s.health

abbrev pub or_neutral : Option Ratio → Ratio
or_neutral none = neutral
or_neutral (some x) = x

abbrev pub flagged : Option RlState → Bool
flagged none = false
flagged (some s) = s.anomaly_flag

abbrev pub sum_of : (Channel → Ratio) → List Channel → Ratio
sum_of f [] = frac 0 1
sum_of f (ch ∷ rest) = f ch +r sum_of f rest

abbrev pub mean_trust : Option RlState → Ratio
mean_trust none = neutral
mean_trust (some s) = sum_of s.trust channels /r frac 6 1

abbrev pub improvement : Option Ratio → Option Ratio → Ratio
improvement (some before) (some after) = after -r before
improvement _ _ = neutral

-- The request breaks one of the gate's hard constraints.
unfoldable pub is_unsafe : GateDecision → Bool
is_unsafe d =
    (is_safe_stop_active d.safety_status && not (is_safe_stop d.requested_action))
    || (is_isolation_active d.safety_status && is_continuing d.requested_action)

unfoldable pub compute_components :
    Option RlState → GateDecision → Option RlState → RewardComponents
compute_components previous d next = record {
  health_maintenance = or_neutral (health_or_none next);
  anomaly_impact = if flagged next then penalty else neutral;
  trust_preservation = mean_trust next;
  isolation_appropriateness =
      if is_isolating d.requested_action && is_nominal d.safety_status
      then penalty
      else if is_continuing d.requested_action && is_isolation_active d.safety_status
      then penalty
      else neutral;
  unsafe_action_penalty = if is_unsafe d then penalty else neutral;
  recovery_stabilization = improvement (health_or_none previous) (health_or_none next);
  safe_stop_behavior =
      if is_safe_stop d.requested_action
      then if not (is_nominal d.safety_status) then reward_magnitude else penalty
      else neutral;
}

unfoldable pub weighted_total : RewardComponents → RewardWeights → Ratio
weighted_total c w =
    c.health_maintenance *r w.health_maintenance
    +r c.anomaly_impact *r w.anomaly_impact
    +r c.trust_preservation *r w.trust_preservation
    +r c.isolation_appropriateness *r w.isolation_appropriateness
    +r c.unsafe_action_penalty *r w.unsafe_action_penalty
    +r c.recovery_stabilization *r w.recovery_stabilization
    +r c.safe_stop_behavior *r w.safe_stop_behavior

unfoldable pub compute_reward :
    Option RlState → GateDecision → Option RlState → Option RewardWeights → RewardResult
compute_reward previous d next weights =
    let components = compute_components previous d next in
    record {
      total = elim weights [ none ↦ none | some w ↦ some (weighted_total components w) ];
      components = components;
      requested_action = d.requested_action;
      approved_action = d.approved_action;
      fallback_used = d.fallback_used;
      previous_state = previous;
      next_state = next;
    }

unsafe_iff_fallback :
    (i : GateInput) (a : RlAction)
    → i.requested_action ≡ request a
    → is_safe_stop (request a) ≡ false
    → is_missing i.state ≡ false
    → IsTrustedPolicy i
    → (is_unsafe (evaluate_rl_action i) ≡ true) ↔ ((evaluate_rl_action i).fallback_used ≡ true)
unfolding evaluate_rl_action check_request check_confidence fallback decided
    deterministic_fallback_action is_unsafe status_of_safety
unsafe_iff_fallback i a e n m t = ground arith

penalised :
    (d : GateDecision) (previous next : Option RlState)
    → ((compute_components previous d next).unsafe_action_penalty ≡ penalty) ↔ (is_unsafe d ≡ true)
unfolding compute_components
penalised d previous next = ground arith

-- Reward and gate agree on what is unsafe: when the state is there and a policy that is there,
-- validated and confident enough asks for an action other than a safe stop, the reward penalises
-- the request as unsafe exactly if the gate overrides it.
pub unsafe_iff_overridden :
    (i : GateInput) (a : RlAction) (previous next : Option RlState) (w : Option RewardWeights)
    → i.requested_action ≡ request a
    → is_safe_stop (request a) ≡ false
    → is_missing i.state ≡ false
    → IsTrustedPolicy i
    → ((compute_reward previous (evaluate_rl_action i) next w).components.unsafe_action_penalty
        ≡ penalty)
      ↔ ((evaluate_rl_action i).fallback_used ≡ true)
unfolding compute_reward
unsafe_iff_overridden i a previous next w e n m t =
    let one = penalised (evaluate_rl_action i) previous next in
    let two = unsafe_iff_fallback i a e n m t in (λ p. two.0 (one.0 p), λ q. one.1 (two.1 q))
