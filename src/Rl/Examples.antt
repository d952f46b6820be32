-- ===== src/Rl/Examples.antt =====
-- The modules of edge/rl on concrete states and requests.
use shtapm.Base.{ℕ, ◌≡◌, refl, true, false, Bool, ◌↔◌, ◌⊎◌, [], ◌∷◌, none, some}
use shtapm.Base.Ratio.{frac}
use shtapm.Contracts.{Channel, any_of, channel_name, continues, alert, RlAction}
use shtapm.Trust.Bands.{classify}
use shtapm.Isolation.{TrustMap, TrackerResult, update, no_channels, decide_isolation}
use shtapm.Rl.State.{RlState, StateInput, finite, lookup, or_zero, number, is_missing}
use shtapm.Rl.Policy.{nominal_state, PolicyDecision, decision}
use shtapm.Rl.Gate.{
  GateInput, request, evaluate_rl_action, check_request, check_confidence, fallback, decided,
  deterministic_fallback_action, is_safe_stop, is_continue,
}
use shtapm.Rl.Safety.{Approves, IsTrustedPolicy, continues_only_if_clear, approved_iff}
use shtapm.Rl.Reward.{compute_reward, penalty, unsafe_iff_overridden}
use shtapm.Rl.Pipeline.{baseline_action}

-- Every channel with the score n / 10.
abbrev score : ℕ → TrustMap
score n ch = record { g = frac 1 2; trust = frac n 10; band = classify (frac n 10) }

-- A healthy state, and the tracker's results for good and for bad readings.
abbrev healthy_state : RlState
healthy_state = record {
  health = some (frac 9 10);
  anomaly_flag = false;
  trust = λ ch. frac 9 10;
  failure_eta = none;
}

abbrev clear : TrackerResult
clear = (update no_channels (score 9)).1

abbrev tracking : TrackerResult
tracking = (update no_channels (score 3)).1

-- A validated policy that asks for an action with confidence 0.9, over the threshold 0.8.
abbrev confident : RlAction → TrackerResult → GateInput
confident action r = record {
  requested_action = request action;
  state = some healthy_state;
  isolation_status = r;
  policy_available = true;
  policy_validated = true;
  confidence_threshold = frac 8 10;
  confidence = some (frac 9 10);
  already_safe_stopped = false;
}

continues_only_if_clear_example :
    ((confident continues clear).already_safe_stopped ≡ false)
    × ((ch : Channel) → clear.tracked ch ≡ false)
unfolding evaluate_rl_action check_request check_confidence fallback decided
    deterministic_fallback_action update decide_isolation classify
continues_only_if_clear_example = continues_only_if_clear (confident continues clear) refl

approved_iff_example : Approves (confident alert tracking) alert ↔ (
    (false ≡ false)
    × (request alert ≡ request alert)
    × ((is_safe_stop (request alert) ≡ true)
        ⊎ ((is_missing (some healthy_state) ≡ false)
            × IsTrustedPolicy (confident alert tracking)
            × ((is_continue alert ≡ false) ⊎ (any_of tracking.tracked ≡ false)))))
approved_iff_example = approved_iff (confident alert tracking) alert

abbrev baseline : Bool → RlAction
baseline = baseline_action (frac 5 100) (frac 8 10) (some healthy_state) tracking

-- A validated policy's decision to continue.
abbrev careless : PolicyDecision
careless = record (decision continues nominal_state) {
  policy_validated = true;
  confidence = some (frac 1 1);
}

abbrev input : StateInput
input = record {
  health = some (finite (frac 1 2));
  anomaly_flag = true;
  trust =
      ("gas", finite (frac 2 10))
      ∷ ("current", finite (frac 3 10))
      ∷ ("temperature", finite (frac 4 10))
      ∷ ("vibration", finite (frac 5 10))
      ∷ ("pressure", finite (frac 6 10))
      ∷ ("humidity", finite (frac 7 10))
      ∷ [];
  failure_eta = none;
}

abbrev accepted : RlState
accepted = record {
  health = some (frac 1 2);
  anomaly_flag = true;
  trust = λ ch. or_zero (number (lookup (channel_name ch) input.trust));
  failure_eta = none;
}

unsafe_iff_overridden_example :
    ((compute_reward none
        (evaluate_rl_action (confident continues tracking))
        none
        none).components.unsafe_action_penalty
      ≡ penalty)
    ↔ ((evaluate_rl_action (confident continues tracking)).fallback_used ≡ true)
unsafe_iff_overridden_example =
    unsafe_iff_overridden (confident continues tracking) continues none none none refl refl refl
      (refl, refl, refl)
