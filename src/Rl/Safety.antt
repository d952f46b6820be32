-- ===== src/Rl/Safety.antt =====
-- What the gate of edge/rl/fallback_gate.py lets through.
use shtapm.Base.{◌≡◌, ◌↔◌, ◌⊎◌, Bool, true, false, not, arith, Option, none, some}
use shtapm.Base.Ratio.{Ratio, ltb_r}
use shtapm.Contracts.{Channel, any_of, any_of-false, RlAction, continues, isolate, safe_stop}
use shtapm.Rl.State.{is_missing}
use shtapm.Rl.Gate.{
  GateInput, request, evaluate_rl_action, check_request, check_confidence, fallback, decided,
  deterministic_fallback_action, is_safe_stop, is_continue,
}

abbrev pub is_confident : Option Ratio → Ratio → Bool
is_confident none threshold = false
is_confident (some c) threshold = not (ltb_r c threshold)

-- The policy's answer may be used: the policy is there, validated, and confident enough.
abbrev pub IsTrustedPolicy : GateInput → Type 0
IsTrustedPolicy i =
    (i.policy_available ≡ true)
    × (i.policy_validated ≡ true)
    × (is_confident i.confidence i.confidence_threshold ≡ true)

-- The gate uses the requested action itself, and no fallback.
abbrev pub Approves : GateInput → RlAction → Type 0
Approves i a =
    ((evaluate_rl_action i).fallback_used ≡ false) × ((evaluate_rl_action i).approved_action ≡ a)

module _ (i : GateInput) where
  continues_not_stopped :
      (evaluate_rl_action i).approved_action ≡ continues
      → (i.already_safe_stopped ≡ false) × (any_of i.isolation_status.tracked ≡ false)
  unfolding evaluate_rl_action check_request check_confidence fallback decided
      deterministic_fallback_action
  continues_not_stopped e = ground arith

  -- If the gate approves continuing, the system is not in a safe stop and no channel is tracked
  -- for isolation: neither a request nor a fallback resumes operation.
  pub continues_only_if_clear :
      (evaluate_rl_action i).approved_action ≡ continues
      → (i.already_safe_stopped ≡ false) × ((ch : Channel) → i.isolation_status.tracked ch ≡ false)
  continues_only_if_clear e =
      let (running, clear) = continues_not_stopped e in
      (running, λ ch. any_of-false i.isolation_status.tracked ch clear)

  -- The gate approves an action as requested, without a fallback, exactly if the system is not
  -- in a safe stop, that action is the request, and it is a safe stop or all of this holds: the
  -- state is there, the policy is there, validated and at least as confident as the threshold,
  -- and a request to continue finds no channel tracked for isolation.
  pub approved_iff :
      (a : RlAction)
      → Approves i a ↔ (
          (i.already_safe_stopped ≡ false)
          × (i.requested_action ≡ request a)
          × ((is_safe_stop (request a) ≡ true)
              ⊎ ((is_missing i.state ≡ false)
                  × IsTrustedPolicy i
                  × ((is_continue a ≡ false) ⊎ (any_of i.isolation_status.tracked ≡ false)))))
  unfolding evaluate_rl_action check_request check_confidence fallback decided
      deterministic_fallback_action
  approved_iff a = ground arith

  -- A safe stop is approved exactly if the system is in one or one is requested; no state of the
  -- policy, the confidence or the tracker blocks the request or brings one about.
  pub safe_stop_iff :
      ((evaluate_rl_action i).approved_action ≡ safe_stop)
      ↔ ((i.already_safe_stopped ≡ true) ⊎ (i.requested_action ≡ request safe_stop))
  unfolding evaluate_rl_action check_request check_confidence fallback decided
      deterministic_fallback_action
  safe_stop_iff = ground arith

  -- A fallback outside a safe stop isolates if a channel is tracked and continues if none is.
  pub fallback_by_tracker :
      i.already_safe_stopped ≡ false
      → (evaluate_rl_action i).fallback_used ≡ true
      → ((any_of i.isolation_status.tracked ≡ true)
          × ((evaluate_rl_action i).approved_action ≡ isolate))
        ⊎ ((any_of i.isolation_status.tracked ≡ false)
            × ((evaluate_rl_action i).approved_action ≡ continues))
  unfolding evaluate_rl_action check_request check_confidence fallback decided
      deterministic_fallback_action
  fallback_by_tracker h e = ground arith
