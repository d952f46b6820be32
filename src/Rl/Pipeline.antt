-- ===== src/Rl/Pipeline.antt =====
-- One cycle of the baseline policy of edge/rl/policy.py, the tracker of
-- edge/pipeline/isolation_tracker.py and the gate of edge/rl/fallback_gate.py, put together.
use shtapm.Base.{
  ◌≡◌, refl, ◌⊎◌, inl, inr, Bool, true, false, arith, Option, none, some, ◌≢◌, ◌∙◌, ap, Bool-cases,
}
use shtapm.Base.Ratio.{Ratio, leb_r}
use shtapm.Contracts.{Channel, ChannelSet, any_of, RlAction, continues, isolate, safe_stop}
use shtapm.Trust.Bands.{malicious}
use shtapm.Isolation.History.{malicious_tracked}
use shtapm.Isolation.{TrustMap, TrackerResult, update}
use shtapm.Rl.State.{RlState}
use shtapm.Rl.Policy.{PolicyDecision, propose, propose_by_health, propose_by_trust, decision}
use shtapm.Rl.Gate.{
  GateInput, request, evaluate_rl_action, check_request, check_confidence, fallback, decided,
  deterministic_fallback_action,
}
use shtapm.Rl.Safety.{continues_only_if_clear}

-- What the gate is given of a policy's decision.
abbrev pub gate_input : PolicyDecision → Option RlState → TrackerResult → Ratio → Bool → GateInput
gate_input d state isolation_status threshold stopped = record {
  requested_action = request d.proposed_action;
  state = state;
  isolation_status = isolation_status;
  policy_available = d.policy_available;
  policy_validated = d.policy_validated;
  confidence_threshold = threshold;
  confidence = d.confidence;
  already_safe_stopped = stopped;
}

-- The health that a state tells is at or below the threshold, or there is no state.
abbrev pub is_critical : Ratio → Option RlState → Bool
is_critical threshold none = true
is_critical threshold (some s) = low s.health
  where
    low : Option Ratio → Bool
    low none = false
    low (some h) = leb_r h threshold

request_injective : {a b : RlAction} → request a ≡ request b → a ≡ b
request_injective e = cc

module _ (critical : Ratio) (state : Option RlState) where
  propose_stops :
      is_critical critical state ≡ true → (propose critical state).proposed_action ≡ safe_stop
  unfolding propose propose_by_health decision
  propose_stops e = ground arith

  propose_else :
      is_critical critical state ≡ false → (propose critical state).proposed_action ≢ safe_stop
  unfolding propose propose_by_health propose_by_trust decision
  propose_else e = ground arith

  propose_unvalidated : (propose critical state).policy_validated ≡ false
  unfolding propose propose_by_health propose_by_trust decision
  propose_unvalidated = ground arith

module _ (i : GateInput) (unvalidated : i.policy_validated ≡ false) where
  unvalidated_stops :
      (i.already_safe_stopped ≡ true) ⊎ (i.requested_action ≡ request safe_stop)
      → (evaluate_rl_action i).approved_action ≡ safe_stop
  unfolding evaluate_rl_action check_request check_confidence fallback decided
      deterministic_fallback_action
  unvalidated_stops e = ground arith

  unvalidated_else :
      i.already_safe_stopped ≡ false
      → i.requested_action ≢ request safe_stop
      → (evaluate_rl_action i).approved_action ≡ deterministic_fallback_action i.isolation_status
  unfolding evaluate_rl_action check_request check_confidence fallback decided
      deterministic_fallback_action
  unvalidated_else h r = ground arith

fallback_isolates :
    (r : TrackerResult) → any_of r.tracked ≡ true → deterministic_fallback_action r ≡ isolate
unfolding deterministic_fallback_action
fallback_isolates r e = rw e refl

fallback_continues :
    (r : TrackerResult) → any_of r.tracked ≡ false → deterministic_fallback_action r ≡ continues
unfolding deterministic_fallback_action
fallback_continues r e = rw e refl

-- What the gate approves when the baseline policy proposes.
unfoldable pub baseline_action : Ratio → Ratio → Option RlState → TrackerResult → Bool → RlAction
baseline_action critical threshold state isolation_status stopped =
    (evaluate_rl_action (
      gate_input (propose critical state) state isolation_status threshold stopped)).approved_action

module _ (critical threshold : Ratio) (state : Option RlState) (isolation : TrackerResult) where
  gated_stop :
      (stopped : Bool)
      → (stopped ≡ true) ⊎ (is_critical critical state ≡ true)
      → baseline_action critical threshold state isolation stopped ≡ safe_stop
  unfolding baseline_action
  gated_stop stopped e =
      unvalidated_stops (gate_input (propose critical state) state isolation threshold stopped)
        (propose_unvalidated critical state)
        (elim e [ inl s ↦ inl s | inr c ↦ inr (ap request (propose_stops critical state c)) ])

  gated_else :
      is_critical critical state ≡ false
      → baseline_action critical threshold state isolation false
        ≡ deterministic_fallback_action isolation
  unfolding baseline_action
  gated_else c =
      unvalidated_else (gate_input (propose critical state) state isolation threshold false)
        (propose_unvalidated critical state) refl
        (λ r. propose_else critical state c (request_injective r))

  -- What the gate approves of a baseline proposal: a safe stop exactly if the system is in one,
  -- the state is missing, or its health is at or below the critical threshold; otherwise the
  -- proposal is replaced, by isolating if a channel is tracked and by continuing if none is.
  pub baseline_gated :
      (stopped : Bool)
      → (((stopped ≡ true) ⊎ (is_critical critical state ≡ true))
          × (baseline_action critical threshold state isolation stopped ≡ safe_stop))
        ⊎ ((stopped ≡ false)
            × (is_critical critical state ≡ false)
            × (((any_of isolation.tracked ≡ true)
                  × (baseline_action critical threshold state isolation stopped ≡ isolate))
                ⊎ ((any_of isolation.tracked ≡ false)
                    × (baseline_action critical threshold state isolation stopped ≡ continues))))
  baseline_gated true = inl (inl refl, gated_stop true (inl refl))
  baseline_gated false = elim (Bool-cases (is_critical critical state)) [
    | inl c ↦ inl (inr c, gated_stop false (inr c))
    | inr c ↦ inr (
      refl,
      c,
      elim (Bool-cases (any_of isolation.tracked)) [
        | inl t ↦ inl (t, gated_else c ∙ fallback_isolates isolation t)
        | inr t ↦ inr (t, gated_else c ∙ fallback_continues isolation t)
      ],
    )
  ]

-- As long as a channel's score, with the band that fits it, is below the malicious limit, a
-- cycle of tracker, any policy and gate does not approve continuing.
pub malicious_never_continues :
    (old : ChannelSet) (trust : TrustMap) (ch : Channel) (d : PolicyDecision)
    (state : Option RlState) (threshold : Ratio) (stopped : Bool)
    → (trust ch).band ≡ malicious
    → (evaluate_rl_action
        (gate_input d state (update old trust).1 threshold stopped)).approved_action
      ≢ continues
malicious_never_continues old trust ch d state threshold stopped m e =
    let clear =
      (continues_only_if_clear (gate_input d state (update old trust).1 threshold stopped) e).1
        ch in
    let tracked = malicious_tracked old trust ch m in cc
