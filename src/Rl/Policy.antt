-- ===== src/Rl/Policy.antt =====
-- edge/rl/policy.py: the baseline policy. A reason text is its case, with what it shows; the
-- policy's constant name and version are left out.
use shtapm.Base.{Bool, true, false, Option, none, some, List, if◌then◌else◌}
use shtapm.Base.Ratio.{Ratio, leb_r}
use shtapm.Contracts.{
  Channel, ChannelSet, any_of, sorted_members, RlAction, continues, reduce_weight, isolate, alert,
  safe_stop,
}
use shtapm.Trust.Bands.{TrustBand, suspicious, malicious, classify}
use shtapm.Rl.State.{RlState}

pub data PolicyReason : Type 0 where
  state_is_unavailable : PolicyReason
  critical_health : Ratio → Ratio → PolicyReason
  malicious_channels suspicious_channels : List Channel → PolicyReason
  anomaly_flagged nominal_state : PolicyReason

pub record PolicyDecision : Type 0 where
  pub proposed_action : RlAction
  pub policy_available : Bool
  pub policy_validated : Bool
  pub confidence : Option Ratio
  pub reason : PolicyReason

unfoldable pub decision : RlAction → PolicyReason → PolicyDecision
decision action reason = record {
  proposed_action = action;
  policy_available = true;
  policy_validated = false;
  confidence = none;
  reason = reason;
}

abbrev pub band_summary : (Channel → Ratio) → Channel → TrustBand
band_summary trust ch = classify (trust ch)

abbrev pub is_malicious : TrustBand → Bool
is_malicious malicious = true
is_malicious _ = false

abbrev pub is_suspicious : TrustBand → Bool
is_suspicious suspicious = true
is_suspicious _ = false

unfoldable pub propose_by_trust : RlState → PolicyDecision
unfolding classify
propose_by_trust s =
    let malicious_set : ChannelSet = λ ch. is_malicious (band_summary s.trust ch) in
    let suspicious_set : ChannelSet = λ ch. is_suspicious (band_summary s.trust ch) in
    if any_of malicious_set
    then decision isolate (malicious_channels (sorted_members malicious_set))
    else if any_of suspicious_set
    then decision reduce_weight (suspicious_channels (sorted_members suspicious_set))
    else if s.anomaly_flag
    then decision alert anomaly_flagged
    else decision continues nominal_state

unfoldable pub propose_by_health : Ratio → RlState → Option Ratio → PolicyDecision
propose_by_health threshold s none = propose_by_trust s
propose_by_health threshold s (some h) =
    if leb_r h threshold
    then decision safe_stop (critical_health h threshold)
    else propose_by_trust s

-- `BaselinePolicy(critical_health_threshold).propose`.
unfoldable pub propose : Ratio → Option RlState → PolicyDecision
propose threshold none = decision safe_stop state_is_unavailable
propose threshold (some s) = propose_by_health threshold s s.health
