-- ===== src/Isolation.antt =====
-- edge/pipeline/isolation_fallback.py and isolation_tracker.py: which channels are isolated. Of a
-- window's outcome they read the trust readings only.

pub mod History
mod Examples
use shtapm.Base.{Bool, true, false, not, ◌&&◌, ◌||◌, Option, none, some, if◌then◌else◌}
use shtapm.Base.Ratio.{Ratio, leb_r}
use shtapm.Contracts.{Channel, ChannelSet}
use shtapm.Trust.Bands.{TrustBand, trusted, suspicious, malicious, TrustReading, trusted_min}

abbrev pub TrustMap : Type 0
TrustMap = Channel → TrustReading

-- The reason texts of `decide_isolation`, with the trust that they show.
pub data Verdict : Type 0 where
  isolation_candidate suspicious_kept trusted_kept : Ratio → Verdict

pub record IsolationDecision : Type 0 where
  pub isolated_channels : ChannelSet
  pub reasons : Channel → Verdict

abbrev is_malicious : TrustBand → Bool
is_malicious malicious = true
is_malicious _ = false

abbrev verdict : TrustBand → Ratio → Verdict
verdict malicious t = isolation_candidate t
verdict suspicious t = suspicious_kept t
verdict trusted t = trusted_kept t

unfoldable pub decide_isolation : TrustMap → IsolationDecision
decide_isolation trust = record {
  isolated_channels = λ ch. is_malicious (trust ch).band;
  reasons = λ ch. verdict (trust ch).band (trust ch).trust;
}

-- The reason texts of the tracker.
pub data TrackReason : Type 0 where
  recovered : Ratio → TrackReason
  newly_isolated still_malicious : Verdict → TrackReason
  not_recovered : Ratio → TrackReason

pub record TrackerResult : Type 0 where
  pub candidates : ChannelSet
  pub tracked : ChannelSet
  pub reasons : Channel → Option TrackReason
  pub released : ChannelSet

-- `IsolationFallbackTracker.update`: the state is the tracked set.
unfoldable pub update : ChannelSet → TrustMap → ChannelSet × TrackerResult
unfolding decide_isolation
update old trust =
    let decision = decide_isolation trust in
    let isolated = decision.isolated_channels in
    let newly_added : ChannelSet = λ ch. isolated ch && not (old ch) in
    let joined : ChannelSet = λ ch. old ch || isolated ch in
    let released : ChannelSet =
      λ ch. joined ch && (not (isolated ch) && leb_r trusted_min (trust ch).trust) in
    let tracked : ChannelSet = λ ch. joined ch && not (released ch) in
    let reasons : Channel → Option TrackReason = λ ch.
      if released ch
      then some (recovered (trust ch).trust)
      else if not (tracked ch)
      then none
      else if newly_added ch
      then some (newly_isolated (decision.reasons ch))
      else if isolated ch
      then some (still_malicious (decision.reasons ch))
      else some (not_recovered (trust ch).trust) in
    (
      tracked,
      record { candidates = isolated; tracked = tracked; reasons = reasons; released = released },
    )

abbrev pub no_channels : ChannelSet
no_channels ch = false
