-- ===== src/Trust/Response.antt =====
-- Rounds of edge/trust/engine.py followed by the tracker of edge/pipeline/isolation_tracker.py.
use shtapm.Base.{◌*◌, ◌<◌, ◌≡◌, refl, ap, ◌∙◌, true, false, arith, some}
use shtapm.Contracts.{Channel, ChannelSet}
use shtapm.Trust.Bands.{malicious, trusted}
use shtapm.Trust.Beta.{mix, decay, band_of}
use shtapm.Trust.Detection.{IsZero, IsOne, IsReputation, three_zeros, four_ones, scale_positive}
use shtapm.Trust.Engine.{Engine, update_from_providers, reading_of}
use shtapm.Trust.Readings.{Signals, AllUnit, evidence, update_from_providers_lem}
use shtapm.Isolation.{TrustMap, update}
use shtapm.Isolation.History.{malicious_tracked, trusted_released}

-- All three signals speak against a channel, or all speak fully for it.
abbrev pub IsSilent : Signals → Channel → Type 0
IsSilent p ch = ((p.c ch).num ≡ 0) × ((p.k ch).num ≡ 0) × ((p.h ch).num ≡ 0)

abbrev pub IsFull : Signals → Channel → Type 0
IsFull p ch =
    ((p.c ch).num ≡ (p.c ch).den) × ((p.k ch).num ≡ (p.k ch).den) × ((p.h ch).num ≡ (p.h ch).den)

module _ (p : Signals) (ch : Channel) (u : AllUnit p) where
  evidence_den : 0 < (evidence p ch).den
  unfolding mix
  evidence_den =
      let ((pc, _), (pk, _), (ph, _)) = u ch in
      let all =
        scale_positive (p.c ch).den ((p.k ch).den * (p.h ch).den) pc
          (scale_positive (p.k ch).den (p.h ch).den pk ph) in
      omega arith

  evidence-IsZero : IsSilent p ch → IsZero (evidence p ch)
  unfolding mix
  evidence-IsZero (zc, zk, zh) = (evidence_den, rw (zc, zk, zh) (omega arith))

  evidence-IsOne : IsFull p ch → IsOne (evidence p ch)
  unfolding mix
  evidence-IsOne (oc, ok, oh) = (evidence_den, rw (oc, ok, oh) (omega arith))

-- The engine after a round, and the readings that the round returns.
abbrev pub round : Signals → Engine → Engine
round p e = (update_from_providers p.c p.k p.h e).0

abbrev pub Returns : Signals → Engine → TrustMap → Type 0
Returns p e trust = (update_from_providers p.c p.k p.h e).1 ≡ some (λ ch. some (trust ch))

abbrev round_trust : Signals → Engine → TrustMap
round_trust p e ch = reading_of (evidence p ch) (decay (e ch) (evidence p ch))

round_lem :
    (p : Signals) (u : AllUnit p) (e : Engine) (ch : Channel)
    → (round p e ch ≡ decay (e ch) (evidence p ch)) × Returns p e (round_trust p e)
round_lem p u e ch = (
  ap (λ r. r.0 ch) (update_from_providers_lem p u e),
  ap (λ r. r.1) (update_from_providers_lem p u e),
)

-- If all signals of three rounds are in [0, 1] and in each of them all three speak against a
-- channel, then the third round returns readings with which the tracker isolates the channel,
-- whatever it tracked and whatever updates the channel's reputation had before.
pub silent_is_isolated :
    (e : Engine) (p p' p'' : Signals) (ch : Channel) (old : ChannelSet)
    → IsReputation (e ch)
    → AllUnit p
    → AllUnit p'
    → AllUnit p''
    → IsSilent p ch
    → IsSilent p' ch
    → IsSilent p'' ch
    → (trust : TrustMap) × Returns p'' (round p' (round p e)) trust
      × ((update old trust).0 ch ≡ true)
unfolding update
silent_is_isolated e p p' p'' ch old r u u' u'' z z' z'' =
    let e2 = round p' (round p e) in
    let trust = round_trust p'' e2 in
    let state : e2 ch ≡ decay (decay (e ch) (evidence p ch)) (evidence p' ch) =
      (round_lem p' u' (round p e) ch).0
      ∙ ap (λ s. decay s (evidence p' ch)) (round_lem p u e ch).0 in
    let bad : (trust ch).band ≡ malicious =
      ap (λ s. band_of (decay s (evidence p'' ch))) state
      ∙ three_zeros (e ch) (evidence p ch) (evidence p' ch) (evidence p'' ch) r
          (evidence-IsZero p ch u z) (evidence-IsZero p' ch u' z')
          (evidence-IsZero p'' ch u'' z'') in
    (trust, (round_lem p'' u'' e2 ch).1, malicious_tracked old trust ch bad)

-- If all signals of four rounds are in [0, 1] and in each of them all three speak fully for a
-- channel, then the fourth round returns readings with which the tracker does not isolate the
-- channel, whatever it tracked and whatever updates the channel's reputation had before.
pub full_is_released :
    (e : Engine) (p p' p'' last : Signals) (ch : Channel) (old : ChannelSet)
    → IsReputation (e ch)
    → AllUnit p
    → AllUnit p'
    → AllUnit p''
    → AllUnit last
    → IsFull p ch
    → IsFull p' ch
    → IsFull p'' ch
    → IsFull last ch
    → (trust : TrustMap) × Returns last (round p'' (round p' (round p e))) trust
      × ((update old trust).0 ch ≡ false)
full_is_released e p p' p'' last ch old r u u' u'' u4 o o' o'' o4 =
    let e3 = round p'' (round p' (round p e)) in
    let trust = round_trust last e3 in
    let s1 = (round_lem p u e ch).0 in
    let s2 = (round_lem p' u' (round p e) ch).0 ∙ ap (λ s. decay s (evidence p' ch)) s1 in
    let s3 =
      (round_lem p'' u'' (round p' (round p e)) ch).0 ∙ ap (λ s. decay s (evidence p'' ch)) s2 in
    let good : (trust ch).band ≡ trusted =
      ap (λ s. band_of (decay s (evidence last ch))) s3
      ∙ four_ones (e ch) (evidence p ch) (evidence p' ch) (evidence p'' ch) (evidence last ch) r
          (evidence-IsOne p ch u o) (evidence-IsOne p' ch u' o') (evidence-IsOne p'' ch u'' o'')
          (evidence-IsOne last ch u4 o4) in
    (trust, (round_lem last u4 e3 ch).1, trusted_released old trust ch refl good)
