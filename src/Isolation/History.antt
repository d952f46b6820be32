-- ===== src/Isolation/History.antt =====
-- The isolation tracker of edge/pipeline/isolation_tracker.py against the readings it was given.
use shtapm.Base.{◌≡◌, true, false, ◌↔◌, ◌⊎◌, inl, inr, List, [], ◌∷◌, arith, All, none, some}
use shtapm.Base.Ratio.{leb_r, ltb_r}
use shtapm.Contracts.{Channel, ChannelSet}
use shtapm.Trust.Bands.{
  TrustReading, classify, malicious, suspicious, trusted, trusted_min, malicious_max,
}
use shtapm.Isolation.{
  TrustMap, update, no_channels, not_recovered, still_malicious, newly_isolated, recovered,
  isolation_candidate,
}

-- A reading whose band is the one of its score, as the trust engine makes it.
abbrev pub IsBanded : TrustReading → Type 0
IsBanded r = r.band ≡ classify r.trust

module _ (old : ChannelSet) (trust : TrustMap) (ch : Channel) (banded : IsBanded (trust ch)) where
  -- One update, for a channel whose reading has the band of its score. A malicious channel is
  -- tracked afterwards, a trusted one is not and counts as released exactly if it was tracked,
  -- and a suspicious one keeps its state; each tracked or released channel gets the one reason
  -- that fits, and no other channel gets any.
  pub update_lem :
      let (tracked, r) = update old trust in
      (r.tracked ch ≡ tracked ch)
      × (((trust ch).band ≡ malicious)
            × (tracked ch ≡ true)
            × (r.released ch ≡ false)
            × (((old ch ≡ true)
                  × (r.reasons ch ≡ some (still_malicious (isolation_candidate (trust ch).trust))))
                ⊎ ((old ch ≡ false)
                    × (r.reasons ch
                        ≡ some (newly_isolated (isolation_candidate (trust ch).trust)))))
          ⊎ ((trust ch).band ≡ suspicious)
            × (tracked ch ≡ old ch)
            × (r.released ch ≡ false)
            × (((old ch ≡ true) × (r.reasons ch ≡ some (not_recovered (trust ch).trust)))
                ⊎ ((old ch ≡ false) × (r.reasons ch ≡ none)))
          ⊎ ((trust ch).band ≡ trusted)
            × (tracked ch ≡ false)
            × (r.released ch ≡ old ch)
            × (((old ch ≡ true) × (r.reasons ch ≡ some (recovered (trust ch).trust)))
                ⊎ ((old ch ≡ false) × (r.reasons ch ≡ none))))
  unfolding update classify
  update_lem = ground arith

  pub step_tracked : ((update old trust).0 ch ≡ true) ↔ (
      (ltb_r (trust ch).trust malicious_max ≡ true)
      ⊎ ((leb_r trusted_min (trust ch).trust ≡ false) × (old ch ≡ true)))
  unfolding update classify
  step_tracked = ground arith

module _ (old : ChannelSet) (trust : TrustMap) (ch : Channel) where
  pub malicious_tracked : (trust ch).band ≡ malicious → (update old trust).1.tracked ch ≡ true
  unfolding update
  malicious_tracked m = ground arith

  pub trusted_released :
      IsBanded (trust ch) → (trust ch).band ≡ trusted → (update old trust).0 ch ≡ false
  unfolding update classify
  trusted_released b t = ground arith

-- The tracked set after a history of outcomes, newest first.
unfoldable pub tracked_after : List TrustMap → ChannelSet
tracked_after [] = no_channels
tracked_after (trust ∷ older) = (update (tracked_after older) trust).0

-- A channel's score fell below `MALICIOUS_MAX` at some window of the history, and stayed below
-- `TRUSTED_MIN` in all windows since.
pub data FellSince (ch : Channel) : List TrustMap → Type 0 where
  fell :
      {trust : TrustMap} {older : List TrustMap}
      → ltb_r (trust ch).trust malicious_max ≡ true
      → FellSince ch (trust ∷ older)
  low :
      {trust : TrustMap} {older : List TrustMap}
      → leb_r trusted_min (trust ch).trust ≡ false
      → FellSince ch older
      → FellSince ch (trust ∷ older)

fell_of_tracked :
    (ch : Channel) (h : List TrustMap)
    → All (λ trust. IsBanded (trust ch)) h
    → tracked_after h ch ≡ true
    → FellSince ch h
unfolding tracked_after
fell_of_tracked ch [] b e = cc
fell_of_tracked ch (trust ∷ older) b e =
    elim ((step_tracked (tracked_after older) trust ch b.0).0 e) [
      | inl f ↦ fell f
      | inr (l, e') ↦ low l (fell_of_tracked ch older b.1 e')
    ]

tracked_of_fell :
    (ch : Channel) {h : List TrustMap}
    → FellSince ch h
    → All (λ trust. IsBanded (trust ch)) h
    → tracked_after h ch ≡ true
unfolding tracked_after
tracked_of_fell ch (fell {trust = t} {older = o} f) b =
    (step_tracked (tracked_after o) t ch b.0).1 (inl f)
tracked_of_fell ch (low {trust = t} {older = o} l s) b =
    (step_tracked (tracked_after o) t ch b.0).1 (inr (l, tracked_of_fell ch s b.1))

-- The tracker isolates a channel exactly if its score fell below `MALICIOUS_MAX` in the history
-- and has not been back at `TRUSTED_MIN` since, for every history of banded readings.
pub tracked_iff_fell :
    (ch : Channel) (h : List TrustMap)
    → All (λ trust. IsBanded (trust ch)) h
    → (tracked_after h ch ≡ true) ↔ FellSince ch h
tracked_iff_fell ch h b = (fell_of_tracked ch h b, λ s. tracked_of_fell ch s b)
