-- ===== src/Edge/Stopped.antt =====
-- A channel that falls and does not recover, through the runs of the handler of edge/main.py.
use shtapm.Base.{
  ℕ, ◌+◌, ◌≤◌, ◌≡◌, ap, subst, ◌∙◌, true, false, Option, none, ◌⊎◌, inl, inr, some, List, arith,
}
use shtapm.Base.Ratio.{Ratio, leb_r, ltb_r}
use shtapm.Actuation.Latch.{IsHeld}
use shtapm.Trust.Bands.{trusted_min, malicious_max}
use shtapm.Isolation.History.{step_tracked}
use shtapm.Acquisition.Sampler.{Frame}
use shtapm.Heal.Expiry.{start_of}
use shtapm.Heal.Runtime.{Bundle}
use shtapm.Backend.Condition.{DecisionMessage}
use shtapm.Edge.Wiring.{Parts, Edge, Times, take_frame}
use shtapm.Edge.Held.{frame-IsHeld}
use shtapm.Edge.Live.{window_of}
use shtapm.Edge.Fallen.{
  Hands, StaysLow, ends, goes_low, IsServing, IsFull, IsFallen, emission, still-IsFull,
  message_trust, waits_after, stops_late,
}

module _ {S D : Type 0} (p : Parts S D) (b : Bundle) (serving : IsServing p b) where
  -- A channel whose trust is malicious, or low while it is tracked, is tracked after the frame.
  tracked_after_frame :
      (t : Times) (f : Frame) (e e' : Edge S D) (m : DecisionMessage) (buffer : List Frame)
      → IsFull p buffer e
      → Hands p t f e m e'
      → (ltb_r (m.trust b.channel) malicious_max ≡ true)
        ⊎ ((leb_r trusted_min (m.trust b.channel) ≡ false) × (e.tracked b.channel ≡ true))
      → e'.tracked b.channel ≡ true
  unfolding take_frame
  tracked_after_frame t f e e' m buffer full hands reason =
      let (emitted, live) = emission p b serving t f e e' m buffer full hands in
      let same = message_trust p b serving t f e e' m buffer full hands b.channel in
      ap (λ (x : Edge S D). x.tracked b.channel) emitted.shape
      ∙ (step_tracked e.tracked emitted.trust b.channel (emitted.banded b.channel)).1 (
          subst
            (λ (x : Ratio).
              (ltb_r x malicious_max ≡ true)
              ⊎ ((leb_r trusted_min x ≡ false) × (e.tracked b.channel ≡ true)))
            same reason)

  -- What a low frame of a fallen channel leaves it waiting for.
  waits_on :
      (t : Times) (f : Frame) (e e' : Edge S D) (m : DecisionMessage) (buffer : List Frame) (t₀ : ℕ)
      → IsFull p buffer e
      → Hands p t f e m e'
      → leb_r trusted_min (m.trust b.channel) ≡ false
      → e'.tracked b.channel ≡ true
      → (e.healer.episodes b.channel ≡ some t₀) ⊎ IsHeld p.actuator e.supervisor
      → (e'.healer.episodes b.channel ≡ some t₀) ⊎ IsHeld p.actuator e'.supervisor
  waits_on t f e e' m buffer t₀ full hands lo tracked (inr held) =
      inr (frame-IsHeld p serving.reliable t f e e' hands.0 (inl held))
  waits_on t f e e' m buffer t₀ full hands lo tracked (inl run) =
      elim (waits_after p b serving t f e e' m buffer full hands lo tracked) [
        | inl q ↦
            inl (q ∙ ap (λ (o : Option ℕ). some (elim o [ none ↦ t.opened | some x ↦ x ])) run)
        | inr held ↦ inr held
      ]

  IsFallen-stays :
      (e e' : Edge S D) (xs : List (Times × Frame)) (buffer : List Frame) (t₀ : ℕ)
      → StaysLow p b.channel e xs e'
      → IsFull p buffer e
      → IsFallen p b serving t₀ e
      → (last : List Frame) × IsFull p last e' × IsFallen p b serving t₀ e'
  IsFallen-stays e e' xs buffer t₀ ends full fallen = (buffer, full, fallen)
  IsFallen-stays e e' xs buffer t₀
        (goes_low {t = t} {f = f} {e' = e1} {m = m} {xs = rest} hands lo then) full fallen =
      let tracked = tracked_after_frame t f e e1 m buffer full hands (inr (lo, fallen.tracked)) in
      IsFallen-stays e1 e' rest (window_of p f e buffer) t₀ then
        (still-IsFull p b serving t f e e1 m buffer full hands)
        (record {
          tracked = tracked;
          waits = waits_on t f e e1 m buffer t₀ full hands lo tracked fallen.waits;
        })

  -- A frame of a fallen channel past the limit leaves the pump stopped.
  last_frame_stops :
      (t : Times) (f : Frame) (e e' : Edge S D) (m : DecisionMessage) (buffer : List Frame) (t₀ : ℕ)
      → IsFull p buffer e
      → Hands p t f e m e'
      → leb_r trusted_min (m.trust b.channel) ≡ false
      → IsFallen p b serving t₀ e
      → t₀ + b.settings.substitution_max ≤ t.now
      → IsHeld p.actuator e'.supervisor
  last_frame_stops t f e e' m buffer t₀ full hands lo fallen late =
      let tracked = tracked_after_frame t f e e' m buffer full hands (inr (lo, fallen.tracked)) in
      elim fallen.waits [
        | inr held ↦ frame-IsHeld p serving.reliable t f e e' hands.0 (inl held)
        | inl run ↦ stops_late p b serving t f e e' m buffer full hands lo tracked t₀ run late
      ]

  low_if_malicious : (x : Ratio) → ltb_r x malicious_max ≡ true → leb_r trusted_min x ≡ false
  low_if_malicious x h = ground arith

  -- A sensor that falls and does not recover stops the pump, through the whole composition. Let
  -- the self-heal runtime serve a channel, with a twin, a divergence score and an uncertainty proxy
  -- that answer for the limit that is set, the detector always answer and the relay obey. If a frame's message reports the trust of that channel below
  -- MALICIOUS_MAX, the messages of all later frames report it below TRUSTED_MIN, and one of them is
  -- handled when the channel's episode is as old as the limit, then after that frame the relay is
  -- open and the stop latched. The episode is the one that was open before the first of the
  -- frames, or the one that it opens.
  pub fallen_channel_stops_pump :
      (t last : Times) (f g : Frame) (e e1 e2 e3 : Edge S D) (m m' : DecisionMessage)
      (xs : List (Times × Frame)) (buffer : List Frame)
      → IsFull p buffer e
      → Hands p t f e m e1
      → ltb_r (m.trust b.channel) malicious_max ≡ true
      → StaysLow p b.channel e1 xs e2
      → Hands p last g e2 m' e3
      → leb_r trusted_min (m'.trust b.channel) ≡ false
      → start_of e.healer b.channel t.opened + b.settings.substitution_max ≤ last.now
      → IsHeld p.actuator e3.supervisor
  fallen_channel_stops_pump t last f g e e1 e2 e3 m m' xs buffer full hands bad run hands' lo late =
      let t₀ = start_of e.healer b.channel t.opened in
      let tracked = tracked_after_frame t f e e1 m buffer full hands (inl bad) in
      let lo₁ = low_if_malicious (m.trust b.channel) bad in
      let (window, full2, fallen) =
        IsFallen-stays e1 e2 xs (window_of p f e buffer) t₀ run
          (still-IsFull p b serving t f e e1 m buffer full hands)
          (record {
            tracked = tracked;
            waits = waits_after p b serving t f e e1 m buffer full hands lo₁ tracked;
          }) in
      last_frame_stops last g e2 e3 m' window t₀ full2 hands' lo fallen late
