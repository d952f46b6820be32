-- ===== src/Edge/Fallen.antt =====
-- From a channel's fall to the relay, through the handler of edge/main.py.
use mathlib.Core.Option.{some-injective}
use shtapm.Base.{
  ℕ, ◌+◌, ◌≤◌, ◌<◌, ◌≡◌, refl, sym, ap, subst, ◌∙◌, true, false, ◌⊎◌, inl, inr, Option, some, List,
  [], ◌∷◌, length, arith,
}
use shtapm.Base.Ratio.{Ratio, frac, leb_r}
use shtapm.Contracts.{Channel, ChannelSet}
use shtapm.Actuation.Relay.{IsReliable}
use shtapm.Actuation.Supervisor.{run}
use shtapm.Actuation.Latch.{IsHeld}
use shtapm.Trust.Bands.{trusted_min}
use shtapm.Isolation.{TrustMap, update}
use shtapm.Acquisition.Sampler.{Frame}
use shtapm.Heal.Orchestrator.{Orchestrator}
use shtapm.Heal.Expiry.{start_of}
use shtapm.Heal.Budget.{IsTotal, opens_or_stops}
use shtapm.Heal.Runtime.{Bundle, Round, substitute, substitute_all}
use shtapm.Heal.Limit.{IsServed, served, isolated_is_stopped}
use shtapm.Backend.Condition.{DecisionMessage}
use shtapm.Edge.Message.{build_message}
use shtapm.Edge.Wiring.{Parts, Edge, Times, round_of, take_frame, on_healthy_frame}
use shtapm.Edge.Held.{frame-IsHeld}
use shtapm.Edge.Judging.{IsTotalDetector}
use shtapm.Edge.Emission.{Emits, healer_after}
use shtapm.Edge.Live.{IsLive, window_of, entered, full_frame, length-newest}

-- A frame that is handled, and the message that it hands to the decision publisher.
abbrev pub Hands :
    {S D : Type 0} → Parts S D → Times → Frame → Edge S D → DecisionMessage → Edge S D → Type 0
Hands p t f e m e' = (on_healthy_frame p t f e ≡ some e') × (e'.decisions ≡ m ∷ e.decisions)

-- Frames after which the messages' trust of a channel is below `TRUSTED_MIN`.
pub data StaysLow {S D : Type 0} (p : Parts S D) (ch : Channel)
    : Edge S D → List (Times × Frame) → Edge S D → Type 0 where
  ends : {e : Edge S D} → StaysLow p ch e [] e
  goes_low :
      {t : Times} {f : Frame} {e e' last : Edge S D} {m : DecisionMessage}
      {xs : List (Times × Frame)}
      → Hands p t f e m e'
      → leb_r trusted_min (m.trust ch) ≡ false
      → StaysLow p ch e' xs last
      → StaysLow p ch e ((t, f) ∷ xs) last

-- Parts whose self-heal runtime serves a channel with components that always answer, the default
-- trust threshold, and frames enough for its windows.
pub record IsServing {S D : Type 0} (p : Parts S D) (b : Bundle) : Type 0 where
  pub reliable : IsReliable p.actuator
  pub detector : IsTotalDetector p.detector
  pub self_heal : p.self_heal ≡ some b
  pub total : IsTotal b.settings
  pub threshold : b.settings.trusted_min ≡ trusted_min
  pub some_frame : 1 ≤ p.window_size
  pub enough_frames : b.window_size ≤ p.window_size

-- A state in which the next frame fills every window.
pub record IsFull {S D : Type 0} (p : Parts S D) (buffer : List Frame) (e : Edge S D) : Type 0 where
  pub live : IsLive buffer e
  pub window : e.monitor.preprocessor.window_size ≤ length buffer + 1
  pub recent : p.window_size ≤ length e.recent_frames + 1

module _ {S D : Type 0} (p : Parts S D) (b : Bundle) (serving : IsServing p b) where
  -- The channel is isolated, and its episode has run since a time, or the pump is stopped.
  pub record IsFallen (t₀ : ℕ) (e : Edge S D) : Type 0 where
    pub tracked : e.tracked b.channel ≡ true
    pub waits : (e.healer.episodes b.channel ≡ some t₀) ⊎ IsHeld p.actuator e.supervisor

  -- The round of a frame after which the channel is tracked with a low trust.
  frame-IsServed :
      (t : Times) (trust : TrustMap) (old : ChannelSet) (recent : List Frame)
      → (update old trust).0 b.channel ≡ true
      → leb_r trusted_min (trust b.channel).trust ≡ false
      → p.window_size ≤ length recent
      → IsServed b (round_of p t trust (update old trust).1 recent)
  unfolding update
  frame-IsServed t trust old recent tracked lo enough = record {
    isolated = tracked;
    untrusted =
        subst (λ (x : Ratio). leb_r x (trust b.channel).trust ≡ false) (sym serving.threshold) lo;
    some_frame = omega (arith, enough, serving.some_frame);
    enough_frames = omega (arith, enough, serving.enough_frames);
  }

  -- A served round opens the episode or goes on with it, or requests a stop.
  served_waits :
      (r : Round) (s : Orchestrator)
      → IsServed b r
      → ((substitute b r s).0.episodes b.channel ≡ some (start_of s b.channel r.opened))
        ⊎ (s.safe_stops < (substitute b r s).0.safe_stops)
  served_waits r s h =
      let (k, one, lo, now, opened) = served b r h in
      let open_at : start_of s b.channel k.opened ≡ start_of s b.channel r.opened =
        ap (start_of s b.channel) opened in
      let state = one s in
      elim (opens_or_stops b.settings serving.total b.channel s k lo) [
        | inl e ↦
            inl
              (ap (λ (x : Orchestrator). x.episodes b.channel) state ∙ e ∙ ap (λ n. some n) open_at)
        | inr l ↦ inr (subst (λ (x : Orchestrator). s.safe_stops < x.safe_stops) (sym state) l)
      ]

  -- A frame of a full state is handed on with one window's readings.
  module _ (t : Times) (f : Frame) (e e' : Edge S D) (m : DecisionMessage) (buffer : List Frame)
      (full : IsFull p buffer e) (hands : Hands p t f e m e') where
    pub emission : Emits p t (entered p t f e buffer) e' × IsLive (window_of p f e buffer) e'
    emission =
        let (e1, q, emitted, live) =
          full_frame p serving.detector t f e buffer full.live full.window in
        let same : e1 ≡ e' = some-injective e1 e' (sym q ∙ hands.0) in
        subst (λ x. Emits p t (entered p t f e buffer) x × IsLive (window_of p f e buffer) x) same
          (emitted, live)

    pub still-IsFull : IsFull p (window_of p f e buffer) e'
    unfolding take_frame
    still-IsFull =
        let (emitted, live) = emission in
        let size = ap (λ (x : Edge S D). x.monitor.preprocessor.window_size) emitted.shape in
        let recent = ap (λ (x : Edge S D). length x.recent_frames) emitted.shape in
        record {
          live = live;
          window =
              omega (
                arith,
                size,
                length-newest e.monitor.preprocessor.window_size buffer f,
                full.window,
              );
          recent =
              omega (arith, recent, length-newest p.window_size e.recent_frames f, full.recent);
        }

    pub message_trust : (ch : Channel) → m.trust ch ≡ (emission.0.trust ch).trust
    unfolding build_message take_frame
    message_trust ch =
        ap (λ (x : List DecisionMessage). trust_of_head x ch)
          (sym hands.1 ∙ ap (λ (x : Edge S D). x.decisions) emission.0.shape)
      where
        trust_of_head : List DecisionMessage → Channel → Ratio
        trust_of_head [] ch = frac 0 1
        trust_of_head (x ∷ xs) ch = x.trust ch

    -- The channel's trust in the message is low, and it is tracked after the frame.
    module _ (lo : leb_r trusted_min (m.trust b.channel) ≡ false)
        (tracked : e'.tracked b.channel ≡ true) where
      frame_round : Round
      frame_round =
          let trust = emission.0.trust in
          round_of p t trust (update e.tracked trust).1 (entered p t f e buffer).recent_frames

      healed_by : e'.healer ≡ (substitute b frame_round e.healer).0
      unfolding frame_round take_frame
      healed_by =
          ap (λ (x : Edge S D). x.healer) emission.0.shape
          ∙ with_bundle p.self_heal serving.self_heal
        where
          with_bundle :
              (o : Option Bundle)
              → o ≡ some b
              → healer_after p o t emission.0.trust
                  (update e.tracked emission.0.trust).1
                  (entered p t f e buffer).recent_frames
                  e.healer
                ≡ (substitute b
                    (round_of p t emission.0.trust
                      (update e.tracked emission.0.trust).1
                      (entered p t f e buffer).recent_frames)
                    e.healer).0
          with_bundle o q = rw q refl

      frame_round-IsServed : IsServed b frame_round
      unfolding frame_round take_frame
      frame_round-IsServed =
          let trust = emission.0.trust in
          frame-IsServed t trust e.tracked (entered p t f e buffer).recent_frames
            (sym (ap (λ (x : Edge S D). x.tracked b.channel) emission.0.shape) ∙ tracked)
            (subst (λ (x : Ratio). leb_r trusted_min x ≡ false) (message_trust b.channel) lo)
            (omega (arith, length-newest p.window_size e.recent_frames f, full.recent))

      pub waits_after :
          (e'.healer.episodes b.channel ≡ some (start_of e.healer b.channel t.opened))
          ⊎ IsHeld p.actuator e'.supervisor
      unfolding frame_round
      waits_after = elim (served_waits frame_round e.healer frame_round-IsServed) [
        | inl q ↦ inl (ap (λ (x : Orchestrator). x.episodes b.channel) healed_by ∙ q)
        | inr l ↦ inr (
            frame-IsHeld p serving.reliable t f e e' hands.0 (
              inr (
                subst (λ (x : Orchestrator). e.healer.safe_stops < x.safe_stops) (sym healed_by)
                  l)))
      ]

      pub stops_late :
          (t₀ : ℕ)
          → e.healer.episodes b.channel ≡ some t₀
          → t₀ + b.settings.substitution_max ≤ t.now
          → IsHeld p.actuator e'.supervisor
      unfolding frame_round substitute_all
      stops_late t₀ run late =
          let stop =
            isolated_is_stopped b e.healer [] frame_round t₀ serving.total run tt
              frame_round-IsServed late in
          frame-IsHeld p serving.reliable t f e e' hands.0 (
            inr (
              subst (λ (x : Orchestrator). e.healer.safe_stops < x.safe_stops) (sym healed_by)
                stop))
