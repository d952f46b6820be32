-- ===== src/Heal/Serving.antt =====
-- When the runtime of edge/pipeline/self_heal_runtime.py requests a safe stop.
use shtapm.Base.{
  ℕ, ◌-◌, ◌<◌, ◌≡◌, refl, ◌∙◌, ap, true, false, ◌⊎◌, inl, inr, none, some, String, str_eq, eq_iff,
  [], ◌∷◌, arith, Bool-cases, Option-cases, leb,
}
use shtapm.Base.Ratio.{Ratio, leb_r}
use shtapm.Contracts.{
  Channel, channel_of, channel_name, temperature, vibration, pressure, humidity, gas, current,
}
use shtapm.Acquisition.Sampler.{Frame}
use shtapm.Heal.Orchestrator.{
  Error, Result, ok, err, Settings, Orchestrator, Signals, signals, SelfHealOutcome, judge,
  put_episode, end_episode, process_known, process_isolated_channel,
}
use shtapm.Heal.Cycle.{
  Turn, Dict, Outcomes, no_outcomes, after_call, missing, validate, act, process_isolated_channels,
}
use shtapm.Heal.Expiry.{start_of}
use shtapm.Heal.Runtime.{
  Bundle, Round, Features, scaled_window, last_frame, trust_of_name, raw_of_name, reports_of,
  heal_target, substitute,
}

pub channel_of-channel_name : (ch : Channel) → channel_of (channel_name ch) ≡ some ch
unfolding channel_of
channel_of-channel_name temperature = refl
channel_of-channel_name vibration = refl
channel_of-channel_name pressure = refl
channel_of-channel_name humidity = refl
channel_of-channel_name gas = refl
channel_of-channel_name current = refl

-- A call whose loop has nothing left leaves the state of the call.
after_last :
    (call : Orchestrator × Result SelfHealOutcome) (name : String) (done : Outcomes)
    → (after_call call name (λ s d. (s, ok d)) done).0 ≡ call.0
after_last (s, err e) name done = refl
after_last (s, ok o) name done = refl

pub named_call :
    {W : Type 0} (c : Settings W) (s : Orchestrator) (name : String) (w : W) (raw trust : Ratio)
    (opened now : ℕ) (ch : Channel)
    → channel_of name ≡ some ch
    → process_isolated_channel c s name w raw trust opened now
      ≡ process_known c s ch w raw trust opened now
unfolding process_isolated_channel
named_call c s name w raw trust opened now ch e = rw (process_isolated_channel, e) refl

-- A cycle of one named channel is that channel's call.
one_turn :
    {W : Type 0} (c : Settings W) (trust raw : Dict) (w : W) (s : Orchestrator) (t : Turn)
    (ch : Channel) (score reading : Ratio)
    → channel_of t.name ≡ some ch
    → trust t.name ≡ some score
    → raw t.name ≡ some reading
    → (process_isolated_channels c trust raw w s (t ∷ [])).0
      ≡ (process_known c s ch w reading score t.opened t.now).0
unfolding process_isolated_channels validate missing act
one_turn c trust raw w s t ch score reading e a b =
    rw (process_isolated_channels, validate, missing, a, b, act, a, b)
      (after_last (process_isolated_channel c s t.name w reading score t.opened t.now) t.name
          no_outcomes
        ∙ ap (λ (x : Orchestrator × Result SelfHealOutcome). x.0)
            (named_call c s t.name w reading score t.opened t.now ch e))

pub Result-cases :
    {A : Type 0} (r : Result A) → ((e : Error) × (r ≡ err e)) ⊎ ((a : A) × (r ≡ ok a))
Result-cases (err e) = inl (e, refl)
Result-cases (ok a) = inr (a, refl)

-- The elapsed time of the signals is the time since the start.
elapsed_of :
    {W : Type 0} (c : Settings W) (ch : Channel) (w : W) (start now : ℕ) (g : Signals)
    → signals c ch w start now ≡ ok g
    → g.elapsed ≡ now - start
unfolding signals
elapsed_of c ch w start now g e = ground arith

-- When one cycle may request a stop.
judge_stops :
    {W : Type 0} (c : Settings W) (s : Orchestrator) (ch : Channel) (g : Signals) (raw : Ratio)
    → c.divergence_threshold ≡ none
    → g.elapsed < c.substitution_max
    → (judge c s ch g raw).0.safe_stops ≡ s.safe_stops
unfolding judge
judge_stops c s ch g raw off early =
    let late : leb c.substitution_max g.elapsed ≡ false = ground arith in rw (judge, off, late) refl

process_known_stops :
    {W : Type 0} (c : Settings W) (s : Orchestrator) (ch : Channel) (w : W) (raw trust : Ratio)
    (opened now : ℕ)
    → c.divergence_threshold ≡ none
    → now - start_of s ch opened < c.substitution_max
    → (process_known c s ch w raw trust opened now).0.safe_stops ≡ s.safe_stops
unfolding process_known end_episode
process_known_stops c s ch w raw trust opened now off early =
    elim (Bool-cases (leb_r c.trusted_min trust)) [
      | inl up ↦ rw (process_known, up) refl
      | inr low ↦ elim (Result-cases (signals c ch w (start_of s ch opened) now)) [
        | inl (e, q) ↦ rw (process_known, low, q) refl
        | inr (g, q) ↦
            rw (process_known, low, q)
              (judge_stops c (put_episode ch (some (start_of s ch opened)) s) ch g raw off
                (omega (arith, elapsed_of c ch w (start_of s ch opened) now g q, early)))
      ]
    ]

reports_of-state : (b : Bundle) (x : Orchestrator × Result Outcomes) → (reports_of b x).0 ≡ x.0
reports_of-state b (s, err e) = refl
reports_of-state b (s, ok o) = refl

pub healed :
    (b : Bundle) (r : Round) (s : Orchestrator) (w : Features) (f : Frame)
    → (heal_target b r w (some f) s).0
      ≡ (process_known b.settings s b.channel w
          (f.values b.channel)
          (r.trust b.channel)
          r.opened
          r.now).0
unfolding heal_target
healed b r s w f =
    let name = channel_of-channel_name b.channel in
    let same : str_eq (channel_name b.channel) (channel_name b.channel) ≡ true =
      (eq_iff (channel_name b.channel) (channel_name b.channel)).1 refl in
    reports_of-state b _
    ∙ one_turn b.settings (trust_of_name r.trust) (raw_of_name b.channel f) w s
        (record { name = channel_name b.channel; opened = r.opened; now = r.now }) b.channel
        (r.trust b.channel) (f.values b.channel) name (rw (trust_of_name, name) refl)
        (rw (raw_of_name, same) refl)

-- The runtime requests a safe stop for no other reason than the limit: while the episode of its
-- channel has lasted less than the limit, no call does, whatever is isolated, however far the twin
-- is from the reading, and whether or not a part raises.
pub substitute_stops :
    (b : Bundle) (r : Round) (s : Orchestrator)
    → b.settings.divergence_threshold ≡ none
    → r.now - start_of s b.channel r.opened < b.settings.substitution_max
    → (substitute b r s).0.safe_stops ≡ s.safe_stops
unfolding substitute end_episode heal_target
substitute_stops b r s off early = elim (Bool-cases (r.isolated b.channel)) [
  | inr e ↦ rw (substitute, e) refl
  | inl e ↦ elim (Option-cases (scaled_window b r.frames)) [
    | inl n ↦ rw (substitute, e, n) refl
    | inr (w, q) ↦ elim (Option-cases (last_frame r.frames)) [
      | inl n ↦ rw (substitute, e, q, heal_target, n) refl
      | inr (f, l) ↦
          rw (substitute, e, q, heal_target, l)
            (ap (λ (o : Orchestrator). o.safe_stops) (healed b r s w f)
              ∙ process_known_stops b.settings s b.channel w (f.values b.channel)
                  (r.trust b.channel) r.opened r.now off early)
    ]
  ]
]
