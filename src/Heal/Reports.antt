-- ===== src/Heal/Reports.antt =====
-- What the runtime of edge/pipeline/self_heal_runtime.py reports.
use shtapm.Base.{
  ℕ, ◌≡◌, refl, ap, sym, subst, ◌⊎◌, true, inl, inr, some, List, String, str_eq, eq_iff, [], ◌∷◌,
  arith, All, Bool-cases, Option-cases,
}
use shtapm.Base.Ratio.{Ratio, leb_r}
use shtapm.Contracts.{Channel, channel_of, channel_name}
use shtapm.Acquisition.Sampler.{Frame}
use shtapm.Heal.Orchestrator.{
  Result, ok, err, Settings, Orchestrator, Signals, signals, SelfHealOutcome, judge, report,
  put_episode, process_known,
}
use shtapm.Heal.Cycle.{
  Turn, Dict, no_outcomes, after_call, missing, validate, act, process_isolated_channels,
}
use shtapm.Heal.Expiry.{start_of}
use shtapm.Heal.Runtime.{
  Bundle, Round, Features, SubstitutionReport, scaled_window, last_frame, trust_of_name,
  raw_of_name, to_report, one_report, reports_of, heal_target, substitute,
}
use shtapm.Heal.Serving.{channel_of-channel_name, named_call, Result-cases}

-- An outcome, if there is one, is about a channel.
abbrev IsAbout : Channel → Orchestrator × Result SelfHealOutcome → Type 0
IsAbout ch (s, err e) = Unit
IsAbout ch (s, ok o) = o.channel ≡ ch

judge-channel :
    {W : Type 0} (c : Settings W) (s : Orchestrator) (ch : Channel) (g : Signals) (raw : Ratio)
    → (judge c s ch g raw).1.channel ≡ ch
unfolding judge report
judge-channel c s ch g raw = ground arith

process_known-IsAbout :
    {W : Type 0} (c : Settings W) (s : Orchestrator) (ch : Channel) (w : W) (raw trust : Ratio)
    (opened now : ℕ)
    → IsAbout ch (process_known c s ch w raw trust opened now)
unfolding process_known
process_known-IsAbout c s ch w raw trust opened now =
    elim (Bool-cases (leb_r c.trusted_min trust)) [
      | inl up ↦ rw (process_known, up) refl
      | inr low ↦ elim (Result-cases (signals c ch w (start_of s ch opened) now)) [
        | inl (e, q) ↦ rw (process_known, low, q) tt
        | inr (g, q) ↦
            rw (process_known, low, q)
              (judge-channel c (put_episode ch (some (start_of s ch opened)) s) ch g raw)
      ]
    ]

-- A cycle of one named channel is that channel's call.
one_call :
    {W : Type 0} (c : Settings W) (trust raw : Dict) (w : W) (s : Orchestrator) (t : Turn)
    (ch : Channel) (score reading : Ratio)
    → channel_of t.name ≡ some ch
    → trust t.name ≡ some score
    → raw t.name ≡ some reading
    → process_isolated_channels c trust raw w s (t ∷ [])
      ≡ after_call
          (process_known c s ch w reading score t.opened t.now)
          t.name
          (λ s d. (s, ok d))
          no_outcomes
unfolding process_isolated_channels validate missing act
one_call c trust raw w s t ch score reading e a b =
    rw (process_isolated_channels, validate, missing, a, b, act, a, b)
      (ap (λ x. after_call x t.name (λ s d. (s, ok d)) no_outcomes)
        (named_call c s t.name w reading score t.opened t.now ch e))

-- The reports are about a channel.
abbrev pub AllAbout : Channel → List SubstitutionReport → Type 0
AllAbout ch rs = All (λ (r : SubstitutionReport). r.channel ≡ ch) rs

one_report-AllAbout :
    (b : Bundle) (o : SelfHealOutcome) → AllAbout o.channel (one_report b (some o))
unfolding to_report
one_report-AllAbout b o = elim (Bool-cases o.substituted) [
  | inr e ↦ rw (to_report, e) tt
  | inl e ↦ elim (Option-cases o.reconstructed_value) [
    | inl n ↦ rw (to_report, e, n) tt
    | inr (v, q) ↦ rw (to_report, e, q) (refl, tt)
  ]
]

same_name : (name : String) → str_eq name name ≡ true
same_name name = (eq_iff name name).1 refl

called-AllAbout :
    (b : Bundle) (call : Orchestrator × Result SelfHealOutcome)
    → IsAbout b.channel call
    → AllAbout b.channel
        (reports_of b (after_call call (channel_name b.channel) (λ s d. (s, ok d)) no_outcomes)).1
called-AllAbout b (s, err e) h = tt
called-AllAbout b (s, ok o) h =
    rw (same_name (channel_name b.channel))
      (subst (λ ch. AllAbout ch (one_report b (some o))) h (one_report-AllAbout b o))

heal_target-AllAbout :
    (b : Bundle) (r : Round) (s : Orchestrator) (w : Features) (f : Frame)
    → AllAbout b.channel (heal_target b r w (some f) s).1
unfolding heal_target
heal_target-AllAbout b r s w f =
    let name = channel_of-channel_name b.channel in
    subst (λ x. AllAbout b.channel (reports_of b x).1)
      (sym (
        one_call b.settings (trust_of_name r.trust) (raw_of_name b.channel f) w s
          (record { name = channel_name b.channel; opened = r.opened; now = r.now }) b.channel
          (r.trust b.channel) (f.values b.channel) name (rw (trust_of_name, name) refl)
          (rw (raw_of_name, same_name (channel_name b.channel)) refl)))
      (called-AllAbout b
        (process_known b.settings s b.channel w (f.values b.channel) (r.trust b.channel) r.opened
          r.now)
        (process_known-IsAbout b.settings s b.channel w (f.values b.channel) (r.trust b.channel)
          r.opened r.now))

-- The runtime reports on no channel but its bundle's, and on that only while it is isolated.
pub substitute-AllAbout :
    (b : Bundle) (r : Round) (s : Orchestrator)
    → ((substitute b r s).1 ≡ [])
      ⊎ ((r.isolated b.channel ≡ true) × AllAbout b.channel (substitute b r s).1)
unfolding substitute heal_target
substitute-AllAbout b r s = elim (Bool-cases (r.isolated b.channel)) [
  | inr e ↦ inl (rw (substitute, e) refl)
  | inl e ↦ elim (Option-cases (scaled_window b r.frames)) [
    | inl n ↦ inl (rw (substitute, e, n) refl)
    | inr (w, q) ↦ elim (Option-cases (last_frame r.frames)) [
      | inl n ↦ inl (rw (substitute, e, q, heal_target, n) refl)
      | inr (f, l) ↦ inr (e, rw (substitute, e, q, l) (heal_target-AllAbout b r s w f))
    ]
  ]
]
