-- ===== src/Heal/Orchestrator.antt =====
-- `SelfHealOrchestrator` of edge/pipeline/self_heal.py and the uncertainty proxy of
-- edge/pipeline/uncertainty.py.
use shtapm.Base.{
  ℕ, ◌+◌, ◌-◌, Bool, true, false, Option, none, some, String, leb, min, if◌then◌else◌,
}
use shtapm.Base.Ratio.{Ratio, frac, leb_r, ◌-r◌}
use shtapm.Contracts.{Channel, Channel-discrete, channel_of}
use mathlib.Core.Logic.{ite}

pub data Error : Type 0 where
  unknown_channel missing_raw_value bad_duration component_failed : Error

pub data Result (A : Type 0) : Type 0 where
  ok : A → Result A
  err : Error → Result A

infixl 5 ◌>>=◌
abbrev pub ◌>>=◌ : {A B : Type 0} → Result A → (A → Result B) → Result B
ok a >>= f = f a
err e >>= f = err e

-- `ElapsedTimeUncertaintyProxy.uncertainty`, at times that are not negative.
unfoldable pub uncertainty : (Ratio → Ratio) → ℕ → ℕ → Result Ratio
uncertainty scaling elapsed max =
    if leb max 0 then err bad_duration else ok (scaling (frac (min elapsed max) max))

-- `linear_scaling`.
abbrev pub linear_scaling : Ratio → Ratio
linear_scaling x = x

pub data EscalationReason : Type 0 where
  divergence_exceeded substitution_expired : EscalationReason

-- `SelfHealAlert`: its message and its reason are constants.
pub record SelfHealAlert : Type 0 where
  pub channel : Channel

pub record SelfHealOutcome : Type 0 where
  pub channel : Channel
  pub substituted : Bool
  pub reconstructed_value : Option Ratio
  pub divergence : Option Ratio
  pub uncertainty : Option Ratio
  pub escalated : Bool
  pub escalation_reason : Option EscalationReason
  pub alert : Option SelfHealAlert
  pub observed_value : Option Ratio
  pub raw_value : Ratio

-- What the constructor is given; a threshold of `none` is `math.inf`.
pub record Settings (W : Type 0) : Type 0 where
  pub reconstruct : W → Channel → Result Ratio
  pub newest_feature : W → Channel → Ratio
  pub score : Channel → Ratio → Result Ratio
  pub proxy : ℕ → ℕ → Result Ratio
  pub divergence_threshold : Option Ratio
  pub uncertainty_cap : Ratio
  pub substitution_max : ℕ
  pub trusted_min : Ratio

-- The open episodes, each with its start time, and how often `safe_stop` was called.
pub record Orchestrator : Type 0 where
  pub episodes : Channel → Option ℕ
  pub safe_stops : ℕ

-- `SelfHealOrchestrator.__init__`.
unfoldable pub new_orchestrator : {W : Type 0} → Settings W → Result Orchestrator
new_orchestrator c =
    if leb c.substitution_max 0
    then err bad_duration
    else ok (record { episodes = λ ch. none; safe_stops = 0 })

abbrev pub put_episode : Channel → Option ℕ → Orchestrator → Orchestrator
put_episode ch e s = record s { episodes = λ x. ite (Channel-discrete x ch) e (s.episodes x) }

unfoldable pub end_episode : Orchestrator → Channel → Orchestrator
end_episode s ch = put_episode ch none s

abbrev reaches : Ratio → Option Ratio → Bool
reaches x none = false
reaches x (some t) = leb_r t x

-- The three signals of one cycle.
pub record Signals : Type 0 where
  pub reconstructed : Ratio
  pub observed : Ratio
  pub divergence : Ratio
  pub elapsed : ℕ
  pub uncertainty : Ratio

module _ {W : Type 0} (c : Settings W) where
  unfoldable pub signals : Channel → W → ℕ → ℕ → Result Signals
  signals ch window start now = do
    reconstructed ← c.reconstruct window ch
    let observed = c.newest_feature window ch
    divergence ← c.score ch (reconstructed -r observed)
    let elapsed = now - start
    u ← c.proxy elapsed c.substitution_max
    ok (record {
      reconstructed = reconstructed;
      observed = observed;
      divergence = divergence;
      elapsed = elapsed;
      uncertainty = u;
    })

  -- The outcome of a cycle that computed its signals.
  unfoldable pub report :
      Channel → Signals → Ratio → Bool → Option EscalationReason → SelfHealOutcome
  report ch g raw substituted reason = record {
    channel = ch;
    substituted = substituted;
    reconstructed_value = some g.reconstructed;
    divergence = some g.divergence;
    uncertainty = some g.uncertainty;
    escalated = elim reason [ none ↦ false | some r ↦ true ];
    escalation_reason = reason;
    alert = if leb_r c.uncertainty_cap g.uncertainty then some (record { channel = ch }) else none;
    observed_value = some g.observed;
    raw_value = raw;
  }

  abbrev escalate : Orchestrator → Channel → Orchestrator
  escalate s ch = let s' = put_episode ch none s in record s' { safe_stops = s'.safe_stops + 1 }

  -- The comparisons behind the three signals.
  unfoldable pub judge : Orchestrator → Channel → Signals → Ratio → Orchestrator × SelfHealOutcome
  unfolding report
  judge s ch g raw =
      if reaches g.divergence c.divergence_threshold
      then (escalate s ch, report ch g raw false (some divergence_exceeded))
      else if leb c.substitution_max g.elapsed
      then (escalate s ch, report ch g raw false (some substitution_expired))
      else (s, report ch g raw true none)

  -- `process_isolated_channel` of a known channel; the clock reads `opened` where an episode may
  -- start, and `now` where the elapsed time is taken.
  unfoldable pub process_known :
      Orchestrator → Channel → W → Ratio → Ratio → ℕ → ℕ → Orchestrator × Result SelfHealOutcome
  unfolding judge end_episode
  process_known s ch window raw trust opened now =
      if leb_r c.trusted_min trust
      then (
        end_episode s ch,
        ok (record {
          channel = ch;
          substituted = false;
          reconstructed_value = none;
          divergence = none;
          uncertainty = none;
          escalated = false;
          escalation_reason = none;
          alert = none;
          observed_value = none;
          raw_value = raw;
        }),
      )
      else let start : ℕ = elim (s.episodes ch) [ none ↦ opened | some t ↦ t ] in
        let s' = put_episode ch (some start) s in
        elim (signals ch window start now) [
          | err e ↦ (s', err e)
          | ok g ↦ let (s'', outcome) = judge s' ch g raw in (s'', ok outcome)
        ]

  unfoldable pub process_isolated_channel :
      Orchestrator → String → W → Ratio → Ratio → ℕ → ℕ → Orchestrator × Result SelfHealOutcome
  unfolding process_known
  process_isolated_channel s name window raw trust opened now = elim (channel_of name) [
    | none ↦ (s, err unknown_channel)
    | some ch ↦ process_known s ch window raw trust opened now
  ]
