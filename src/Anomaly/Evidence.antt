-- ===== src/Anomaly/Evidence.antt =====
-- What a window of edge/anomaly/pipeline.py does to each channel, with physics flags on.
use shtapm.Base.{◌≡◌, ◌↔◌, refl, ◌∙◌, ap, Bool, true, not, none, some, arith, if◌then◌else◌}
use shtapm.Contracts.{Channel, ChannelSet, nothing, fault, attack}
use shtapm.Trust.Beta.{decay}
use shtapm.Trust.Detection.{IsUnit}
use shtapm.Trust.Engine.{Provider, reading_of}
use shtapm.Trust.Readings.{Signals, AllUnit, evidence, update_from_providers_lem}
use shtapm.Trust.Reliability.{average-IsUnit}
use shtapm.Anomaly.Physics.{
  Rule, RawWindow, PhysicsCheck, consistent, observe_raw_window, check_physics, check_window,
}
use shtapm.Anomaly.Attribution.{attribute, attribute_channel, record_k, k_of, blames}
use shtapm.Anomaly.Pipeline.{
  Pipeline, WindowOutcome, join_flags, record_outcomes, attribute_window, judge_window,
  process_window,
}
use shtapm.Anomaly.Glitch.{AreFractions, IsBand, Agree, check_window-Agree}

-- The checks that the two rules make of the window.
abbrev pub verdict : RawWindow → Rule → PhysicsCheck
verdict w r = check_window (observe_raw_window w r) w

observed_check :
    (r : Rule) (w : RawWindow)
    → r.fitted ≡ true
    → check_physics (observe_raw_window w r)
      ≡ some (record (observe_raw_window w r) { raw = none }, verdict w r)
unfolding check_physics observe_raw_window
observed_check r w f = rw f refl

k_of-IsUnit : (check : PhysicsCheck) (ch : Channel) → IsUnit (k_of check ch)
unfolding k_of
k_of-IsUnit check ch = ground arith

if-holds : {A : Type 0} {b : Bool} {x : A} (y : A) → b ≡ true → (if b then x else y) ≡ x
if-holds y e = rw e refl

-- The flags, the signals, the next state and the outcome of a window.
module _ (p : Pipeline) (flags : ChannelSet) (c : Provider) (w : RawWindow) where
  abbrev pub joined : ChannelSet
  joined = join_flags flags (some (verdict w p.rule))

  abbrev pub signals : Signals
  signals = record { c = c; k = k_of (verdict w p.k_rule); h = record_outcomes joined p.histories }

  abbrev pub next_pipeline : Pipeline
  next_pipeline = record p {
    k_rule = record (observe_raw_window w p.k_rule) { raw = none };
    rule = record (observe_raw_window w p.rule) { raw = none };
    histories = record_outcomes joined p.histories;
    engine = λ ch. decay (p.engine ch) (evidence signals ch);
  }

  abbrev pub outcome : WindowOutcome
  outcome = record {
    channel_flags = joined;
    trust =
        λ ch. some (reading_of (evidence signals ch) (decay (p.engine ch) (evidence signals ch)));
    attribution = λ ch. attribute_channel (some (verdict w p.rule)) (joined ch) ch;
  }

-- A pipeline whose rules are fitted, whose reliabilities are in [0, 1] and that joins the physics
-- to the flags.
pub record IsReady (p : Pipeline) : Type 0 where
  pub physics_flags : p.physics_flags ≡ true
  pub rule : p.rule.fitted ≡ true
  pub k_rule : p.k_rule.fitted ≡ true
  pub histories : (ch : Channel) → IsUnit (p.histories ch)

module _ (p : Pipeline) (flags : ChannelSet) (c : Provider) (w : RawWindow) (ready : IsReady p)
    (unit : (ch : Channel) → IsUnit (c ch)) where
  signals-AllUnit : AllUnit (signals p flags c w)
  signals-AllUnit ch = (
    unit ch,
    k_of-IsUnit (verdict w p.k_rule) ch,
    average-IsUnit (p.histories ch) (not (joined p flags c w ch)) (ready.histories ch),
  )

  recorded_k :
      record_k (observe_raw_window w p.k_rule)
      ≡ some (record (observe_raw_window w p.k_rule) { raw = none }, k_of (verdict w p.k_rule))
  unfolding record_k
  recorded_k = rw (observed_check p.k_rule w ready.k_rule, record_k) refl

  judged :
      judge_window flags c (k_of (verdict w p.k_rule)) (some (verdict w p.rule)) (record p {
        k_rule = record (observe_raw_window w p.k_rule) { raw = none };
        rule = record (observe_raw_window w p.rule) { raw = none };
      })
      ≡ some (next_pipeline p flags c w, outcome p flags c w)
  unfolding judge_window attribute_window attribute
  judged =
      ap
        (attribute_window (joined p flags c w) (some (verdict w p.rule))
          (record_outcomes (joined p flags c w) p.histories)
          (record p {
            k_rule = record (observe_raw_window w p.k_rule) { raw = none };
            rule = record (observe_raw_window w p.rule) { raw = none };
          }))
        (update_from_providers_lem (signals p flags c w) signals-AllUnit p.engine)

  -- A window whose c values are in [0, 1] is processed without an exception by a ready pipeline:
  -- the suspect of the physics joins the flags, each channel's reliability records whether it is
  -- flagged, its reputation takes the evidence of the three signals, and its attribution follows
  -- from its flag and the physics.
  pub process_window_lem :
      process_window flags c w p ≡ some (next_pipeline p flags c w, outcome p flags c w)
  unfolding process_window
  process_window_lem =
      rw (recorded_k, observed_check p.rule w ready.rule, process_window)
        (if-holds _ ready.physics_flags ∙ judged)

  -- In such a window a channel is attributed an attack exactly if the rule blames it, and then it
  -- is flagged and its reliability counts the window as unhealthy.
  pub attack_iff_blamed :
      (ch : Channel)
      → (((outcome p flags c w).attribution ch).attribution ≡ attack)
        ↔ (blames (some (verdict w p.rule)) ch ≡ true)
  unfolding attribute_channel
  attack_iff_blamed ch = ground arith

consistent-verdict :
    (p : Pipeline) (w : RawWindow)
    → AreFractions w
    → IsBand p.rule.current_bands
    → IsBand p.rule.vibration_bands
    → Agree p.rule w
    → verdict w p.rule ≡ consistent
unfolding observe_raw_window
consistent-verdict p w f bc bv a = check_window-Agree (observe_raw_window w p.rule) w f bc bv a

-- A glitch is no attack: in a window whose c values are in [0, 1] and of which more than half of the
-- samples of current and vibration tell one state of the motor, whatever the others are, a ready
-- pipeline keeps the detector's flags as they are, and attributes a fault to each flagged channel
-- and nothing to the others.
pub glitch_is_no_attack :
    (p : Pipeline) (flags : ChannelSet) (c : Provider) (w : RawWindow)
    → IsReady p
    → ((ch : Channel) → IsUnit (c ch))
    → AreFractions w
    → IsBand p.rule.current_bands
    → IsBand p.rule.vibration_bands
    → Agree p.rule w
    → (next : Pipeline) × (out : WindowOutcome) × (process_window flags c w p ≡ some (next, out))
      × ((ch : Channel)
          → (out.channel_flags ch ≡ flags ch)
            × ((out.attribution ch).attribution ≡ (if flags ch then fault else nothing)))
unfolding attribute_channel
glitch_is_no_attack p flags c w ready unit f bc bv a =
    let quiet = consistent-verdict p w f bc bv a in
    (
      next_pipeline p flags c w,
      outcome p flags c w,
      process_window_lem p flags c w ready unit,
      λ ch. (rw quiet (ground arith), rw quiet (ground arith)),
    )
