-- ===== src/Rl/EpisodeExamples.antt =====
-- An episode of edge/rl/environment.py over four frames, whose channels are all malicious.
use shtapm.Base.{ℕ, suc, ◌≡◌, refl, true, false, Option, none, some, List, [], ◌∷◌}
use shtapm.Base.Ratio.{frac}
use shtapm.Contracts.{vibration, continues, channel_of, members}
use shtapm.Trust.Bands.{classify}
use shtapm.Isolation.{TrustMap, no_channels, decide_isolation, update}
use shtapm.Acquisition.Sampler.{Frame}
use shtapm.Rl.State.{
  RlState, lookup, any_unknown, in_unit, bad_value, new_state_of_trust, new_state, build_rl_state,
}
use shtapm.Rl.Gate.{
  request, evaluate_rl_action, check_request, check_confidence, fallback, decided,
  deterministic_fallback_action,
}
use shtapm.Rl.Reward.{compute_reward}
use shtapm.Rl.Environment.{
  Observation, Setting, Environment, Call, StepResult, new_environment, update_held_values,
  substituted_frame, feed_first, feed_next_frame, build_state, warm_up, reset, track, gate, transit,
  conclude, step_running, step,
}
use shtapm.Rl.Freezing.{run, StaysTracked, frozen_value_is_shown}

abbrev frame_at : ℕ → Frame
frame_at n = record { device_id = "pump"; ts = "t"; values = λ ch. frac n 10; sample_seq = n }

abbrev low_trust : TrustMap
low_trust ch = record { g = frac 1 2; trust = frac 3 10; band = classify (frac 3 10) }

abbrev setting : Setting ℕ
setting = record {
  on_frame = λ frame n. some (suc n, record { flag = true; trust = low_trust; raw = frame } ∷ []);
  health = λ n. some (frac 9 10);
  prognosis = none;
  confidence_threshold = frac 8 10;
  reward_weights = none;
}

abbrev state : RlState
state = record {
  health = some (frac 9 10);
  anomaly_flag = true;
  trust = λ ch. frac 3 10;
  failure_eta = none;
}

-- The policy is not validated, so the gate falls back.
abbrev call : Call
call = record {
  action = request continues;
  policy_available = true;
  policy_validated = false;
  confidence = none;
}

abbrev episode : List Frame
episode = frame_at 1 ∷ frame_at 2 ∷ frame_at 3 ∷ frame_at 4 ∷ []

abbrev or_env : Environment ℕ → Option (Environment ℕ) → Environment ℕ
or_env e none = e
or_env e (some e') = e'

abbrev blank : Environment ℕ
blank = record {
  remaining = [];
  monitor = 0;
  latest = none;
  tracked = no_channels;
  held = λ ch. none;
  has_reset = false;
  done = false;
  last_state = none;
}

abbrev fresh : Environment ℕ
fresh = record blank { remaining = episode }

abbrev or_reset : Option (Environment ℕ × RlState) → Environment ℕ × RlState
or_reset none = (blank, state)
or_reset (some r) = r

abbrev or_step : Option (Environment ℕ × StepResult) → Environment ℕ × StepResult
or_step none =
    let d = gate setting call state (update no_channels low_trust).1 in
    (
      blank,
      record {
        state = state;
        reward = compute_reward none d none none;
        done = true;
        gate_decision = d;
        sample_seq = 0;
        isolation_status = (update no_channels low_trust).1;
        trajectory_exhausted = true;
        transition_consumed = false;
        substituted_channels = no_channels;
      },
    )
or_step (some r) = r

warm : Environment ℕ × RlState
warm = or_reset (reset setting fresh)

first : Environment ℕ × StepResult
first = or_step (step setting call warm.0)

second : Environment ℕ × StepResult
second = or_step (step setting call first.0)

third : Environment ℕ × StepResult
third = or_step (step setting call second.0)

-- The third step feeds the fourth frame with the value of the first.
frozen_value_is_shown_example :
    (o : Observation) × (frame fed : Frame) × (seen : List Observation) × (warm.0.latest ≡ some o)
    × (second.0.remaining ≡ frame ∷ third.0.remaining)
    × (setting.on_frame fed second.0.monitor ≡ some (third.0.monitor, seen))
    × (fed.values vibration ≡ o.raw.values vibration)
unfolding warm first second third new_environment update_held_values substituted_frame feed_first
    feed_next_frame build_state warm_up reset track gate transit conclude step_running step run
    StaysTracked update decide_isolation classify lookup any_unknown in_unit bad_value
    new_state_of_trust new_state build_rl_state evaluate_rl_action check_request check_confidence
    fallback decided deterministic_fallback_action channel_of members
frozen_value_is_shown_example =
    frozen_value_is_shown setting episode 2 0 fresh warm.0 warm.0 first.0 second.0 third.0 warm.1 []
      (call ∷ []) call call first.1 third.1 vibration refl refl refl refl refl refl
      (second.0, second.1, refl, refl, refl) refl refl refl
