-- ===== src/Heal/Examples.antt =====
-- The self-heal cycle of edge/pipeline/ on concrete channels, with a twin that answers 1/2.
use shtapm.Base.{
  ℕ, ◌<◌, ◌≡◌, refl, true, [], ◌∷◌, ◌++◌, arith, min, none, some, String, str_eq, if◌then◌else◌,
}
use shtapm.Base.Ratio.{frac, ◌-r◌}
use shtapm.Contracts.{current, channel_of}
use shtapm.Heal.Orchestrator.{
  Error, ok, err, Settings, Orchestrator, SelfHealOutcome, Signals, signals, report, process_known,
  process_isolated_channel, unknown_channel, uncertainty, linear_scaling, judge,
}
use shtapm.Heal.Cycle.{Turn, Dict, Outcomes, process_isolated_channels, missing}
use shtapm.Heal.Validation.{invalid_name_changes_nothing}
use shtapm.Heal.Budget.{IsTotal}
use shtapm.Heal.Runtime.{Bundle, Round, substitute, substitute_all}
use shtapm.Heal.Serving.{substitute_stops}
use shtapm.Heal.Limit.{IsServed, isolated_is_stopped}
use shtapm.Acquisition.Sampler.{Frame}

abbrev settings : Settings (Unit {0})
settings = record {
  reconstruct = λ w ch. ok (frac 1 2);
  newest_feature = λ w ch. frac 1 4;
  score = λ ch x. ok x;
  proxy = uncertainty linear_scaling;
  divergence_threshold = none;
  uncertainty_cap = frac 8 10;
  substitution_max = 60000;
  trusted_min = frac 7 10;
}

-- `current` is substituted since the clock read 1000.
abbrev substituting : Orchestrator
substituting = record {
  episodes = λ ch. elim ch [ current ↦ some 1000 | _ ↦ none ];
  safe_stops = 0;
}

-- A bundle for `current` over windows of one frame, whose twin answers 1/2.
abbrev bundle : Bundle
bundle = record {
  channel = current;
  fitted = λ ch. true;
  normalize = λ ch v. v;
  denormalize = λ ch v. v;
  window_size = 1;
  settings = record {
    reconstruct = λ w ch. ok (frac 1 2);
    newest_feature = λ w ch. frac 1 4;
    score = λ ch x. ok x;
    proxy = uncertainty linear_scaling;
    divergence_threshold = none;
    uncertainty_cap = frac 8 10;
    substitution_max = 60000;
    trusted_min = frac 7 10;
  };
}

bundle-IsTotal : IsTotal bundle.settings
unfolding uncertainty
bundle-IsTotal = record {
  rebuild = λ w ch. frac 1 2;
  rebuilds = λ w ch. refl;
  distance = λ ch x. x;
  scores = λ ch x. refl;
  doubt = λ elapsed. frac (min elapsed 60000) 60000;
  doubts = λ elapsed. refl;
}

abbrev a_frame : Frame
a_frame = record { device_id = "d"; ts = "t"; values = λ ch. frac 1 1; sample_seq = 1 }

-- A round in which every channel is isolated.
abbrev round_at : ℕ → Round
round_at n = record {
  trust = λ ch. frac 3 10;
  isolated = λ ch. true;
  frames = a_frame ∷ [];
  opened = n;
  now = n;
}

round_at-IsServed : (n : ℕ) → IsServed bundle (round_at n)
round_at-IsServed n = record {
  isolated = refl;
  untrusted = refl;
  some_frame = omega arith;
  enough_frames = omega arith;
}

isolated_is_stopped_example :
    0
    < (substitute bundle
        (round_at 61000)
        (substitute_all bundle (round_at 2000 ∷ round_at 30000 ∷ []) substituting)).0.safe_stops
isolated_is_stopped_example =
    isolated_is_stopped bundle substituting (round_at 2000 ∷ round_at 30000 ∷ []) (round_at 61000)
      1000 bundle-IsTotal refl (round_at-IsServed 2000, (round_at-IsServed 30000, tt))
      (round_at-IsServed 61000) (omega arith)

substitute_stops_example : (substitute bundle (round_at 2000) substituting).0.safe_stops ≡ 0
substitute_stops_example = substitute_stops bundle (round_at 2000) substituting refl (omega arith)

abbrev late_signals : Signals
late_signals = record {
  reconstructed = frac 1 2;
  observed = frac 1 4;
  divergence = frac 2 8;
  elapsed = 50000;
  uncertainty = frac 50000 60000;
}

abbrev first_report : SelfHealOutcome
first_report =
    report settings current (record late_signals { elapsed = 1000; uncertainty = frac 1000 60000 })
      (frac 1 1) true none

abbrev trusts : Dict
trusts name = elim (channel_of name) [ none ↦ none | some ch ↦ some (frac 3 10) ]

abbrev turn : String → Turn
turn name = record { name = name; opened = 2000; now = 2000 }

invalid_name_changes_nothing_example :
    (e' : Error) × (process_isolated_channels settings trusts trusts tt substituting
        ((turn "gas" ∷ []) ++ turn "pump" ∷ turn "current" ∷ [])
      ≡ (substituting, err e'))
unfolding missing channel_of
invalid_name_changes_nothing_example =
    invalid_name_changes_nothing settings trusts trusts tt substituting (turn "gas" ∷ [])
      (turn "current" ∷ []) (turn "pump") unknown_channel refl

-- The outcomes of a call for `current` alone.
current_outcomes : Outcomes
current_outcomes name =
    if str_eq name "current" then some (record first_report { raw_value = frac 3 10 }) else none

returned :
    (process_isolated_channels settings trusts trusts tt substituting (turn "current" ∷ [])).1
    ≡ ok current_outcomes
unfolding process_isolated_channels missing channel_of current_outcomes process_isolated_channel
    process_known judge signals uncertainty report ◌-r◌
returned = refl
