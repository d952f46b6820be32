-- ===== src/Edge/WiringExamples.antt =====
-- The handler of edge/main.py on concrete frames, with windows of one frame.
use shtapm.Base.{ℕ, ◌+◌, ◌≡◌, ◌⊎◌, refl, true, false, none, some, List, [], ◌∷◌, arith, length, ◌-◌}
use shtapm.Base.Ratio.{frac}
use shtapm.Contracts.{Channel, gas}
use shtapm.Actuation.Relay.{FakeActuator, fake, on}
use shtapm.Actuation.Supervisor.{Supervisor}
use shtapm.Trust.Beta.{prior}
use shtapm.Trust.Reliability.{new_histories}
use shtapm.Acquisition.Board.{new_board}
use shtapm.Acquisition.Sampler.{Frame}
use shtapm.Heal.Orchestrator.{ok, uncertainty, linear_scaling}
use shtapm.Heal.Runtime.{Bundle}
use shtapm.Anomaly.Preprocess.{Preprocessor}
use shtapm.Anomaly.Detector.{null_detector, NullState}
use shtapm.Anomaly.FlagPolicy.{default_tail}
use shtapm.Anomaly.Physics.{new_rule, fit_rule, bench_current_bands, bench_vibration_bands, Rule}
use shtapm.Backend.Condition.{DecisionMessage}
use shtapm.Backend.Recorder.{Answers}
use shtapm.Backend.Faults.{takes_all, takes_all-IsFaultless}
use shtapm.Backend.Episodes.{recorded, kinds, episode}
use shtapm.Edge.Wiring.{Parts, Edge, Times, handle_all}
use shtapm.Edge.Judging.{IsTotalDetector}
use shtapm.Edge.Live.{IsLive, missing, live_run}
use shtapm.Edge.Recorded.{IsSynced, deliveries, ledger_follows_tracker}

-- A bundle for `gas` whose twin answers 1/2, with the proxy of D020 and a limit of 60.
abbrev pub bundle : Bundle
bundle = record {
  channel = gas;
  fitted = λ ch. true;
  normalize = λ ch v. v;
  denormalize = λ ch v. v;
  window_size = 1;
  settings = record {
    reconstruct = λ w ch. ok (frac 1 2);
    newest_feature = λ w ch. frac 1 4;
    score = λ ch x. ok x;
    proxy = uncertainty linear_scaling;
    divergence_threshold = none;
    uncertainty_cap = frac 8 10;
    substitution_max = 60;
    trusted_min = frac 7 10;
  };
}

abbrev pub parts : Parts FakeActuator NullState
parts = record {
  actuator = fake;
  amperes = λ x. x.num;
  detector = null_detector;
  sqrt = λ x. x;
  self_heal = some bundle;
  window_size = 1;
}

pub parts-total : IsTotalDetector null_detector
parts-total = record {
  flag_of = λ w d. false;
  flags = λ w d. refl;
  score_of = λ w d. frac 0 1;
  scores = λ w d. refl;
  bounded = λ w d. refl;
}

abbrev pub single : Preprocessor
single = record { median_kernel = 1; low_pass_alpha = frac 1 1; window_size = 1; step = 1 }

unfoldable pub fitted_rule : Rule
unfolding fit_rule new_rule
fitted_rule = fit_rule (new_rule bench_current_bands bench_vibration_bands)

abbrev pub running_pump : Supervisor FakeActuator
running_pump = record {
  device_id = "d";
  hardware = false;
  relay = record { state = on; history = [] };
  detector = none;
  latched = false;
  last = none;
  timer = record { timeout = 100; last_kick = 0; expired = false };
  stopping = false;
  published = [];
}

-- The trust in `gas` is about 1/1000.
abbrev pub edge : Edge FakeActuator NullState
unfolding new_histories
edge = record {
  board = new_board 10;
  supervisor = running_pump;
  recent_frames = [];
  monitor = record {
    preprocessor = single;
    fit_buffer_size = 0;
    warmup_buffer = [];
    buffer = some [];
  };
  detector = record { fitted = true; fit_count = 1 };
  c_provider = record {
    train_mean = λ ch. frac 0 1;
    train_std = λ ch. frac 0 1;
    train_rms_z_sorted = λ ch. frac 1 1 ∷ [];
    c = λ ch. record { num = 1; den = 2 };
    fitted = true;
  };
  flag_policy = record {
    tail_fraction = default_tail;
    train_variance_sorted = λ ch. frac 0 1 ∷ [];
    fitted = true;
  };
  pipeline = record {
    physics_flags = true;
    k_rule = fitted_rule;
    rule = fitted_rule;
    histories = new_histories;
    engine = λ ch. elim ch [ gas ↦ record prior { beta = 1000 } | _ ↦ prior ];
  };
  tracked = λ ch. false;
  healer = record { episodes = λ ch. none; safe_stops = 0 };
  decisions = [];
}

pub edge-IsLive : IsLive [] edge
unfolding fitted_rule fit_rule new_rule new_histories
edge-IsLive = record {
  has_buffer = refl;
  preprocessor = record {
    window_size = omega arith;
    step = omega arith;
    kernel = refl;
    alpha = refl;
  };
  policy = refl;
  c_provider = record { fitted = refl; baseline = λ ch. omega arith };
  pipeline = record {
    physics_flags = refl;
    rule = refl;
    k_rule = refl;
    histories = λ ch. (omega arith, omega arith);
  };
}

abbrev pub times_at : ℕ → Times
times_at n = record {
  frame = record { clock = n; iso = "t" };
  opened = n;
  now = n;
  stop = record { clock = n; iso = "t" };
}

abbrev pub a_frame : Frame
a_frame = record { device_id = "d"; ts = "t"; values = λ ch. frac 1 1; sample_seq = 1 }

abbrev two : List (Times × Frame)
two = (times_at 0, a_frame) ∷ (times_at 60, a_frame) ∷ []

live_run_example :
    (e' : Edge FakeActuator NullState) × (handle_all parts two edge ≡ some e')
    × (length e'.decisions ≡ 0 + (2 - missing 1 []))
    × (last : List Frame) × IsLive last e'
live_run_example = live_run parts parts-total two edge [] edge-IsLive

abbrev storing : DecisionMessage → Answers
storing m = takes_all

edge-IsSynced : IsSynced parts storing edge
unfolding recorded
edge-IsSynced = record { tracked = λ ch. refl; chained = λ ch h. cc; consistent = λ ch. tt }

ledger_follows_tracker_example :
    (e' : Edge FakeActuator NullState) × (handle_all parts two edge ≡ some e')
    × ((ch : Channel)
        → ((recorded (deliveries storing e'.decisions)).0.tracked ch ≡ e'.tracked ch)
          × ((episode false (kinds ch (recorded (deliveries storing e'.decisions)).1) ≡ some false)
              ⊎ ((episode false (kinds ch (recorded (deliveries storing e'.decisions)).1)
                    ≡ some true)
                  × (e'.tracked ch ≡ true))))
ledger_follows_tracker_example =
    ledger_follows_tracker parts storing (λ m. takes_all-IsFaultless) parts-total two edge []
      edge-IsLive edge-IsSynced
