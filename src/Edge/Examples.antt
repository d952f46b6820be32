-- ===== src/Edge/Examples.antt =====
-- The loop of edge/acquisition/runtime.py on concrete samples.
use shtapm.Base.{suc, false, List, [], ◌∷◌, some, none}
use shtapm.Base.Ratio.{frac}
use shtapm.Contracts.{gas}
use shtapm.Acquisition.Sampler.{Frame, Sampler, healthy}
use shtapm.Acquisition.Publisher.{Publisher}
use shtapm.Injection.Transforms.{bias_fdi}
use shtapm.Injection.Commands.{bias_fdi_command}
use shtapm.Injection.Live.{LiveInjector}
use shtapm.Edge.Loop.{Sample, run, sampled}
use shtapm.Edge.Telemetry.{injecting, Follows, at, telemetry_lem}

abbrev sampler : Sampler
sampler = record {
  device_id = "d";
  seq = 0;
  hold = false;
  last_good = λ ch. none;
  buffer = record { capacity = 2; items = [] };
}

abbrev offline_publisher : Publisher Frame
offline_publisher = record {
  buffer = record { capacity = 3; items = [] };
  connected = false;
  sent = [];
}

-- An injector that adds 5 to gas, for two frames.
abbrev biased : LiveInjector
biased = record {
  device_id = "d";
  rate_hz = frac 1 1;
  history = record { capacity = 60; items = [] };
  active = some (record {
    command = record {
      command_id = "c";
      device_id = "d";
      scenario = bias_fdi_command (frac 5 1);
      channel = gas;
      duration_s = 2;
    };
    injection = record {
      injection_type = bias_fdi (frac 5 1);
      channel = gas;
      onset = 0;
      duration = 2;
    };
    stream = [];
  });
}

abbrev two_samples : List Sample
two_samples =
    record { ts = "t1"; readings = λ ch. healthy (frac 1 1) }
    ∷ (record { ts = "t2"; readings = λ ch. healthy (frac 2 1) } ∷ [])

-- Both hooks count their calls.
telemetry_lem_example :
    Follows
      (run
        (injecting (some (λ r n. suc n)) (some (λ f n. suc n)))
        two_samples
        (at (some (λ r n. suc n)) (some (λ f n. suc n)) sampler offline_publisher biased 0))
      (sampled two_samples sampler)
      offline_publisher
      biased
telemetry_lem_example =
    telemetry_lem (some (λ r n. suc n)) (some (λ f n. suc n)) two_samples sampler offline_publisher
      biased 0
