-- ===== src/Anomaly/Examples.antt =====
-- The modules of edge/anomaly and edge/pipeline/monitor.py on concrete windows.
use shtapm.Base.{
  ℕ, ◌≡◌, refl, true, false, List, [], ◌∷◌, some, arith, length, inl, inr, false, if◌then◌else◌,
}
use shtapm.Base.Ratio.{frac, ◌+r◌, ◌-r◌, ◌*r◌}
use shtapm.Base.Sorting.{count_r, sorted_r, insert_r}
use shtapm.Contracts.{Channel, ChannelSet, gas, nothing, fault}
use shtapm.Trust.Engine.{new_engine, Provider}
use shtapm.Trust.Reliability.{new_histories}
use shtapm.Acquisition.Sampler.{Frame}
use shtapm.Anomaly.Physics.{
  RawWindow, Rule, new_rule, fit_rule, bench_current_bands, bench_vibration_bands,
}
use shtapm.Anomaly.Pipeline.{Pipeline, WindowOutcome, process_window}
use shtapm.Anomaly.Evidence.{IsReady, glitch_is_no_attack}
use shtapm.Anomaly.Preprocess.{Preprocessor, process, Window}
use shtapm.Anomaly.Detector.{AnomalyResult}
use shtapm.Anomaly.FlagPolicy.{
  FlagPolicy, default_tail, fit_policy, fitted_policy, flags, Flags, flags_lem, IsExtreme,
  baseline_of, window_channel_variance, is_outlier,
}
use shtapm.Anomaly.Consistency.{
  Consistency, new_consistency, fit, record_window, IsRank, record_window_lem,
}
use shtapm.Base.Stats.{sample_variance, sum_r, mean_r}
use shtapm.Anomaly.Windows.{IsPreprocessor, filtered_of, windows_at, window_count, process_lem}
use shtapm.Anomaly.Monitor.{Monitor, new_monitor, run}
use shtapm.Anomaly.Warmup.{after, dues, run_lem}

abbrev fitted_rule : Rule
unfolding fit_rule new_rule
fitted_rule = fit_rule (new_rule bench_current_bands bench_vibration_bands)

abbrev pipeline : Pipeline
unfolding new_engine new_histories
pipeline = record {
  physics_flags = true;
  k_rule = fitted_rule;
  rule = fitted_rule;
  histories = new_histories;
  engine = new_engine;
}

-- Two idle samples of current and a glitch; vibration is idle.
abbrev glitched : RawWindow
glitched = record {
  current_samples = frac 1 100 ∷ frac 2 1 ∷ frac 2 100 ∷ [];
  vibration_samples = frac 1 10 ∷ frac 1 10 ∷ frac 2 10 ∷ [];
}

abbrev all_consistent : Provider
all_consistent ch = record { num = 1; den = 1 }

abbrev gas_flag : ChannelSet
gas_flag gas = true
gas_flag _ = false

pipeline-IsReady : IsReady pipeline
unfolding fit_rule new_rule new_histories
pipeline-IsReady = record {
  physics_flags = refl;
  rule = refl;
  k_rule = refl;
  histories = λ ch. (omega arith, omega arith);
}

glitch_is_no_attack_example :
    (next : Pipeline) × (out : WindowOutcome) × (process_window gas_flag all_consistent glitched
        pipeline
      ≡ some (next, out))
    × ((ch : Channel)
        → (out.channel_flags ch ≡ gas_flag ch)
          × ((out.attribution ch).attribution ≡ (if gas_flag ch then fault else nothing)))
unfolding fitted_rule count_r
glitch_is_no_attack_example =
    glitch_is_no_attack pipeline gas_flag all_consistent glitched pipeline-IsReady
      (λ ch. (omega arith, omega arith))
      (
        (omega arith, (omega arith, (omega arith, tt))),
        (omega arith, (omega arith, (omega arith, tt))),
      )
      (omega arith, omega arith, refl) (omega arith, omega arith, refl)
      (inl (omega arith, omega arith))

abbrev every_second : Preprocessor
every_second = record { median_kernel = 3; low_pass_alpha = frac 1 2; window_size = 2; step = 2 }

every_second-IsPreprocessor : IsPreprocessor every_second
every_second-IsPreprocessor = record {
  window_size = omega arith;
  step = omega arith;
  kernel = refl;
  alpha = refl;
}

abbrev frame_at : ℕ → Frame
frame_at n = record { device_id = "d"; ts = "t"; values = λ ch. frac n 1; sample_seq = n }

abbrev five_frames : List Frame
five_frames = frame_at 0 ∷ frame_at 1 ∷ frame_at 2 ∷ frame_at 3 ∷ frame_at 4 ∷ []

process_lem_example :
    process every_second five_frames
    ≡ some (
        windows_at every_second
          (filtered_of every_second five_frames)
          (window_count every_second (length five_frames))
          0)
process_lem_example = process_lem every_second every_second-IsPreprocessor five_frames

run_lem_example :
    (m : Monitor) × (new_monitor every_second false false (some 2) ≡ some m)
    × (run five_frames m
        ≡ some (
          after every_second every_second-IsPreprocessor 2 (omega arith) five_frames,
          dues every_second every_second-IsPreprocessor 2 (omega arith) [] five_frames,
        ))
run_lem_example = run_lem every_second every_second-IsPreprocessor 2 (omega arith) false five_frames

-- Five frames make two windows of two.
two_windows : window_count every_second (length five_frames) ≡ 2
two_windows = refl

-- Three baseline windows and a window with a larger variance than all of them.
abbrev window_of : ℕ → Window
window_of n = record { start_index = 0; end_index = 2; features = λ ch. frac 0 1 ∷ frac n 1 ∷ [] }

abbrev unfitted : FlagPolicy
unfitted = record { tail_fraction = default_tail; train_variance_sorted = λ ch. []; fitted = false }

abbrev three : List Window
three = window_of 3 ∷ window_of 1 ∷ window_of 2 ∷ []

abbrev flagged : AnomalyResult
flagged = record { flag = true; severity = frac 9 10 }

flags_lem_example :
    (fit_policy three unfitted ≡ some (fitted_policy three unfitted refl refl))
    × (out : ChannelSet) × (flags (fitted_policy three unfitted refl refl) (window_of 9) flagged
        ≡ some out)
    × Flags three unfitted refl refl (window_of 9) flagged out
flags_lem_example = flags_lem three unfitted refl refl (window_of 9) flagged

-- That window is extreme, and one like the second of the three is not.
gas-IsExtreme :
    IsExtreme (baseline_of three gas) (window_channel_variance (window_of 9) gas)
    × (is_outlier default_tail
          (sorted_r (baseline_of three gas))
          (window_channel_variance (window_of 2) gas)
        ≡ false)
unfolding count_r is_outlier sorted_r insert_r window_channel_variance sample_variance sum_r mean_r
    ◌+r◌ ◌-r◌ ◌*r◌
gas-IsExtreme = (inr (omega arith), refl)

record_window_lem_example :
    (fitted : Consistency) × (fit (λ x. x) three new_consistency ≡ some fitted)
    × (after : Consistency) × (record_window (λ x. x) (window_of 9) fitted ≡ some after)
    × ((ch : Channel)
        → IsRank
            (λ x. x)
            (window_of 3)
            (window_of 1 ∷ window_of 2 ∷ [])
            new_consistency
            ch
            (window_of 9)
            (after.c ch))
record_window_lem_example =
    record_window_lem (λ x. x) (window_of 3) (window_of 1 ∷ window_of 2 ∷ []) new_consistency
      (window_of 9)
