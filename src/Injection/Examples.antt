-- ===== src/Injection/Examples.antt =====
-- The modules of edge/injection on concrete commands.
use shtapm.Base.{ℕ, ◌≡◌, ◌++◌, refl, true, List, [], ◌∷◌, some, none, arith, length}
use shtapm.Base.Ratio.{frac}
use shtapm.Base.Round.{round}
use shtapm.Contracts.{gas}
use shtapm.Acquisition.Sampler.{Frame}
use shtapm.Injection.Transforms.{new_injection, apply, labels_from}
use shtapm.Injection.Commands.{InjectCommand, replay_command, is_valid_command}
use shtapm.Injection.Live.{Active, LiveInjector, frames_of, plan, build, submit, transform_all}
use shtapm.Injection.Submission.{live_is_offline}

abbrev frame_at : ℕ → Frame
frame_at n = record { device_id = "d"; ts = "t"; values = λ ch. frac n 1; sample_seq = n }

abbrev three_frames : List Frame
three_frames = frame_at 7 ∷ frame_at 8 ∷ frame_at 9 ∷ []

-- An injector at one frame a second, which has recorded two frames.
abbrev injector : LiveInjector
injector = record {
  device_id = "d";
  rate_hz = frac 1 1;
  history = record { capacity = 60; items = frame_at 1 ∷ frame_at 2 ∷ [] };
  active = none;
}

abbrev replay_two : InjectCommand
replay_two = record {
  command_id = "c";
  device_id = "d";
  scenario = replay_command 2;
  channel = gas;
  duration_s = 2;
}

replay_two_valid : is_valid_command replay_two ≡ true
unfolding is_valid_command
replay_two_valid = refl

replay_two_accepted : (submit replay_two injector).1 ≡ true
unfolding submit build plan new_injection frames_of round
replay_two_accepted = refl

live_is_offline_example :
    (a : Active) × ((submit replay_two injector).0.active ≡ some a)
    × (length a.stream ≡ a.injection.onset)
    × (apply a.injection (a.stream ++ three_frames)
        ≡ some (
          a.stream ++ (transform_all three_frames (submit replay_two injector).0).1,
          labels_from a.injection 0 (a.stream ++ three_frames),
        ))
live_is_offline_example =
    live_is_offline replay_two injector three_frames (omega arith) replay_two_valid
      replay_two_accepted
