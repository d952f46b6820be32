-- ===== src/Edge/Loop.antt =====
-- `AcquisitionRuntime` of edge/acquisition/runtime.py. The three hooks are arguments and share a
-- state: a hook that raises leaves the state that it leaves, and a transform that raises has no
-- frame. The publisher does not raise.
use shtapm.Base.{Option, none, some, List, [], ◌∷◌, String}
use shtapm.Contracts.{Channel}
use shtapm.Acquisition.Sampler.{Reading, Frame, SampleResult, Sampler, sample_once}
use shtapm.Acquisition.Publisher.{Publisher, publish}

pub record Hooks (H : Type 0) : Type 0 where
  pub on_result : Option (SampleResult → H → H)
  pub frame_transform : Option (Frame → H → H × Option Frame)
  pub on_healthy_frame : Option (Frame → H → H)

pub record Runtime (H : Type 0) : Type 0 where
  pub sampler : Sampler
  pub publisher : Publisher Frame
  pub hooked : H

-- What the drivers and the clock give to a tick.
pub record Sample : Type 0 where
  pub ts : String
  pub readings : Channel → Reading

abbrev pub call_hook : {A H : Type 0} → Option (A → H → H) → A → H → H
call_hook none a h = h
call_hook (some hook) a h = hook a h

-- The transformed frame, or the clean one after an exception.
abbrev pub or_clean : {H : Type 0} → Frame → H × Option Frame → H × Frame
or_clean clean (h, none) = (h, clean)
or_clean clean (h, some f) = (h, f)

abbrev pub transform_frame :
    {H : Type 0} → Option (Frame → H → H × Option Frame) → Frame → H → H × Frame
transform_frame none f h = (h, f)
transform_frame (some hook) f h = or_clean f (hook f h)

module _ {H : Type 0} (hooks : Hooks H) where
  -- The branch of `tick` that has a frame, or has none.
  unfoldable pub pass_on : Option Frame → Runtime H → Runtime H
  pass_on none r = r
  pass_on (some clean) r =
      let (h, frame) = transform_frame hooks.frame_transform clean r.hooked in
      record r {
        publisher = publish frame r.publisher;
        hooked = call_hook hooks.on_healthy_frame frame h;
      }

  unfoldable pub tick : Sample → Runtime H → Runtime H
  tick x r =
      let (s, result) = sample_once x.ts x.readings r.sampler in
      pass_on result.frame
        (record r { sampler = s; hooked = call_hook hooks.on_result result r.hooked })

  -- `run`, for as many ticks as there are samples.
  unfoldable pub run : List Sample → Runtime H → Runtime H
  run [] r = r
  run (x ∷ rest) r = run rest (tick x r)

-- The frames that the sampler makes of some samples, and its state after them.
unfoldable pub sampled : List Sample → Sampler → Sampler × List Frame
sampled [] s = (s, [])
sampled (x ∷ rest) s =
    let (s', result) = sample_once x.ts x.readings s in
    let (last, frames) = sampled rest s' in
    (last, elim result.frame [ none ↦ frames | some f ↦ f ∷ frames ])

unfoldable pub publish_all : List Frame → Publisher Frame → Publisher Frame
publish_all [] p = p
publish_all (f ∷ rest) p = publish_all rest (publish f p)
