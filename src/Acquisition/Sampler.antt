-- ===== src/Acquisition/Sampler.antt =====
-- edge/acquisition/sampler.py: one reading of every channel makes a frame, or none. The drivers'
-- readings and the clock's text are arguments.
use shtapm.Base.{ℕ, suc, Bool, true, false, not, ◌&&◌, Option, none, some, String, if◌then◌else◌}
use shtapm.Base.Ratio.{Ratio, frac}
use shtapm.Contracts.{Channel, ChannelSet, any_of}
use shtapm.Acquisition.RingBuffer.{RingBuffer, push}

pub data Reading : Type 0 where
  healthy : Ratio → Reading
  unhealthy : Reading

pub record Frame : Type 0 where
  pub device_id : String
  pub ts : String
  pub values : Channel → Ratio
  pub sample_seq : ℕ

pub record SampleResult : Type 0 where
  pub all_healthy : Bool
  pub ts : String
  pub readings : Channel → Reading
  pub frame : Option Frame
  pub stale : ChannelSet

pub record Sampler : Type 0 where
  pub device_id : String
  pub seq : ℕ
  pub hold : Bool
  pub last_good : Channel → Option Ratio
  pub buffer : RingBuffer Frame

abbrev pub is_unhealthy : Reading → Bool
is_unhealthy (healthy v) = false
is_unhealthy unhealthy = true

abbrev pub keep_good : Reading → Option Ratio → Option Ratio
keep_good (healthy v) old = some v
keep_good unhealthy old = old

abbrev pub is_known : Option Ratio → Bool
is_known (some v) = true
is_known none = false

-- The value of a key that is there.
abbrev pub known : Option Ratio → Ratio
known (some v) = v
known none = frac 0 1

abbrev pub value_of : Reading → Option Ratio → Ratio
value_of (healthy v) good = v
value_of unhealthy good = known good

unfoldable pub emit_frame :
    String → (Channel → Reading) → (Channel → Ratio) → ChannelSet → Sampler → Sampler × SampleResult
emit_frame ts readings values stale s =
    let frame : Frame = record {
      device_id = s.device_id;
      ts = ts;
      values = values;
      sample_seq = s.seq;
    } in
    (
      record s { seq = suc s.seq; buffer = push frame s.buffer },
      record {
        all_healthy = not (any_of stale);
        ts = ts;
        readings = readings;
        frame = some frame;
        stale = stale;
      },
    )

unfoldable pub sample_once : String → (Channel → Reading) → Sampler → Sampler × SampleResult
sample_once ts readings s =
    let good : Channel → Option Ratio = λ ch. keep_good (readings ch) (s.last_good ch) in
    let failed : ChannelSet = λ ch. is_unhealthy (readings ch) in
    let unknown : ChannelSet = λ ch. failed ch && not (is_known (good ch)) in
    let values : Channel → Ratio = λ ch. value_of (readings ch) (good ch) in
    let updated = record s { last_good = good } in
    let withheld : SampleResult = record {
      all_healthy = false;
      ts = ts;
      readings = readings;
      frame = none;
      stale = λ ch. false;
    } in
    if not (any_of failed)
    then emit_frame ts readings values (λ ch. false) updated
    else if s.hold && not (any_of unknown)
    then emit_frame ts readings values failed updated
    else (updated, withheld)
