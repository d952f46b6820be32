-- ===== src/Injection/Transforms.antt =====
-- edge/injection/injections.py: the transforms of a finished stream. Channels are typed, and
-- indices are natural, so the constructors' tests of these are void.
use shtapm.Base.{
  ℕ, zero, suc, ◌+◌, ◌-◌, Bool, true, not, ◌&&◌, ltb, leb, Option, none, some, List, [], ◌∷◌,
  length, if◌then◌else◌,
}
use shtapm.Base.Int.{pos_part, neg_part}
use shtapm.Base.Ratio.{Ratio, frac, diff, ltb_r, ◌+r◌, ◌*r◌}
use shtapm.Contracts.{Channel, is_channel}
use shtapm.Acquisition.Sampler.{Frame}

pub data Kind : Type 0 where
  a_fault an_attack : Kind

-- `InjectionType`, with the parameters of its class.
pub data InjectionType : Type 0 where
  drift : Ratio → InjectionType
  spike : Ratio → InjectionType
  stuck_at : Option Ratio → InjectionType
  bias_fdi : Ratio → InjectionType
  ramp_fdi : Ratio → InjectionType
  replay : ℕ → InjectionType
  constant_spoof : Ratio → InjectionType
  adaptive_stealth_fdi : Ratio → Ratio → InjectionType

abbrev pub kind_of : InjectionType → Kind
kind_of (drift rate) = a_fault
kind_of (spike amplitude) = a_fault
kind_of (stuck_at held) = a_fault
kind_of _ = an_attack

pub record Injection : Type 0 where
  pub injection_type : InjectionType
  pub channel : Channel
  pub onset : ℕ
  pub duration : ℕ

abbrev pub has_cap : InjectionType → Bool
has_cap (adaptive_stealth_fdi rate cap) = ltb_r (frac 0 1) cap
has_cap _ = true

-- A constructor with its `__post_init__`; `none` is the ValueError.
unfoldable pub new_injection : InjectionType → Channel → ℕ → ℕ → Option Injection
new_injection t channel onset duration =
    if ltb duration 1
    then none
    else if not (has_cap t)
    then none
    else some (record { injection_type = t; channel = channel; onset = onset; duration = duration })

abbrev pub is_active : Injection → ℕ → Bool
is_active inj i = leb inj.onset i && ltb i (inj.onset + inj.duration)

-- `frames[i]`; `none` is the IndexError.
abbrev pub get_frame : List Frame → ℕ → Option Frame
get_frame [] i = none
get_frame (f ∷ fs) zero = some f
get_frame (f ∷ fs) (suc i) = get_frame fs i

abbrev pub channel_value : Frame → Channel → Ratio
channel_value f ch = f.values ch

abbrev pub rebuild_with : Frame → Channel → Ratio → Frame
rebuild_with f ch value = record f { values = λ c. if is_channel c ch then value else f.values c }

-- `value` of the frame at an index, with f applied.
abbrev pub value_at : (Ratio → Ratio) → Channel → Option Frame → Option Ratio
value_at g ch none = none
value_at g ch (some f) = some (g (channel_value f ch))

abbrev pub scale_by : ℕ → Ratio → Ratio
scale_by n r = r *r frac n 1

abbrev pub negated : Ratio → Ratio
negated r = record { num = diff (neg_part r.num) (pos_part r.num); den = r.den }

-- `max(min(offset, cap), -cap)`.
unfoldable pub capped : Ratio → Ratio → Ratio
capped cap offset =
    let lower = if ltb_r cap offset then cap else offset in
    if ltb_r lower (negated cap) then negated cap else lower

-- `_value` of each class, at an active index.
unfoldable pub injected_value : Injection → ℕ → List Frame → Option Ratio
injected_value inj i frames = by_type inj.injection_type
  where
    here : (Ratio → Ratio) → Option Ratio
    here g = value_at g inj.channel (get_frame frames i)

    step : ℕ
    step = i - inj.onset + 1

    by_type : InjectionType → Option Ratio
    by_type (drift rate) = here (λ v. v +r scale_by step rate)
    by_type (spike amplitude) = here (λ v. v +r amplitude)
    by_type (stuck_at (some held)) = some held
    by_type (stuck_at none) = value_at (λ v. v) inj.channel (get_frame frames inj.onset)
    by_type (bias_fdi bias) = here (λ v. v +r bias)
    by_type (ramp_fdi slope) = here (λ v. v +r scale_by step slope)
    by_type (replay source_onset) =
        value_at (λ v. v) inj.channel (get_frame frames (source_onset + (i - inj.onset)))
    by_type (constant_spoof value) = some value
    by_type (adaptive_stealth_fdi rate cap) = here (λ v. v +r capped cap (scale_by step rate))

-- `_validate_against`; false is a ValueError.
abbrev pub is_valid_against : Injection → List Frame → Bool
is_valid_against inj frames = by_type inj.injection_type
  where
    by_type : InjectionType → Bool
    by_type (replay source_onset) =
        leb (source_onset + inj.duration) (length frames)
        && leb (source_onset + inj.duration) inj.onset
    by_type _ = true

pub record Label : Type 0 where
  pub index : ℕ
  pub sample_seq : ℕ
  pub channel : Channel
  pub kind : Kind
  pub active : Bool

abbrev pub rebuilt : Frame → Channel → Option Ratio → Option Frame
rebuilt f ch none = none
rebuilt f ch (some value) = some (rebuild_with f ch value)

-- One frame of the loop of `apply`.
unfoldable pub inject_frame : Injection → List Frame → ℕ → Frame → Option Frame
inject_frame inj frames i f =
    if is_active inj i then rebuilt f inj.channel (injected_value inj i frames) else some f

abbrev pub label : Injection → ℕ → Frame → Label
label inj i f = record {
  index = i;
  sample_seq = f.sample_seq;
  channel = inj.channel;
  kind = kind_of inj.injection_type;
  active = is_active inj i;
}

abbrev pub labels_from : Injection → ℕ → List Frame → List Label
labels_from inj i [] = []
labels_from inj i (f ∷ rest) = label inj i f ∷ labels_from inj (suc i) rest

abbrev pub add_frame : Option Frame → Option (List Frame) → Option (List Frame)
add_frame none out = none
add_frame (some f) none = none
add_frame (some f) (some fs) = some (f ∷ fs)

-- The frames of the loop of `apply`, from an index on.
unfoldable pub inject_from : Injection → List Frame → ℕ → List Frame → Option (List Frame)
inject_from inj frames i [] = some []
inject_from inj frames i (f ∷ rest) =
    add_frame (inject_frame inj frames i f) (inject_from inj frames (suc i) rest)

abbrev pub with_labels : List Label → Option (List Frame) → Option (List Frame × List Label)
with_labels labels none = none
with_labels labels (some frames) = some (frames, labels)

-- `apply`; `none` is an exception.
unfoldable pub apply : Injection → List Frame → Option (List Frame × List Label)
apply inj frames =
    if not (is_valid_against inj frames)
    then none
    else with_labels (labels_from inj 0 frames) (inject_from inj frames 0 frames)
