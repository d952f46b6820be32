-- ===== src/Acquisition/Hold.antt =====
-- The frames that edge/acquisition/sampler.py makes of a history of readings.
use shtapm.Base.{
  ℕ, suc, ◌≡◌, refl, ◌⊎◌, inl, inr, true, false, not, ◌&&◌, Option, none, some, List, [], ◌∷◌,
  arith, String, sym, subst, ◌∙◌, ap, Bool-cases,
}
use mathlib.Core.Path.{fun_ext}
use shtapm.Base.Ratio.{Ratio}
use shtapm.Contracts.{Channel, ChannelSet, temperature, any_of, any_of-false, any_of-member}
use shtapm.Acquisition.Sampler.{
  Sampler, SampleResult, Frame, Reading, keep_good, is_known, value_of, is_unhealthy, sample_once,
  emit_frame,
}

abbrev pub Sample : Type 0
Sample = String × (Channel → Reading)

-- The sampler after a history of samples, newest first.
unfoldable pub sampler_after : Sampler → List Sample → Sampler
sampler_after s [] = s
sampler_after s ((ts, readings) ∷ older) = (sample_once ts readings (sampler_after s older)).0

-- The newest healthy value of a channel.
unfoldable pub newest : Channel → List Sample → Option Ratio
newest ch [] = none
newest ch ((_, readings) ∷ older) = let before = newest ch older in keep_good (readings ch) before

module _ (ts : String) (readings : Channel → Reading) (s : Sampler) (ch : Channel) where
  sample_once-last_good :
      ((sample_once ts readings s).0.last_good ch ≡ keep_good (readings ch) (s.last_good ch))
      × ((sample_once ts readings s).0.hold ≡ s.hold)
  unfolding sample_once emit_frame
  sample_once-last_good = ground arith

-- What one sample of a sampler does: it makes a frame of the newest value of each channel and
-- names the channels that failed, or it makes none, since some channel has had no value yet.
abbrev pub Framed :
    (Channel → Reading) → (Channel → Option Ratio) → ℕ → Sampler × SampleResult → Type 0
Framed readings good seq (after, r) =
    ((f : Frame) × (r.frame ≡ some f)
      × ((c : Channel) → good c ≡ some (f.values c))
      × ((c : Channel) → r.stale c ≡ is_unhealthy (readings c))
      × (f.sample_seq ≡ seq)
      × (after.seq ≡ suc seq))
    ⊎ ((r.frame ≡ none) × (after.seq ≡ seq) × ((c : Channel) × (good c ≡ none)))

healthy_value :
    (r : Reading) (old : Option Ratio)
    → is_unhealthy r ≡ false
    → keep_good r old ≡ some (value_of r (keep_good r old))
healthy_value r old h = ground arith

known_value :
    (r : Reading) (old : Option Ratio)
    → is_unhealthy r && not (is_known (keep_good r old)) ≡ false
    → keep_good r old ≡ some (value_of r (keep_good r old))
known_value r old h = ground arith

unknown_value :
    (r : Reading) (old : Option Ratio)
    → is_unhealthy r && not (is_known (keep_good r old)) ≡ true
    → keep_good r old ≡ none
unknown_value r old h = ground arith

module _ (ts : String) (readings : Channel → Reading) (s : Sampler) (holds : s.hold ≡ true) where
  good : Channel → Option Ratio
  good c = keep_good (readings c) (s.last_good c)

  failed : ChannelSet
  failed c = is_unhealthy (readings c)

  unknown : ChannelSet
  unknown c = is_unhealthy (readings c) && not (is_known (keep_good (readings c) (s.last_good c)))

  sample_once-Framed :
      Framed readings
        (λ c. keep_good (readings c) (s.last_good c))
        s.seq
        (sample_once ts readings s)
  unfolding sample_once emit_frame failed unknown
  sample_once-Framed = elim (Bool-cases (any_of failed)) [
    | inr none_failed ↦ rw none_failed (
        inl (
          record {
            device_id = s.device_id;
            ts = ts;
            values = λ c. value_of (readings c) (keep_good (readings c) (s.last_good c));
            sample_seq = s.seq;
          },
          refl,
          λ c. healthy_value (readings c) (s.last_good c) (any_of-false failed c none_failed),
          λ c. sym (any_of-false failed c none_failed),
          refl,
          refl,
        ))
    | inl some_failed ↦ elim (Bool-cases (any_of unknown)) [
      | inr all_known ↦
          rw (some_failed, holds, all_known)
            (inl (
              record {
                device_id = s.device_id;
                ts = ts;
                values = λ c. value_of (readings c) (keep_good (readings c) (s.last_good c));
                sample_seq = s.seq;
              },
              refl,
              λ c. known_value (readings c) (s.last_good c) (any_of-false unknown c all_known),
              λ c. refl,
              refl,
              refl,
            ))
      | inl some_unknown ↦
          let (c, e) = any_of-member unknown some_unknown in
          rw (some_failed, holds, some_unknown)
            (inr (refl, refl, (c, unknown_value (readings c) (s.last_good c) e)))
    ]
  ]

-- A sampler that holds values and starts without any.
module _ (start : Sampler) (holds : start.hold ≡ true)
    (empty : (c : Channel) → start.last_good c ≡ none) where
  sampler_after-last_good :
      (c : Channel) (h : List Sample)
      → ((sampler_after start h).last_good c ≡ newest c h) × ((sampler_after start h).hold ≡ true)
  unfolding sampler_after newest
  sampler_after-last_good c [] = (empty c, holds)
  sampler_after-last_good c ((ts, readings) ∷ older) =
      let (e, f) = sampler_after-last_good c older in
      let (g, k) = sample_once-last_good ts readings (sampler_after start older) c in
      (g ∙ ap (keep_good (readings c)) e, k ∙ f)

  -- After any history of samples, a sampler that holds values makes a frame of each channel's
  -- newest healthy value, numbered next and naming the channels that failed now, or no frame and
  -- no number exactly if some channel has had no healthy value yet.
  pub hold_lem :
      (h : List Sample) (ts : String) (readings : Channel → Reading)
      → Framed readings
          (λ c. newest c ((ts, readings) ∷ h))
          (sampler_after start h).seq
          (sample_once ts readings (sampler_after start h))
  unfolding newest
  hold_lem h ts readings =
      let now = sampler_after start h in
      let same : (c : Channel)
          → keep_good (readings c) (now.last_good c) ≡ newest c ((ts, readings) ∷ h) =
        λ c. ap (keep_good (readings c)) (sampler_after-last_good c h).0 in
      subst (λ good. Framed readings good now.seq (sample_once ts readings now)) (fun_ext same)
        (sample_once-Framed ts readings now (sampler_after-last_good temperature h).1)
