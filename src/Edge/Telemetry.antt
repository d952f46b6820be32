-- ===== src/Edge/Telemetry.antt =====
-- What the hooks of edge/acquisition/runtime.py can do to telemetry.
use shtapm.Base.{◌≡◌, refl, subst, sym, Option, none, some, List, [], ◌∷◌, Option-cases, inl, inr}
use shtapm.Acquisition.Sampler.{Frame, SampleResult, Sampler, sample_once}
use shtapm.Acquisition.Publisher.{Publisher, publish}
use shtapm.Injection.Live.{LiveInjector, transform, transform_all}
use shtapm.Edge.Loop.{Hooks, Runtime, Sample, call_hook, pass_on, tick, run, sampled, publish_all}

-- The hooks of a runtime with a live injector, which keeps its state beside a monitor's.
abbrev pub injecting :
    {H : Type 0} → Option (SampleResult → H → H) → Option (Frame → H → H) → Hooks (LiveInjector × H)
injecting on_result on_healthy_frame = record {
  on_result = some (λ result (l, h). (l, call_hook on_result result h));
  frame_transform = some (λ f (l, h). let (l', out) = transform f l in ((l', h), some out));
  on_healthy_frame = some (λ f (l, h). (l, call_hook on_healthy_frame f h));
}

sampled-none :
    (x : Sample) (rest : List Sample) (s : Sampler)
    → (sample_once x.ts x.readings s).1.frame ≡ none
    → sampled (x ∷ rest) s ≡ sampled rest (sample_once x.ts x.readings s).0
unfolding sampled
sampled-none x rest s e = rw (sampled, e) refl

sampled-some :
    (x : Sample) (rest : List Sample) (s : Sampler) (f : Frame)
    → (sample_once x.ts x.readings s).1.frame ≡ some f
    → let later = sampled rest (sample_once x.ts x.readings s).0 in
      sampled (x ∷ rest) s ≡ (later.0, f ∷ later.1)
unfolding sampled
sampled-some x rest s f e = rw (sampled, e) refl

-- The runtime is where the sampler is after its frames, and the publisher and the injector are
-- where these frames, transformed, lead them.
abbrev pub Follows :
    {H : Type 0}
    → Runtime (LiveInjector × H)
    → Sampler × List Frame
    → Publisher Frame
    → LiveInjector
    → Type 0
Follows r (s, frames) p l =
    (r.sampler ≡ s)
    × (r.publisher ≡ publish_all (transform_all frames l).1 p)
    × (r.hooked.0 ≡ (transform_all frames l).0)

module _ {H : Type 0} (on_result : Option (SampleResult → H → H))
    (on_frame : Option (Frame → H → H)) where
  abbrev pub at : Sampler → Publisher Frame → LiveInjector → H → Runtime (LiveInjector × H)
  at s p l h = record { sampler = s; publisher = p; hooked = (l, h) }

  tick_none :
      (x : Sample) (s : Sampler) (p : Publisher Frame) (l : LiveInjector) (h : H)
      → (sample_once x.ts x.readings s).1.frame ≡ none
      → tick (injecting on_result on_frame) x (at s p l h)
        ≡ at
            (sample_once x.ts x.readings s).0
            p
            l
            (call_hook on_result (sample_once x.ts x.readings s).1 h)
  unfolding tick pass_on
  tick_none x s p l h e = rw (tick, e) refl

  tick_some :
      (x : Sample) (s : Sampler) (p : Publisher Frame) (l : LiveInjector) (h : H) (f : Frame)
      → (sample_once x.ts x.readings s).1.frame ≡ some f
      → tick (injecting on_result on_frame) x (at s p l h)
        ≡ at (sample_once x.ts x.readings s).0 (publish (transform f l).1 p) (transform f l).0 (
            call_hook on_frame
              (transform f l).1
              (call_hook on_result (sample_once x.ts x.readings s).1 h))
  unfolding tick pass_on
  tick_some x s p l h f e = rw (tick, e) refl

  -- Over any ticks, the publisher is given exactly the frames of the sampler, in order and as the
  -- live injector transforms them, and the sampler and the injector go on as if they were alone: the
  -- health bookkeeping and the monitoring, whatever they do to their own state, change nothing of
  -- it.
  pub telemetry_lem :
      (xs : List Sample) (s : Sampler) (p : Publisher Frame) (l : LiveInjector) (h : H)
      → Follows (run (injecting on_result on_frame) xs (at s p l h)) (sampled xs s) p l
  unfolding run sampled publish_all transform_all
  telemetry_lem [] s p l h = (refl, refl, refl)
  telemetry_lem (x ∷ rest) s p l h =
      let s' = (sample_once x.ts x.readings s).0 in
      let h' = call_hook on_result (sample_once x.ts x.readings s).1 h in
      let hooks = injecting on_result on_frame in
      elim (Option-cases (sample_once x.ts x.readings s).1.frame) [
        | inl e ↦
            subst (λ r. Follows (run hooks rest r) (sampled (x ∷ rest) s) p l)
              (sym (tick_none x s p l h e))
              (subst (λ sf. Follows (run hooks rest (at s' p l h')) sf p l)
                (sym (sampled-none x rest s e)) (telemetry_lem rest s' p l h'))
        | inr (f, e) ↦
            let next =
              at s' (publish (transform f l).1 p) (transform f l).0
                (call_hook on_frame (transform f l).1 h') in
            subst (λ r. Follows (run hooks rest r) (sampled (x ∷ rest) s) p l)
              (sym (tick_some x s p l h f e))
              (subst (λ sf. Follows (run hooks rest next) sf p l) (sym (sampled-some x rest s f e))
                (telemetry_lem rest s' (publish (transform f l).1 p) (transform f l).0
                  (call_hook on_frame (transform f l).1 h')))
      ]
