-- ===== src/Injection/Equivalence.antt =====
-- The live injection of edge/injection/live.py against the transforms of injections.py.
use shtapm.Base.{
  ℕ, zero, suc, ◌+◌, ◌-◌, ◌≤◌, ◌<◌, ◌≡◌, refl, ◌∙◌, ap, subst, true, false, leb, Option, none, some,
  List, [], ◌∷◌, ◌++◌, append_assoc, length, length-append, arith, leb→le, if◌then◌else◌,
  Bool-cases, inl, inr,
}
use shtapm.Base.Ratio.{Ratio, ◌+r◌}
use shtapm.Contracts.{Channel}
use shtapm.Acquisition.Sampler.{Frame}
use shtapm.Acquisition.RingBuffer.{push}
use shtapm.Injection.Transforms.{
  Injection, InjectionType, drift, spike, stuck_at, bias_fdi, ramp_fdi, replay, constant_spoof,
  adaptive_stealth_fdi, is_active, get_frame, value_at, scale_by, capped, channel_value,
  rebuild_with, injected_value, inject_frame, inject_from,
}
use shtapm.Injection.Live.{
  Active, LiveInjector, end_index, transform_active, transform, transform_all,
}

get_frame-append :
    (xs ys : List Frame) (i : ℕ)
    → i < length xs
    → (f : Frame) × (get_frame xs i ≡ some f) × (get_frame (xs ++ ys) i ≡ some f)
get_frame-append [] ys i h = ground arith
get_frame-append (x ∷ xs) ys zero h = (x, refl, refl)
get_frame-append (x ∷ xs) ys (suc i) h = get_frame-append xs ys i (omega (arith, h))

-- The source of a replay starts no later than the onset.
abbrev pub IsSourced : ℕ → InjectionType → Type 0
IsSourced onset (replay source_onset) = source_onset ≤ onset
IsSourced onset _ = Unit

-- A frame's value is the same in a longer stream.
abbrev SameValue : Channel → (Ratio → Ratio) → List Frame → List Frame → ℕ → Type 0
SameValue ch g xs ys i =
    (v : Ratio) × (value_at g ch (get_frame xs i) ≡ some v)
    × (value_at g ch (get_frame (xs ++ ys) i) ≡ some v)

value_at-append :
    (ch : Channel) (g : Ratio → Ratio) (xs ys : List Frame) (i : ℕ)
    → i < length xs
    → SameValue ch g xs ys i
value_at-append ch g xs ys i h =
    let (f, a, b) = get_frame-append xs ys i h in (g (channel_value f ch), rw a refl, rw b refl)

-- An active index has its value from the frames up to it.
injected_value-append :
    (inj : Injection) (t : InjectionType) (xs ys : List Frame) (i : ℕ)
    → IsSourced inj.onset t
    → inj.onset ≤ i
    → i < length xs
    → (v : Ratio) × (injected_value (record inj { injection_type = t }) i xs ≡ some v)
      × (injected_value (record inj { injection_type = t }) i (xs ++ ys) ≡ some v)
unfolding injected_value
injected_value-append inj (drift rate) xs ys i s o h =
    value_at-append inj.channel (λ v. v +r scale_by (i - inj.onset + 1) rate) xs ys i h
injected_value-append inj (spike amplitude) xs ys i s o h =
    value_at-append inj.channel (λ v. v +r amplitude) xs ys i h
injected_value-append inj (stuck_at none) xs ys i s o h =
    value_at-append inj.channel (λ v. v) xs ys inj.onset (omega (arith, o, h))
injected_value-append inj (stuck_at (some held)) xs ys i s o h = (held, refl, refl)
injected_value-append inj (bias_fdi bias) xs ys i s o h =
    value_at-append inj.channel (λ v. v +r bias) xs ys i h
injected_value-append inj (ramp_fdi slope) xs ys i s o h =
    value_at-append inj.channel (λ v. v +r scale_by (i - inj.onset + 1) slope) xs ys i h
injected_value-append inj (replay source) xs ys i s o h =
    value_at-append inj.channel (λ v. v) xs ys (source + (i - inj.onset)) (omega (arith, s, o, h))
injected_value-append inj (constant_spoof value) xs ys i s o h = (value, refl, refl)
injected_value-append inj (adaptive_stealth_fdi rate cap) xs ys i s o h =
    value_at-append inj.channel (λ v. v +r capped cap (scale_by (i - inj.onset + 1) rate)) xs ys i h

-- An injection that is running on a stream which has reached its onset.
pub record IsRunning (a : Active) : Type 0 where
  pub channel : a.command.channel ≡ a.injection.channel
  pub sourced : IsSourced a.injection.onset a.injection.injection_type
  pub started : a.injection.onset ≤ length a.stream
  pub unfinished : length a.stream < end_index a

extended : Active → Frame → Active
extended a f = record a { stream = a.stream ++ f ∷ [] }

length-extended : (a : Active) (f : Frame) → length (extended a f).stream ≡ suc (length a.stream)
unfolding extended
length-extended a f = omega (arith, length-append a.stream (f ∷ []))

extended-IsRunning :
    (a : Active) (f : Frame)
    → IsRunning a
    → leb (end_index a) (suc (length a.stream)) ≡ false
    → IsRunning (extended a f)
unfolding extended
extended-IsRunning a f h more =
    let size : length (a.stream ++ f ∷ []) ≡ suc (length a.stream) = length-extended a f in
    let begun = h.started in
    record {
      channel = h.channel;
      sourced = h.sourced;
      started = omega (arith, size, begun);
      unfinished = rw size (ground arith);
    }

-- The step of an injection whose value is known.
transform_active_lem :
    (a : Active) (f : Frame) (v : Ratio)
    → injected_value a.injection (length a.stream) (a.stream ++ f ∷ []) ≡ some v
    → transform_active f a ≡ (
      if leb (end_index a) (suc (length a.stream)) then none else some (extended a f),
      rebuild_with f a.command.channel v,
    )
unfolding transform_active extended
transform_active_lem a f v e =
    let size : length (a.stream ++ f ∷ []) ≡ suc (length a.stream) =
      omega (arith, length-append a.stream (f ∷ [])) in
    let last : suc (length a.stream) - 1 ≡ length a.stream = omega arith in
    rw (size, last, e, size) refl

inject_frame_lem :
    (a : Active) (f : Frame) (all : List Frame) (v : Ratio)
    → IsRunning a
    → injected_value a.injection (length a.stream) all ≡ some v
    → inject_frame a.injection all (length a.stream) f ≡ some (rebuild_with f a.command.channel v)
unfolding inject_frame
inject_frame_lem a f all v h e =
    let begun = h.started in
    let due = h.unfinished in
    let active : is_active a.injection (length a.stream) ≡ true = ground arith in
    rw (active, e, h.channel) refl

-- Live and offline, a running injection makes the same of the next frame.
transformed :
    (a : Active) (f : Frame) (rest : List Frame)
    → IsRunning a
    → (out : Frame) × (transform_active f a
        ≡ (if leb (end_index a) (suc (length a.stream)) then none else some (extended a f), out))
      × (inject_frame a.injection (a.stream ++ f ∷ rest) (length a.stream) f ≡ some out)
transformed a f rest h =
    let room : length a.stream < length (a.stream ++ f ∷ []) =
      omega (arith, length-append a.stream (f ∷ [])) in
    let (v, now, all) =
      injected_value-append a.injection a.injection.injection_type (a.stream ++ f ∷ []) rest
        (length a.stream) h.sourced h.started room in
    (
      rebuild_with f a.command.channel v,
      transform_active_lem a f v now,
      inject_frame_lem a f (a.stream ++ f ∷ rest) v h (
          subst (λ s. injected_value a.injection (length a.stream) s ≡ some v)
            (append_assoc a.stream (f ∷ []) rest) all),
    )

-- Frames outside the window of an injection stay as they are.
after_end :
    (inj : Injection) (all : List Frame) (i : ℕ) (fs : List Frame)
    → inj.onset + inj.duration ≤ i
    → inject_from inj all i fs ≡ some fs
unfolding inject_from inject_frame
after_end inj all i [] h = refl
after_end inj all i (f ∷ fs) h =
    let past : is_active inj i ≡ false = ground arith in
    rw (past, after_end inj all (suc i) fs (omega (arith, h))) refl

transform-idle :
    (l : LiveInjector) (f : Frame)
    → l.active ≡ none
    → transform f l ≡ (record l { history = push f l.history }, f)
unfolding transform
transform-idle l f h = rw h refl

transform-running :
    (l : LiveInjector) (f : Frame) (a : Active) (next : Option Active) (out : Frame)
    → l.active ≡ some a
    → transform_active f a ≡ (next, out)
    → transform f l ≡ (record l { history = push f l.history; active = next }, out)
unfolding transform
transform-running l f a next out h e = rw (h, e) refl

transform_all-idle :
    (l : LiveInjector) (fs : List Frame) → l.active ≡ none → (transform_all fs l).1 ≡ fs
unfolding transform_all
transform_all-idle l [] h = refl
transform_all-idle l (f ∷ fs) h =
    ap (λ t. t.1 ∷ (transform_all fs t.0).1) (transform-idle l f h)
    ∙ ap (λ rest. f ∷ rest) (transform_all-idle (record l { history = push f l.history }) fs h)

-- The frames of a stream, injected live from a running state and offline from there on.
pub runs_offline :
    (fs : List Frame) (l : LiveInjector) (a : Active)
    → l.active ≡ some a
    → IsRunning a
    → inject_from a.injection (a.stream ++ fs) (length a.stream) fs ≡ some (transform_all fs l).1
unfolding inject_from transform_all extended
runs_offline [] l a e h = refl
runs_offline (f ∷ fs) l a e h =
    let (out, live, off) = transformed a f fs h in
    elim (Bool-cases (leb (end_index a) (suc (length a.stream)))) [
      | inl done ↦
          let over : transform_active f a ≡ (none, out) =
            live ∙ ap (λ b. (if b then none else some (extended a f), out)) done in
          let next = transform-running l f a none out e over in
          rw
            (
              off,
              next,
              transform_all-idle (record l { history = push f l.history; active = none }) fs refl,
              after_end a.injection (a.stream ++ f ∷ fs) (suc (length a.stream)) fs
                  (leb→le _ _ done),
            )
            refl
      | inr more ↦
          let on : transform_active f a ≡ (some (extended a f), out) =
            live ∙ ap (λ b. (if b then none else some (extended a f), out)) more in
          let next = transform-running l f a (some (extended a f)) out e on in
          let rest =
            runs_offline fs (record l { history = push f l.history; active = some (extended a f) })
              (extended a f) refl (extended-IsRunning a f h more) in
          let moved =
            subst
              (λ s.
                inject_from a.injection s (suc (length a.stream)) fs
                ≡ some
                    (transform_all fs
                      (record l { history = push f l.history; active = some (extended a f) })).1)
              (append_assoc a.stream (f ∷ []) fs)
              (subst
                (λ n.
                  inject_from a.injection ((a.stream ++ f ∷ []) ++ fs) n fs
                  ≡ some
                      (transform_all fs
                        (record l { history = push f l.history; active = some (extended a f) })).1)
                (length-extended a f) rest) in
          rw (off, next, moved) refl
    ]
