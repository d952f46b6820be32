-- ===== src/Rl/Freezing.antt =====
-- The held values of edge/rl/environment.py over an episode.
use mathlib.Core.Option.{some-injective}
use shtapm.Base.{
  ℕ, Bool, true, false, not, subst, Option, none, some, List, [], ◌∷◌, length, ltb, ◌≡◌, refl, sym,
  ap, ◌∙◌, inl, inr,
}
use shtapm.Base.Chain.{◌>>=◌, >>=-eq-some}
use shtapm.Base.Ratio.{Ratio}
use shtapm.Contracts.{Channel, ChannelSet}
use shtapm.Isolation.{no_channels}
use shtapm.Acquisition.Sampler.{Frame}
use shtapm.Rl.State.{RlState, is_missing}
use shtapm.Rl.Environment.{
  Observation, Setting, Environment, Call, StepResult, is_isolate, new_environment, hold,
  feed_next_frame, build_state, warm_up, reset, step,
}
use shtapm.Rl.Feeding.{
  else_some, if-some, feed_first-held, step-held, step_running-values, step-running,
}

-- The held channels are the tracked ones.
pub IsBookkept : {M : Type 0} → Environment M → Type 0
IsBookkept e = (ch : Channel) → is_missing (e.held ch) ≡ not (e.tracked ch)

missing-none : {A : Type 0} (x : Option A) → is_missing x ≡ true → x ≡ none
missing-none none h = refl
missing-none (some a) h = cc

same-IsBookkept :
    {M : Type 0} (e e' : Environment M)
    → (e'.tracked ≡ e.tracked) × (e'.held ≡ e.held)
    → IsBookkept e
    → IsBookkept e'
unfolding IsBookkept
same-IsBookkept e e' (t, k) i ch =
    ap (λ (f : Channel → Option Ratio). is_missing (f ch)) k
    ∙ i ch
    ∙ sym (ap (λ (f : ChannelSet). not (f ch)) t)

hold-missing :
    (b : Bool) (old : Option Ratio) (o : Observation) (ch : Channel)
    → is_missing (hold b old (some o) ch) ≡ not b
hold-missing false old o ch = refl
hold-missing true none o ch = refl
hold-missing true (some v) o ch = refl

module _ {M : Type 0} (p : Setting M) where
  -- The environment after some calls of `step`.
  unfoldable pub run : List Call → Environment M → Option (Environment M)
  unfolding step
  run [] e = some e
  run (c ∷ cs) e = do (e', r) ← step p c e; run cs e'

  -- The calls lead from one environment to the other, and each leaves the channel tracked.
  unfoldable pub StaysTracked : Channel → List Call → Environment M → Environment M → Type 0
  unfolding step
  StaysTracked ch [] e e' = e ≡ e'
  StaysTracked ch (c ∷ cs) e e' =
      (next : Environment M) × (r : StepResult) × (step p c e ≡ some (next, r))
      × (next.tracked ch ≡ true)
      × StaysTracked ch cs next e'

  step-IsBookkept :
      (c : Call) (e e' : Environment M) (r : StepResult) → step p c e ≡ some (e', r) → IsBookkept e'
  unfolding IsBookkept
  step-IsBookkept c e e' r h ch =
      let (o, m, k) = step-held p c e e' r ch h in
      ap is_missing k ∙ hold-missing (e'.tracked ch) (e.held ch) o ch

  run-IsBookkept :
      (cs : List Call) (e e' : Environment M) → IsBookkept e → run cs e ≡ some e' → IsBookkept e'
  unfolding run
  run-IsBookkept [] e e' i h = subst IsBookkept (some-injective e e' h) i
  run-IsBookkept (c ∷ cs) e e' i h =
      let ((next, r), taken, rest) = >>=-eq-some (step p c e) (λ (x, r). run cs x) h in
      run-IsBookkept cs next e' (step-IsBookkept c e next r taken) rest

  warm_up-held :
      (frames : List Frame) (e e' : Environment M)
      → warm_up p frames e ≡ some e'
      → (e'.tracked ≡ e.tracked) × (e'.held ≡ e.held)
  unfolding warm_up feed_next_frame
  warm_up-held [] e e' h =
      let same = some-injective e e' (else_some (is_missing e.latest) (some e) h) in
      (
        sym (ap (λ (x : Environment M). x.tracked) same),
        sym (ap (λ (x : Environment M). x.held) same),
      )
  warm_up-held (frame ∷ rest) e e' h =
      elim (if-some (is_missing e.latest) (feed_next_frame p no_channels e >>= warm_up p rest) h) [
        | inr same ↦ (
          sym (ap (λ (x : Environment M). x.tracked) same),
          sym (ap (λ (x : Environment M). x.held) same),
        )
        | inl chain ↦
            let (e1, fed, more) =
              >>=-eq-some (feed_next_frame p no_channels e) (warm_up p rest) chain in
            let (t, k) = feed_first-held p no_channels e.remaining e e1 fed in
            let (t1, k1) = warm_up-held rest e1 e' more in (t1 ∙ t, k1 ∙ k)
      ]

  reset-IsBookkept :
      (frames : List Frame) (n : ℕ) (m : M) (e e' : Environment M) (s : RlState)
      → new_environment frames n m ≡ some e
      → reset p e ≡ some (e', s)
      → IsBookkept e'
  unfolding new_environment reset IsBookkept
  reset-IsBookkept frames n m e e' s made h =
      let fresh = some-injective _ _ (else_some (not (ltb n (length frames))) _ made) in
      let (e1, warm, rest) =
        >>=-eq-some (warm_up p e.remaining (record e { has_reset = true }))
          (λ x. build_state p x.latest >>= λ st. some (record x { last_state = some st }, st))
          (else_some e.has_reset _ h) in
      let (st, built, q) =
        >>=-eq-some (build_state p e1.latest) (λ st. some (record e1 { last_state = some st }, st))
          rest in
      let i : IsBookkept e = subst IsBookkept fresh (λ ch. refl) in
      subst IsBookkept (ap (λ (x : Environment M × RlState). x.0) (some-injective _ _ q))
        (same-IsBookkept e e1 (warm_up-held e.remaining (record e { has_reset = true }) e1 warm) i)

  -- A held value stays while the channel is tracked.
  stays-held :
      (cs : List Call) (e e' : Environment M) (ch : Channel) (v : Ratio)
      → e.held ch ≡ some v
      → StaysTracked ch cs e e'
      → e'.held ch ≡ some v
  unfolding StaysTracked
  stays-held [] e e' ch v k h = subst (λ (x : Environment M). x.held ch ≡ some v) h k
  stays-held (c ∷ cs) e e' ch v k (next, r, taken, t, rest) =
      let (o, m, q) = step-held p c e next r ch taken in
      stays-held cs next e' ch v (q ∙ rw (t, k) refl) rest

  -- In an episode that begins with a reset, a channel that is not tracked becomes tracked by a
  -- step, stays tracked over any further steps and over a later one, in which the gate approves
  -- `isolate`. Then that step takes one generated frame and hands the monitor one frame, which
  -- shows in this channel the value that the last window before the first of these steps ended
  -- with.
  pub frozen_value_is_shown :
      (frames : List Frame) (n : ℕ) (m : M) (e0 e1 before at_entry last end : Environment M)
      (s : RlState) (history cs : List Call) (enters leaves : Call) (r r' : StepResult)
      (ch : Channel)
      → new_environment frames n m ≡ some e0
      → reset p e0 ≡ some (e1, s)
      → run history e1 ≡ some before
      → before.tracked ch ≡ false
      → step p enters before ≡ some (at_entry, r)
      → at_entry.tracked ch ≡ true
      → StaysTracked ch cs at_entry last
      → step p leaves last ≡ some (end, r')
      → is_isolate r'.gate_decision.approved_action ≡ true
      → end.tracked ch ≡ true
      → (o : Observation) × (frame fed : Frame) × (seen : List Observation) × (before.latest
          ≡ some o)
        × (last.remaining ≡ frame ∷ end.remaining)
        × (p.on_frame fed last.monitor ≡ some (end.monitor, seen))
        × (fed.values ch ≡ o.raw.values ch)
  unfolding IsBookkept
  frozen_value_is_shown frames n m e0 e1 before at_entry last end s history cs enters leaves r r' ch
        made began ran out entry tracked stays leaving isolates still =
      let book =
        run-IsBookkept history e1 before (reset-IsBookkept frames n m e0 e1 s made began) ran in
      let (o, l, q) = step-held p enters before at_entry r ch entry in
      let missing = missing-none (before.held ch) (book ch ∙ ap not out) in
      let entered : at_entry.held ch ≡ some (o.raw.values ch) = q ∙ rw (tracked, missing) refl in
      let held = stays-held cs at_entry last ch (o.raw.values ch) entered stays in
      let (s', o', l', running) = step-running p leaves last end r' leaving in
      let (frame, fed, seen, next, taken, shown) =
        step_running-values p leaves s' o' last end r' ch (o.raw.values ch) running isolates still
          held in
      (o, frame, fed, seen, l, next, taken, shown)
