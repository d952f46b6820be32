-- ===== src/Rl/Feeding.antt =====
-- What a step of edge/rl/environment.py feeds to the monitor, and what it holds afterwards.
use mathlib.Core.Option.{some-injective}
use shtapm.Base.{
  Bool, true, false, not, ◌||◌, subst, Option, none, some, List, [], ◌∷◌, ◌⊎◌, ◌≡◌, refl, sym, ap,
  arith, ◌∙◌, if◌then◌else◌, inl, inr,
}
use shtapm.Base.Chain.{◌>>=◌, >>=-eq-some}
use shtapm.Base.Ratio.{Ratio}
use shtapm.Contracts.{Channel, ChannelSet, any_of, any_of-true}
use shtapm.Isolation.{TrackerResult}
use shtapm.Acquisition.Sampler.{Frame}
use shtapm.Rl.State.{RlState}
use shtapm.Rl.Gate.{is_safe_stop, request, GateDecision}
use shtapm.Rl.Environment.{
  Observation, Setting, Environment, Call, StepResult, is_isolate, hold, update_held_values,
  substituted_frame, feed_first, feed_next_frame, capture, build_state, track, gate,
  substituted_channels, transit, conclude, step_running, step,
}

pub else_some :
    {A : Type 0} (b : Bool) (m : Option A) {x : A} → (if b then none else m) ≡ some x → m ≡ some x
else_some true m h = cc
else_some false m h = h

pub if-some :
    {A : Type 0} (b : Bool) (m : Option A) {x y : A}
    → (if b then m else some x) ≡ some y
    → (m ≡ some y) ⊎ (x ≡ y)
if-some true m h = inl h
if-some false m {x} {y} h = inr (some-injective x y h)

module _ {M : Type 0} (p : Setting M) where
  substituted : ChannelSet → Frame → Environment M → Frame
  substituted chosen frame e =
      if any_of chosen then substituted_frame e.held frame chosen else frame

  -- The monitor's call in a feed that returns.
  feed_first-taken :
      (chosen : ChannelSet) (frame : Frame) (rest : List Frame) (e e' : Environment M)
      → feed_first p chosen (frame ∷ rest) e ≡ some e'
      → (m : M) × (seen : List Observation) × (p.on_frame (substituted chosen frame e) e.monitor
          ≡ some (m, seen))
        × (record e { remaining = rest; monitor = m; latest = capture e.latest seen } ≡ e')
  unfolding feed_first substituted
  feed_first-taken chosen frame rest e e' h =
      let ((m, seen), taken, q) =
        >>=-eq-some (p.on_frame (substituted chosen frame e) e.monitor)
          (λ (m, seen).
            some (record e { remaining = rest; monitor = m; latest = capture e.latest seen }))
          h in
      (m, seen, taken, some-injective _ _ q)

  pub feed_first-held :
      (chosen : ChannelSet) (frames : List Frame) (e e' : Environment M)
      → feed_first p chosen frames e ≡ some e'
      → (e'.tracked ≡ e.tracked) × (e'.held ≡ e.held)
  unfolding feed_first
  feed_first-held chosen [] e e' h = cc
  feed_first-held chosen (frame ∷ rest) e e' h =
      let (m, seen, taken, same) = feed_first-taken chosen frame rest e e' h in
      (
        sym (ap (λ (x : Environment M). x.tracked) same),
        sym (ap (λ (x : Environment M). x.held) same),
      )

  -- A frame that is fed with substitution shows the held value of each chosen channel.
  feed_first-values :
      (chosen : ChannelSet) (frames : List Frame) (e e' : Environment M) (ch : Channel) (v : Ratio)
      → feed_first p chosen frames e ≡ some e'
      → chosen ch ≡ true
      → e.held ch ≡ some v
      → (frame fed : Frame) × (seen : List Observation) × (frames ≡ frame ∷ e'.remaining)
        × (p.on_frame fed e.monitor ≡ some (e'.monitor, seen))
        × (fed.values ch ≡ v)
  unfolding feed_first substituted substituted_frame
  feed_first-values chosen [] e e' ch v h t k = cc
  feed_first-values chosen (frame ∷ rest) e e' ch v h t k =
      let (m, seen, taken, same) = feed_first-taken chosen frame rest e e' h in
      (
        frame,
        substituted chosen frame e,
        seen,
        ap (λ (x : Environment M). frame ∷ x.remaining) same,
        taken ∙ ap (λ (x : Environment M). some (x.monitor, seen)) same,
        rw (any_of-true chosen ch t, t, k) refl,
      )

  transit-held :
      (stopped : Bool) (d : GateDecision) (s s' : RlState) (e e' : Environment M)
      → transit p stopped d s e ≡ some (e', s')
      → (e'.tracked ≡ e.tracked) × (e'.held ≡ e.held)
  unfolding transit feed_next_frame
  transit-held true d s s' e e' h = ground arith
  transit-held false d s s' e e' h =
      let (e1, fed, rest) =
        >>=-eq-some (feed_next_frame p (substituted_channels p d e) e)
          (λ x. build_state p x.latest >>= λ st. some (x, st)) h in
      let (st, m, q) = >>=-eq-some (build_state p e1.latest) (λ st. some (e1, st)) rest in
      let (t, k) = feed_first-held (substituted_channels p d e) e.remaining e e1 fed in
      let same = some-injective _ _ q in
      (
        sym (ap (λ (x : Environment M × RlState). x.0.tracked) same) ∙ t,
        sym (ap (λ (x : Environment M × RlState). x.0.held) same) ∙ k,
      )

  conclude-held :
      (d : GateDecision) (status : TrackerResult) (chosen : ChannelSet) (s : RlState)
      (e e' : Environment M) (next : RlState) (r : StepResult)
      → conclude p d status chosen s (e, next) ≡ some (e', r)
      → (e'.tracked ≡ e.tracked)
        × (e'.held ≡ e.held)
        × (e'.remaining ≡ e.remaining)
        × (e'.monitor ≡ e.monitor)
        × (r.gate_decision ≡ d)
  unfolding conclude
  conclude-held d status chosen s e e' next r h = ground arith

  step_running-held :
      (c : Call) (s : RlState) (o : Observation) (e e' : Environment M) (r : StepResult)
      → step_running p c s o e ≡ some (e', r)
      → (e'.tracked ≡ (track o e).0.tracked) × (e'.held ≡ (track o e).0.held)
  unfolding step_running
  step_running-held c s o e e' r h =
      let d = gate p c s (track o e).1 in
      let stopped = is_safe_stop (request d.approved_action) in
      let ((e1, s1), moved, rest) =
        >>=-eq-some (transit p stopped d s (track o e).0)
          (conclude p d (track o e).1 (substituted_channels p d (track o e).0) s) h in
      let (t, k, _, _, _) =
        conclude-held d (track o e).1 (substituted_channels p d (track o e).0) s e1 e' s1 r rest in
      let (t1, k1) = transit-held stopped d s s1 (track o e).0 e1 moved in (t ∙ t1, k ∙ k1)

  transit-values :
      (stopped : Bool) (d : GateDecision) (s s' : RlState) (e e' : Environment M) (ch : Channel)
      (v : Ratio)
      → transit p stopped d s e ≡ some (e', s')
      → stopped ≡ false
      → substituted_channels p d e ch ≡ true
      → e.held ch ≡ some v
      → (frame fed : Frame) × (seen : List Observation) × (e.remaining ≡ frame ∷ e'.remaining)
        × (p.on_frame fed e.monitor ≡ some (e'.monitor, seen))
        × (fed.values ch ≡ v)
  unfolding transit feed_next_frame
  transit-values true d s s' e e' ch v h n t k = cc
  transit-values false d s s' e e' ch v h n t k =
      let (e1, fed, rest) =
        >>=-eq-some (feed_next_frame p (substituted_channels p d e) e)
          (λ x. build_state p x.latest >>= λ st. some (x, st)) h in
      let (st, m, q) = >>=-eq-some (build_state p e1.latest) (λ st. some (e1, st)) rest in
      let same : e1 ≡ e' = ap (λ (x : Environment M × RlState). x.0) (some-injective _ _ q) in
      subst
        (λ (x : Environment M).
          (frame fed : Frame) × (seen : List Observation) × (e.remaining ≡ frame ∷ x.remaining)
          × (p.on_frame fed e.monitor ≡ some (x.monitor, seen))
          × (fed.values ch ≡ v))
        same (feed_first-values (substituted_channels p d e) e.remaining e e1 ch v fed t k)

  isolate_is_no_stop :
      (d : GateDecision) (e : Environment M) (ch : Channel)
      → substituted_channels p d e ch ≡ true
      → is_safe_stop (request d.approved_action) ≡ false
  isolate_is_no_stop d e ch h = ground arith

  -- The step gives the channel that it substitutes the held value.
  pub step_running-values :
      (c : Call) (s : RlState) (o : Observation) (e e' : Environment M) (r : StepResult)
      (ch : Channel) (v : Ratio)
      → step_running p c s o e ≡ some (e', r)
      → is_isolate r.gate_decision.approved_action ≡ true
      → e'.tracked ch ≡ true
      → e.held ch ≡ some v
      → (frame fed : Frame) × (seen : List Observation) × (e.remaining ≡ frame ∷ e'.remaining)
        × (p.on_frame fed e.monitor ≡ some (e'.monitor, seen))
        × (fed.values ch ≡ v)
  unfolding step_running track update_held_values
  step_running-values c s o e e' r ch v h isolates t k =
      let d = gate p c s (track o e).1 in
      let stopped = is_safe_stop (request d.approved_action) in
      let chosen = substituted_channels p d (track o e).0 in
      let ((e1, s1), moved, rest) =
        >>=-eq-some (transit p stopped d s (track o e).0) (conclude p d (track o e).1 chosen s) h in
      let (_, _, left, same, decided) = conclude-held d (track o e).1 chosen s e1 e' s1 r rest in
      let (sets, _) = step_running-held c s o e e' r h in
      let tracked : (track o e).0.tracked ch ≡ true =
        sym (ap (λ (f : ChannelSet). f ch) sets) ∙ t in
      let kept : (track o e).0.held ch ≡ some v = rw (tracked, k) refl in
      let approved : is_isolate d.approved_action ≡ true =
        sym (ap (λ (x : GateDecision). is_isolate x.approved_action) decided) ∙ isolates in
      let picked : chosen ch ≡ true = rw (approved, tracked, k) refl in
      let (frame, fed, seen, q, taken, shown) =
        transit-values stopped d s s1 (track o e).0 e1 ch v moved
          (isolate_is_no_stop d (track o e).0 ch picked) picked kept in
      (
        frame,
        fed,
        seen,
        q ∙ ap (λ (x : List Frame). frame ∷ x) (sym left),
        taken ∙ ap (λ (m : M). some (m, seen)) (sym same),
        shown,
      )

  pub step-running :
      (c : Call) (e e' : Environment M) (r : StepResult)
      → step p c e ≡ some (e', r)
      → (s : RlState) × (o : Observation) × (e.latest ≡ some o)
        × (step_running p c s o e ≡ some (e', r))
  unfolding step
  step-running c e e' r h =
      let go = else_some (not e.has_reset || e.done) _ h in
      let (s, m, rest) =
        >>=-eq-some e.last_state (λ s. e.latest >>= λ o. step_running p c s o e) go in
      let (o, k, q) = >>=-eq-some e.latest (λ o. step_running p c s o e) rest in (s, o, k, q)

  pub step-held :
      (c : Call) (e e' : Environment M) (r : StepResult) (ch : Channel)
      → step p c e ≡ some (e', r)
      → (o : Observation) × (e.latest ≡ some o)
        × (e'.held ch ≡ hold (e'.tracked ch) (e.held ch) (some o) ch)
  unfolding track update_held_values
  step-held c e e' r ch h =
      let (s, o, m, q) = step-running c e e' r h in
      let (t, k) = step_running-held c s o e e' r q in
      (o, m, ap (λ (f : Channel → Option Ratio). f ch) k ∙ rw (t, sym m) refl)
