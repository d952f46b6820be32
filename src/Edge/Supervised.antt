-- ===== src/Edge/Supervised.antt =====
-- What the handler of edge/main.py asks of the safety supervisor.
use mathlib.Core.Option.{some-injective}
use native.Mathlib.Nat.{zero-add, suc-add}
use shtapm.Base.{
  ℕ, zero, suc, ◌+◌, ◌-◌, ◌≤◌, ◌≡◌, refl, sym, ap, subst, ◌∙◌, Option, none, some, List, [], ◌∷◌,
  arith, Bool-cases, Option-cases, inl, inr,
}
use shtapm.Base.Ratio.{Ratio}
use shtapm.Base.Chain.{◌>>=◌, >>=-eq-some}
use shtapm.Contracts.{Channel, current}
use shtapm.Actuation.Supervisor.{
  Moment, Supervisor, Call, given, safe_stop, frames, safe_stops, stop_safely, step, run,
}
use shtapm.Isolation.{TrustMap, TrackerResult, update}
use shtapm.Acquisition.Board.{stale}
use shtapm.Acquisition.Sampler.{Frame}
use shtapm.Heal.Orchestrator.{Settings, Orchestrator, process_known, judge, end_episode}
use shtapm.Heal.Runtime.{Bundle, Round, scaled_window, last_frame, substitute, heal_target}
use shtapm.Heal.Serving.{healed}
use shtapm.Anomaly.Preprocess.{Window, process}
use shtapm.Anomaly.Monitor.{Effect, fits_on, emits, on_frame as monitor_frame}
use shtapm.Edge.Message.{Judged, trust_map}
use shtapm.Edge.Wiring.{
  Parts, Edge, Times, escalation_text, escalate, round_of, run_self_heal, report, judge_one,
  judge_all, report_one, report_all, emit_window, fit_all, perform, take_frame, on_healthy_frame,
}

stops_grow :
    {W : Type 0} (c : Settings W) (s : Orchestrator) (ch : Channel) (w : W) (raw trust : Ratio)
    (opened now : ℕ)
    → s.safe_stops ≤ (process_known c s ch w raw trust opened now).0.safe_stops
unfolding process_known judge
stops_grow c s ch w raw trust opened now = ground arith

-- A call of the runtime takes no request for a safe stop back.
substitute_grows :
    (b : Bundle) (r : Round) (s : Orchestrator) → s.safe_stops ≤ (substitute b r s).0.safe_stops
unfolding substitute end_episode heal_target
substitute_grows b r s = elim (Bool-cases (r.isolated b.channel)) [
  | inr e ↦ rw (substitute, e) (omega arith)
  | inl e ↦ elim (Option-cases (scaled_window b r.frames)) [
    | inl n ↦ rw (substitute, e, n) (omega arith)
    | inr (w, q) ↦ elim (Option-cases (last_frame r.frames)) [
      | inl n ↦ rw (substitute, e, q, heal_target, n) (omega arith)
      | inr (f, l) ↦
          rw (substitute, e, q, heal_target, l)
            (subst (λ (o : Orchestrator). s.safe_stops ≤ o.safe_stops) (sym (healed b r s w f))
              (stops_grow b.settings s b.channel w (f.values b.channel) (r.trust b.channel) r.opened
                r.now))
    ]
  ]
]

-- The escalations, as calls of the supervisor.
unfoldable pub stop_calls : ℕ → Moment → List (Moment × Call)
stop_calls zero m = []
stop_calls (suc n) m = (m, safe_stops escalation_text) ∷ stop_calls n m

module _ {S D : Type 0} (p : Parts S D) where
  escalate_add :
      (n k : ℕ) (m : Moment) (s : Supervisor S)
      → escalate p k m (escalate p n m s) ≡ escalate p (n + k) m s
  unfolding escalate
  escalate_add zero k m s = rw (zero-add k) refl
  escalate_add (suc n) k m s =
      rw (suc-add n k)
        (escalate_add n k m (stop_safely p.actuator s safe_stop (given escalation_text) m))

  -- From e to e', the supervisor was asked to stop once for each call of the orchestrator, and
  -- nothing else.
  abbrev pub Escalates : Times → Edge S D → Edge S D → Type 0
  Escalates t e e' =
      (n : ℕ) × (e'.supervisor ≡ escalate p n t.stop e.supervisor)
      × (e'.healer.safe_stops ≡ e.healer.safe_stops + n)

  Escalates-trans :
      (t : Times) (e e' e'' : Edge S D) → Escalates t e e' → Escalates t e' e'' → Escalates t e e''
  Escalates-trans t e e' e'' (n, s, h) (k, s', h') = (
    n + k,
    s' ∙ ap (escalate p k t.stop) s ∙ escalate_add n k t.stop e.supervisor,
    omega (arith, h, h'),
  )

  -- Neither the supervisor nor the orchestrator has moved.
  abbrev Untouched : Edge S D → Edge S D → Type 0
  Untouched e e' = (e'.supervisor ≡ e.supervisor) × (e'.healer ≡ e.healer)

  untouched : (t : Times) (e e' : Edge S D) → Untouched e e' → Escalates t e e'
  unfolding escalate
  untouched t e e' (s, h) = (0, s, omega (arith, ap (λ (o : Orchestrator). o.safe_stops) h))

  heal-Escalates :
      (b : Option Bundle) (t : Times) (trust : TrustMap) (tracked : TrackerResult) (e : Edge S D)
      → Escalates t e (run_self_heal p b t trust tracked e).0
  unfolding run_self_heal
  heal-Escalates none t trust tracked e = untouched t e e (refl, refl)
  heal-Escalates (some b) t trust tracked e =
      let r = round_of p t trust tracked e.recent_frames in
      let s' = (substitute b r e.healer).0 in
      (s'.safe_stops - e.healer.safe_stops, refl, omega (arith, substitute_grows b r e.healer))

  report-Escalates :
      (t : Times) (o : Judged) (trust : TrustMap) (raw : Frame) (e : Edge S D)
      → Escalates t e (report p t o trust raw e)
  unfolding report
  report-Escalates t o trust raw e =
      let (tracked, result) = update e.tracked trust in
      heal-Escalates p.self_heal t trust result (record e { tracked = tracked })

  report_all-Escalates :
      (t : Times) (raw : Frame) (os : List Judged) (e e' : Edge S D)
      → report_all p t raw os e ≡ some e'
      → Escalates t e e'
  unfolding report_all report_one
  report_all-Escalates t raw [] e e' h =
      subst (Escalates t e) (some-injective e e' h) (untouched t e e (refl, refl))
  report_all-Escalates t raw (o ∷ os) e e' h =
      let (e1, one, rest) = >>=-eq-some (report_one p t raw o e) (report_all p t raw os) h in
      let (trust, m, q) =
        >>=-eq-some (trust_map o.outcome.trust) (λ u. some (report p t o u raw e)) one in
      Escalates-trans t e e1 e'
        (subst (Escalates t e) (some-injective _ e1 q) (report-Escalates t o trust raw e))
        (report_all-Escalates t raw os e1 e' rest)

  judge_one-Untouched :
      (fs : List Frame) (w : Window) (e e' : Edge S D) (o : Judged)
      → judge_one p fs w e ≡ some (e', o)
      → Untouched e e'
  unfolding judge_one
  judge_one-Untouched fs w e e' o h = ground arith

  fit_all-Untouched :
      (ws : List Window) (e e' : Edge S D) → fit_all p ws e ≡ some e' → Untouched e e'
  unfolding fit_all
  fit_all-Untouched ws e e' h = ground arith

  judge_all-Untouched :
      (fs : List Frame) (ws : List Window) (e e' : Edge S D) (os : List Judged)
      → judge_all p fs ws e ≡ some (e', os)
      → Untouched e e'
  unfolding judge_all
  judge_all-Untouched fs [] e e' os h = ground arith
  judge_all-Untouched fs (w ∷ ws) e e' os h =
      let ((e1, o), q, h1) =
        >>=-eq-some (judge_one p fs w e)
          (λ (e1, o). judge_all p fs ws e1 >>= λ (last, rest). some (last, o ∷ rest)) h in
      let ((last, rest), r, h2) =
        >>=-eq-some (judge_all p fs ws e1) (λ (last, rest). some (last, o ∷ rest)) h1 in
      let (s1, t1) = judge_one-Untouched fs w e e1 o q in
      let (s2, t2) = judge_all-Untouched fs ws e1 last rest r in
      let same : last ≡ e' = ap (λ (x : Edge S D × List Judged). x.0) (some-injective _ _ h2) in
      (
        sym (ap (λ (x : Edge S D). x.supervisor) same) ∙ s2 ∙ s1,
        sym (ap (λ (x : Edge S D). x.healer) same) ∙ t2 ∙ t1,
      )

  emit_window-Escalates :
      (t : Times) (fs : List Frame) (e e' : Edge S D)
      → emit_window p t fs e ≡ some e'
      → Escalates t e e'
  unfolding emit_window
  emit_window-Escalates t fs e e' h =
      let (ws, _, h1) =
        >>=-eq-some (process e.monitor.preprocessor fs)
          (λ ws.
            judge_all p fs ws e >>= λ (e1, os). last_frame fs >>= λ raw. report_all p t raw os e1)
          h in
      let ((e1, os), q, h2) =
        >>=-eq-some (judge_all p fs ws e)
          (λ (e1, os). last_frame fs >>= λ raw. report_all p t raw os e1) h1 in
      let (raw, _, h3) = >>=-eq-some (last_frame fs) (λ raw. report_all p t raw os e1) h2 in
      Escalates-trans t e e1 e' (untouched t e e1 (judge_all-Untouched fs ws e e1 os q))
        (report_all-Escalates t raw os e1 e' h3)

  perform-Escalates :
      (t : Times) (es : List Effect) (e e' : Edge S D)
      → perform p t es e ≡ some e'
      → Escalates t e e'
  unfolding perform
  perform-Escalates t [] e e' h =
      subst (Escalates t e) (some-injective e e' h) (untouched t e e (refl, refl))
  perform-Escalates t (fits_on ws ∷ es) e e' h =
      let (e1, q, h1) = >>=-eq-some (fit_all p ws e) (perform p t es) h in
      Escalates-trans t e e1 e' (untouched t e e1 (fit_all-Untouched ws e e1 q))
        (perform-Escalates t es e1 e' h1)
  perform-Escalates t (emits fs ∷ es) e e' h =
      let (e1, q, h1) = >>=-eq-some (emit_window p t fs e) (perform p t es) h in
      Escalates-trans t e e1 e' (emit_window-Escalates t fs e e1 q)
        (perform-Escalates t es e1 e' h1)

  escalate-run :
      (n : ℕ) (m : Moment) (s : Supervisor S) → escalate p n m s ≡ run p.actuator s (stop_calls n m)
  unfolding escalate run stop_calls step
  escalate-run zero m s = refl
  escalate-run (suc n) m s =
      escalate-run n m (stop_safely p.actuator s safe_stop (given escalation_text) m)

  -- What a frame is for the supervisor.
  abbrev pub frame_call : Times → Frame → Edge S D → Moment × Call
  frame_call t f e = (t.frame, frames (p.amperes (f.values current)) (stale e.board current))

  -- A frame that is handled without an exception reaches the supervisor first, with its current
  -- and whether that is held, and before anything of the monitoring. After that the monitoring
  -- calls nothing of the supervisor but its safe stop, exactly once for each time the self-heal
  -- orchestrator asks for it.
  pub on_healthy_frame_lem :
      (t : Times) (f : Frame) (e e' : Edge S D)
      → on_healthy_frame p t f e ≡ some e'
      → (n : ℕ) × (e'.supervisor
          ≡ run p.actuator e.supervisor (frame_call t f e ∷ stop_calls n t.stop))
        × (e'.healer.safe_stops ≡ e.healer.safe_stops + n)
  unfolding on_healthy_frame take_frame run step
  on_healthy_frame_lem t f e e' h =
      let e0 = take_frame p t f e in
      let ((m, es), q, h1) =
        >>=-eq-some (monitor_frame f e.monitor)
          (λ (m, es). perform p t es (record e0 { monitor = m })) h in
      let (n, s, g) = perform-Escalates t es (record e0 { monitor = m }) e' h1 in
      (n, s ∙ escalate-run n t.stop e0.supervisor, g)
