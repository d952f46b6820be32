-- ===== src/Edge/Emission.antt =====
-- One window of a live monitor, through the callbacks of edge/main.py.
use native.Mathlib.Nat.{zero-div, sub_self}
use shtapm.Base.{
  ℕ, suc, ◌-◌, ◌/◌, ◌≡◌, refl, ap, ◌∙◌, true, Option, none, some, List, [], ◌∷◌, length, arith, leb,
  if◌then◌else◌,
}
use shtapm.Contracts.{Channel}
use shtapm.Actuation.Supervisor.{Supervisor}
use shtapm.Isolation.{TrustMap, TrackerResult, update}
use shtapm.Isolation.History.{IsBanded}
use shtapm.Acquisition.Board.{stale}
use shtapm.Acquisition.Sampler.{Frame}
use shtapm.Heal.Orchestrator.{Orchestrator}
use shtapm.Heal.Runtime.{Bundle, SubstitutionReport, substitute}
use shtapm.Heal.Limit.{last_frame_lem}
use shtapm.Anomaly.Preprocess.{Preprocessor, process}
use shtapm.Anomaly.Windows.{
  IsPreprocessor, process_lem, window_at, windows_at, window_count, filtered_of,
}
use shtapm.Anomaly.Consistency.{Consistency}
use shtapm.Anomaly.Pipeline.{Pipeline}
use shtapm.Anomaly.Evidence.{IsReady}
use shtapm.Edge.Message.{Judged, build_message, trust_map}
use shtapm.Edge.Wiring.{
  Parts, Edge, Times, round_of, run_self_heal, report, judge_all, report_one, report_all,
  emit_window,
}
use shtapm.Edge.Judging.{IsTotalDetector, IsFitted, judge_one-Judges}

one_count : (w step : ℕ) → (if leb w w then suc ((w - w) / step) else 0) ≡ 1
one_count w step =
    let z : (w - w) / step ≡ 0 = ap (λ n. n / step) (sub_self w) ∙ zero-div step in
    ground (arith, z)

-- As many frames as the window is long make one window.
one_window :
    (p : Preprocessor) (h : IsPreprocessor p) (fs : List Frame)
    → length fs ≡ p.window_size
    → process p fs ≡ some (window_at p (filtered_of p fs) 0 ∷ [])
one_window p h fs l =
    process_lem p h fs
    ∙ ap (λ n. some (windows_at p (filtered_of p fs) n 0))
        (ap (window_count p) l ∙ one_count p.window_size p.step)

module _ {S D : Type 0} (p : Parts S D) where
  -- The orchestrator after the call of the self-heal runtime, if there is one.
  abbrev pub healer_after :
      Option Bundle → Times → TrustMap → TrackerResult → List Frame → Orchestrator → Orchestrator
  healer_after none t trust result recent s = s
  healer_after (some b) t trust result recent s =
      (substitute b (round_of p t trust result recent) s).0

  -- The reports of that call.
  abbrev pub reports_after :
      Option Bundle
      → Times
      → TrustMap
      → TrackerResult
      → List Frame
      → Orchestrator
      → List SubstitutionReport
  reports_after none t trust result recent s = []
  reports_after (some b) t trust result recent s =
      (substitute b (round_of p t trust result recent) s).1

  -- What the window of a state leads to: the c values and the pipeline of the window, the tracker
  -- and the orchestrator on its readings, and one message.
  pub record Emits (t : Times) (e e' : Edge S D) : Type 0 where
    pub trust : TrustMap
    pub banded : (ch : Channel) → IsBanded (trust ch)
    pub judged : Judged
    pub raw : Frame
    pub reports : List SubstitutionReport
    pub reports_are :
        reports
        ≡ reports_after p.self_heal t trust (update e.tracked trust).1 e.recent_frames e.healer
    pub c : Consistency
    pub c_fitted : IsFitted c
    pub q : Pipeline
    pub ready : IsReady q
    pub relay : Supervisor S
    pub shape : e' ≡ record e {
      c_provider = c;
      pipeline = q;
      tracked = (update e.tracked trust).0;
      healer = healer_after p.self_heal t trust (update e.tracked trust).1 e.recent_frames e.healer;
      supervisor = relay;
      decisions =
          build_message judged trust (update e.tracked trust).1 raw reports (stale e.board)
          ∷ e.decisions;
    }

  heal_shape :
      (b : Option Bundle) (t : Times) (trust : TrustMap) (result : TrackerResult) (e : Edge S D)
      → (s : Supervisor S) × ((run_self_heal p b t trust result e).0 ≡ record e {
        healer = healer_after b t trust result e.recent_frames e.healer;
        supervisor = s;
      })
  unfolding run_self_heal
  heal_shape none t trust result e = (e.supervisor, refl)
  heal_shape (some b) t trust result e = (_, refl)

  heal_reports :
      (b : Option Bundle) (t : Times) (trust : TrustMap) (result : TrackerResult) (e : Edge S D)
      → (run_self_heal p b t trust result e).1
        ≡ reports_after b t trust result e.recent_frames e.healer
  unfolding run_self_heal
  heal_reports none t trust result e = refl
  heal_reports (some b) t trust result e = refl

  report_shape :
      (t : Times) (o : Judged) (trust : TrustMap) (raw : Frame) (e : Edge S D)
      → let (tracked, result) = update e.tracked trust in
        let (healed, reports) =
          run_self_heal p p.self_heal t trust result (record e { tracked = tracked }) in
        (s : Supervisor S) × (report p t o trust raw e ≡ record e {
          tracked = tracked;
          healer = healer_after p.self_heal t trust result e.recent_frames e.healer;
          supervisor = s;
          decisions = build_message o trust result raw reports (stale e.board) ∷ e.decisions;
        })
  unfolding report
  report_shape t o trust raw e =
      let (tracked, result) = update e.tracked trust in
      let e0 : Edge S D = record e { tracked = tracked } in
      let reports = (run_self_heal p p.self_heal t trust result e0).1 in
      let (s, q) = heal_shape p.self_heal t trust result e0 in
      (
        s,
        ap
            (λ (h : Edge S D). record h {
              decisions = build_message o trust result raw reports (stale e.board) ∷ h.decisions;
            })
            q,
      )

  -- A full window of a fitted state is judged and reported, without an exception.
  pub emit_window-Emits :
      IsTotalDetector p.detector
      → (t : Times) (fs : List Frame) (e : Edge S D) → IsPreprocessor e.monitor.preprocessor
      → length fs ≡ e.monitor.preprocessor.window_size
      → e.flag_policy.fitted ≡ true
      → IsFitted e.c_provider
      → IsReady e.pipeline
      → (e' : Edge S D) × (emit_window p t fs e ≡ some e') × Emits t e e'
  unfolding emit_window judge_all report_all report_one trust_map
  emit_window-Emits total t fs e pre full policy c ready =
      let w = window_at e.monitor.preprocessor (filtered_of e.monitor.preprocessor fs) 0 in
      let (raw, l) = last_frame_lem fs (omega (arith, full, pre.window_size)) in
      let (e1, o, j, judged) = judge_one-Judges p total fs w e policy c ready in
      let e2 : Edge S D = record e { c_provider = judged.c; pipeline = judged.q } in
      let trust = judged.trust in
      let (s, shape) = report_shape t o trust raw e2 in
      (
        report p t o trust raw e2,
        rw
            (
              emit_window,
              one_window e.monitor.preprocessor pre fs full,
              judge_all,
              j,
              l,
              report_all,
              report_one,
              judged.trusts,
              judged.shape,
            )
            refl,
        record {
          trust = trust;
          banded = judged.banded;
          judged = o;
          raw = raw;
          reports =
              (run_self_heal p p.self_heal t trust (update e.tracked trust).1
                (record e2 { tracked = (update e.tracked trust).0 })).1;
          reports_are =
              heal_reports p.self_heal t trust (update e.tracked trust).1
                (record e2 { tracked = (update e.tracked trust).0 });
          c = judged.c;
          c_fitted = judged.c_fitted;
          q = judged.q;
          ready = judged.ready;
          relay = s;
          shape = shape;
        },
      )
