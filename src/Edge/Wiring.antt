-- ===== src/Edge/Wiring.antt =====
-- The composition of edge/main.py: what a frame sets off in the safety supervisor, the P2 monitor
-- and its callbacks, with `process` of edge/anomaly/pipeline.py and `_emit` of
-- edge/pipeline/monitor.py. The detector, the driver of the relay, NumPy's square root and the
-- reading of a current in the supervisor's unit are arguments; `none` is an exception.
use shtapm.Base.{ℕ, zero, suc, ◌-◌, Option, none, some, List, [], ◌∷◌, ◌++◌, map, String}
use shtapm.Base.Int.{ℤ}
use shtapm.Base.Chain.{◌>>=◌}
use shtapm.Base.Ratio.{Ratio}
use shtapm.Contracts.{ChannelSet, current, vibration}
use shtapm.Actuation.Relay.{Actuator}
use shtapm.Actuation.Supervisor.{safe_stop, given, Moment, Supervisor, on_frame, stop_safely}
use shtapm.Isolation.{TrustMap, TrackerResult, update}
use shtapm.Acquisition.Board.{Board, stale}
use shtapm.Acquisition.Sampler.{Frame}
use shtapm.Heal.Orchestrator.{Orchestrator}
use shtapm.Heal.Runtime.{Bundle, Round, SubstitutionReport, substitute, last_frame}
use shtapm.Anomaly.Preprocess.{Window, process, slice}
use shtapm.Anomaly.Detector.{AnomalyDetector, detect}
use shtapm.Anomaly.FlagPolicy.{FlagPolicy, fit_policy, flags}
use shtapm.Anomaly.Consistency.{Consistency, fit, record_window}
use shtapm.Anomaly.Physics.{RawWindow, fit_rule}
use shtapm.Anomaly.Pipeline.{Pipeline, process_window}
use shtapm.Anomaly.Monitor.{Monitor, Effect, fits_on, emits, newest, on_frame as monitor_frame}
use shtapm.Backend.Condition.{DecisionMessage}
use shtapm.Edge.Message.{Judged, build_message, trust_map}

pub record Parts (S D : Type 0) : Type 0 where
  pub actuator : Actuator S
  pub amperes : Ratio → ℤ
  pub detector : AnomalyDetector D
  pub sqrt : Ratio → Ratio
  pub self_heal : Option Bundle
  pub window_size : ℕ

-- `decisions` holds the messages that were handed to the decision publisher, newest first.
pub record Edge (S D : Type 0) : Type 0 where
  pub board : Board
  pub supervisor : Supervisor S
  pub recent_frames : List Frame
  pub monitor : Monitor
  pub detector : D
  pub c_provider : Consistency
  pub flag_policy : FlagPolicy
  pub pipeline : Pipeline
  pub tracked : ChannelSet
  pub healer : Orchestrator
  pub decisions : List DecisionMessage

-- The clocks that one frame's processing reads.
pub record Times : Type 0 where
  pub frame : Moment
  pub opened : ℕ
  pub now : ℕ
  pub stop : Moment

abbrev pub escalation_text : String
escalation_text =
    "self-heal escalation (D018: divergence over threshold, or a channel still isolated after 60 s of substitution)"

module _ {S D : Type 0} (p : Parts S D) where
  -- `supervisor.safe_stop("safe_stop", SELF_HEAL_ESCALATION)`, as often as the orchestrator called
  -- it.
  unfoldable pub escalate : ℕ → Moment → Supervisor S → Supervisor S
  escalate zero m s = s
  escalate (suc n) m s = escalate n m (stop_safely p.actuator s safe_stop (given escalation_text) m)

  abbrev pub round_of : Times → TrustMap → TrackerResult → List Frame → Round
  round_of t trust tracked recent = record {
    trust = λ ch. (trust ch).trust;
    isolated = tracked.tracked;
    frames = recent;
    opened = t.opened;
    now = t.now;
  }

  abbrev pub after_heal :
      Times → Edge S D → Orchestrator × List SubstitutionReport → Edge S D × List SubstitutionReport
  after_heal t e (healer, reports) = (
    record e {
      healer = healer;
      supervisor = escalate (healer.safe_stops - e.healer.safe_stops) t.stop e.supervisor;
    },
    reports,
  )

  -- `_run_self_heal`, for a runtime or none.
  unfoldable pub run_self_heal :
      Option Bundle
      → Times
      → TrustMap
      → TrackerResult
      → Edge S D
      → Edge S D × List SubstitutionReport
  unfolding escalate
  run_self_heal none t trust tracked e = (e, [])
  run_self_heal (some b) t trust tracked e =
      after_heal t e (substitute b (round_of t trust tracked e.recent_frames) e.healer)

  -- `_on_outcome`, then `_on_raw_values`, of a window whose last frame is `raw`.
  unfoldable pub report : Times → Judged → TrustMap → Frame → Edge S D → Edge S D
  unfolding run_self_heal
  report t o trust raw e =
      let (tracked, result) = update e.tracked trust in
      let (healed, reports) =
        run_self_heal p.self_heal t trust result (record e { tracked = tracked }) in
      record healed {
        decisions = build_message o trust result raw reports (stale e.board) ∷ healed.decisions;
      }

  abbrev pub raw_window : List Frame → RawWindow
  raw_window frames = record {
    current_samples = map (λ (f : Frame). f.values current) frames;
    vibration_samples = map (λ (f : Frame). f.values vibration) frames;
  }

  -- The loop body of `process`.
  unfoldable pub judge_one : List Frame → Window → Edge S D → Option (Edge S D × Judged)
  judge_one frames w e = do
    anomaly ← detect p.detector w e.detector
    flagged ← flags e.flag_policy w anomaly
    c ← record_window p.sqrt w e.c_provider
    (pipeline, outcome) ←
        process_window flagged c.c (raw_window (slice frames w.start_index w.end_index)) e.pipeline
    some (
      record e { c_provider = c; pipeline = pipeline },
      record { anomaly = anomaly; outcome = outcome },
    )

  unfoldable pub judge_all : List Frame → List Window → Edge S D → Option (Edge S D × List Judged)
  judge_all frames [] e = some (e, [])
  judge_all frames (w ∷ ws) e = do
    (e', o) ← judge_one frames w e
    (last, os) ← judge_all frames ws e'
    some (last, o ∷ os)

  unfoldable pub report_one : Times → Frame → Judged → Edge S D → Option (Edge S D)
  report_one t raw o e = do trust ← trust_map o.outcome.trust; some (report t o trust raw e)

  unfoldable pub report_all : Times → Frame → List Judged → Edge S D → Option (Edge S D)
  report_all t raw [] e = some e
  report_all t raw (o ∷ os) e = do e' ← report_one t raw o e; report_all t raw os e'

  -- `_emit`.
  unfoldable pub emit_window : Times → List Frame → Edge S D → Option (Edge S D)
  emit_window t frames e = do
    windows ← process e.monitor.preprocessor frames
    (judged, os) ← judge_all frames windows e
    raw ← last_frame frames
    report_all t raw os judged

  -- The fits at the end of the warm-up.
  unfoldable pub fit_all : List Window → Edge S D → Option (Edge S D)
  fit_all windows e = do
    c ← fit p.sqrt windows e.c_provider
    d ← p.detector.fit windows e.detector
    policy ← fit_policy windows e.flag_policy
    some (record e {
      c_provider = c;
      detector = d;
      flag_policy = policy;
      pipeline = record e.pipeline { rule = fit_rule e.pipeline.rule };
    })

  unfoldable pub perform : Times → List Effect → Edge S D → Option (Edge S D)
  perform t [] e = some e
  perform t (fits_on windows ∷ rest) e = do e' ← fit_all windows e; perform t rest e'
  perform t (emits frames ∷ rest) e = do e' ← emit_window t frames e; perform t rest e'

  -- The first two lines of `_on_healthy_frame`.
  unfoldable pub take_frame : Times → Frame → Edge S D → Edge S D
  take_frame t frame e = record e {
    supervisor =
        on_frame p.actuator e.supervisor (p.amperes (frame.values current)) (stale e.board current)
          t.frame;
    recent_frames = newest p.window_size (e.recent_frames ++ frame ∷ []);
  }

  unfoldable pub on_healthy_frame : Times → Frame → Edge S D → Option (Edge S D)
  unfolding take_frame
  on_healthy_frame t frame e = do
    let e' = take_frame t frame e
    (m, effects) ← monitor_frame frame e'.monitor
    perform t effects (record e' { monitor = m })

  -- The calls of the hook for some frames, one after the other.
  unfoldable pub handle_all : List (Times × Frame) → Edge S D → Option (Edge S D)
  handle_all [] e = some e
  handle_all ((t, f) ∷ rest) e = do e' ← on_healthy_frame t f e; handle_all rest e'
