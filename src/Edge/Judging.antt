-- ===== src/Edge/Judging.antt =====
-- The judgement of one window in the composition of edge/main.py.
use shtapm.Base.{
  ◌≤◌, ◌≡◌, refl, Bool, true, false, some, List, length, arith, Bool-cases, inl, inr, not,
}
use shtapm.Base.Ratio.{Ratio}
use shtapm.Contracts.{Channel, ChannelSet}
use shtapm.Trust.Detection.{IsUnit}
use shtapm.Trust.Engine.{Provider, reading_of}
use shtapm.Trust.Readings.{evidence}
use shtapm.Trust.Beta.{decay}
use shtapm.Trust.Reliability.{average-IsUnit}
use shtapm.Isolation.{TrustMap}
use shtapm.Isolation.History.{IsBanded}
use shtapm.Acquisition.Sampler.{Frame}
use shtapm.Anomaly.Preprocess.{Window, slice}
use shtapm.Anomaly.Detector.{AnomalyDetector, AnomalyResult, detect, in_unit, new_result}
use shtapm.Anomaly.FlagPolicy.{FlagPolicy, flags, is_outlier, window_channel_variance}
use shtapm.Anomaly.Consistency.{Consistency, record_window, consistency_of, rms_z}
use shtapm.Anomaly.Physics.{RawWindow, observe_raw_window}
use shtapm.Anomaly.Pipeline.{Pipeline}
use shtapm.Anomaly.Evidence.{IsReady, process_window_lem, next_pipeline, outcome, joined, signals}
use shtapm.Edge.Message.{Judged}
use shtapm.Edge.Wiring.{Parts, Edge, judge_one, raw_window}

-- A detector that always answers, with a severity in [0, 1].
pub record IsTotalDetector {D : Type 0} (detector : AnomalyDetector D) : Type 0 where
  pub flag_of : Window → D → Bool
  pub flags : (w : Window) (d : D) → detector.flag w d ≡ some (flag_of w d)
  pub score_of : Window → D → Ratio
  pub scores : (w : Window) (d : D) → detector.score w d ≡ some (score_of w d)
  pub bounded : (w : Window) (d : D) → in_unit (score_of w d) ≡ true

-- A c provider that is fitted on some windows.
pub record IsFitted (c : Consistency) : Type 0 where
  pub fitted : c.fitted ≡ true
  pub baseline : (ch : Channel) → 1 ≤ length (c.train_rms_z_sorted ch)

-- What judging a window leaves of a state.
pub record Judges {S D : Type 0} (e e' : Edge S D) (o : Judged) : Type 0 where
  pub trust : TrustMap
  pub trusts : o.outcome.trust ≡ (λ ch. some (trust ch))
  pub banded : (ch : Channel) → IsBanded (trust ch)
  pub c : Consistency
  pub c_fitted : IsFitted c
  pub q : Pipeline
  pub ready : IsReady q
  pub shape : e' ≡ record e { c_provider = c; pipeline = q }

detect-some :
    {D : Type 0} (a : AnomalyDetector D) (total : IsTotalDetector a) (w : Window) (d : D)
    → detect a w d ≡ some (record { flag = total.flag_of w d; severity = total.score_of w d })
unfolding detect new_result
detect-some a total w d =
    rw (detect, total.flags w d, total.scores w d, new_result, total.bounded w d) refl

flags-some :
    (p : FlagPolicy) (w : Window) (a : AnomalyResult)
    → p.fitted ≡ true
    → (out : ChannelSet) × (flags p w a ≡ some out)
unfolding flags
flags-some p w a h = elim (Bool-cases a.flag) [
  | inr quiet ↦ (λ ch. false, rw (flags, quiet) refl)
  | inl loud ↦ (
    λ ch. is_outlier p.tail_fraction (p.train_variance_sorted ch) (window_channel_variance w ch),
    rw (flags, loud, h) refl,
  )
]

record_window-IsFitted :
    (sqrt : Ratio → Ratio) (w : Window) (c : Consistency)
    → IsFitted c
    → (c' : Consistency) × (record_window sqrt w c ≡ some c')
      × IsFitted c'
      × ((ch : Channel) → IsUnit (c'.c ch))
unfolding record_window consistency_of
record_window-IsFitted sqrt w c h = (
  record c {
    c = λ ch.
        consistency_of (c.train_rms_z_sorted ch)
          (rms_z sqrt (c.train_mean ch) (c.train_std ch) (w.features ch));
  },
  rw (record_window, h.fitted) refl,
  record { fitted = h.fitted; baseline = h.baseline },
  λ ch. (omega (arith, h.baseline ch), omega arith),
)

next_pipeline-IsReady :
    (q : Pipeline) (flagged : ChannelSet) (c : Provider) (w : RawWindow)
    → IsReady q
    → IsReady (next_pipeline q flagged c w)
unfolding observe_raw_window
next_pipeline-IsReady q flagged c w h = record {
  physics_flags = h.physics_flags;
  rule = h.rule;
  k_rule = h.k_rule;
  histories =
      λ ch. average-IsUnit (q.histories ch) (not (joined q flagged c w ch)) (h.histories ch);
}

-- The readings of a window.
abbrev trust_after : Pipeline → ChannelSet → Provider → RawWindow → TrustMap
trust_after q flagged c w ch =
    let g = evidence (signals q flagged c w) ch in reading_of g (decay (q.engine ch) g)

module _ {S D : Type 0} (p : Parts S D) (total : IsTotalDetector p.detector) where
  pub judge_one-Judges :
      (fs : List Frame) (w : Window) (e : Edge S D)
      → e.flag_policy.fitted ≡ true
      → IsFitted e.c_provider
      → IsReady e.pipeline
      → (e' : Edge S D) × (o : Judged) × (judge_one p fs w e ≡ some (e', o)) × Judges e e' o
  unfolding judge_one
  judge_one-Judges fs w e fitted c ready =
      let anomaly : AnomalyResult = record {
        flag = total.flag_of w e.detector;
        severity = total.score_of w e.detector;
      } in
      let (flagged, qf) = flags-some e.flag_policy w anomaly fitted in
      let (c', qc, fc, unit) = record_window-IsFitted p.sqrt w e.c_provider c in
      let raw = raw_window p (slice fs w.start_index w.end_index) in
      let q' = next_pipeline e.pipeline flagged c'.c raw in
      let done = process_window_lem e.pipeline flagged c'.c raw ready unit in
      (
        record e { c_provider = c'; pipeline = q' },
        record { anomaly = anomaly; outcome = outcome e.pipeline flagged c'.c raw },
        rw (judge_one, detect-some p.detector total w e.detector, qf, qc, done) refl,
        record {
          trust = trust_after e.pipeline flagged c'.c raw;
          trusts = refl;
          banded = λ ch. refl;
          c = c';
          c_fitted = fc;
          q = q';
          ready = next_pipeline-IsReady e.pipeline flagged c'.c raw ready;
          shape = refl;
        },
      )
