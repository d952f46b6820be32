-- ===== src/Edge/Live.antt =====
-- The handler of edge/main.py once the monitor is past its warm-up.
use shtapm.Base.{
  ℕ, suc, ◌+◌, ◌-◌, ◌≤◌, ◌<◌, ◌≡◌, refl, sym, ap, subst, true, false, some, List, [], ◌∷◌, ◌++◌,
  length, arith, length-drop, ◌==◌, min, leb, leb→le, Bool-cases, inl, inr,
}
use shtapm.Acquisition.Sampler.{Frame}
use shtapm.Anomaly.Windows.{IsPreprocessor}
use shtapm.Anomaly.Evidence.{IsReady}
use shtapm.Anomaly.Monitor.{Monitor, emits, newest, on_frame as monitor_frame, on_live_frame}
use shtapm.Edge.Wiring.{Parts, Edge, Times, perform, take_frame, on_healthy_frame, handle_all}
use shtapm.Edge.Judging.{IsTotalDetector, IsFitted}
use shtapm.Edge.Emission.{Emits, emit_window-Emits}

-- The monitor has its rolling buffer, and the parts are fitted.
pub record IsLive {S D : Type 0} (buffer : List Frame) (e : Edge S D) : Type 0 where
  pub has_buffer : e.monitor.buffer ≡ some buffer
  pub preprocessor : IsPreprocessor e.monitor.preprocessor
  pub policy : e.flag_policy.fitted ≡ true
  pub c_provider : IsFitted e.c_provider
  pub pipeline : IsReady e.pipeline

-- How many frames a buffer lacks, the next one not counted.
abbrev pub missing : ℕ → List Frame → ℕ
missing window_size buffer = window_size - 1 - length buffer

-- What a frame is once it was taken, before the monitoring.
module _ {S D : Type 0} (p : Parts S D) where
  abbrev pub window_of : Frame → Edge S D → List Frame → List Frame
  window_of f e buffer = newest e.monitor.preprocessor.window_size (buffer ++ f ∷ [])

  abbrev pub entered : Times → Frame → Edge S D → List Frame → Edge S D
  entered t f e buffer = record (take_frame p t f e) {
    monitor = record e.monitor { buffer = some (window_of f e buffer) };
  }

length-snoc : {A : Type 0} (xs : List A) (x : A) → length (xs ++ x ∷ []) ≡ suc (length xs)
length-snoc [] x = refl
length-snoc (y ∷ xs) x = ap suc (length-snoc xs x)

pub length-newest :
    (n : ℕ) (xs : List Frame) (f : Frame) → length (newest n (xs ++ f ∷ [])) ≡ min n (length xs + 1)
length-newest n xs f =
    omega (arith, length-drop (length (xs ++ f ∷ []) - n) (xs ++ f ∷ []), length-snoc xs f)

-- The monitor's effect of a frame, by whether the window is full with it.
module _ (f : Frame) (m : Monitor) (buffer : List Frame) (b : m.buffer ≡ some buffer) where
  fs : List Frame
  fs = newest m.preprocessor.window_size (buffer ++ f ∷ [])

  full_effect :
      m.preprocessor.window_size ≤ length buffer + 1
      → monitor_frame f m ≡ some (record m { buffer = some fs }, emits fs ∷ [])
  unfolding monitor_frame on_live_frame fs
  full_effect h =
      let full : (length fs == m.preprocessor.window_size) ≡ true =
        ground (arith, length-newest m.preprocessor.window_size buffer f) in
      rw (b, on_live_frame, full) refl

  quiet_effect :
      length buffer + 1 < m.preprocessor.window_size
      → monitor_frame f m ≡ some (record m { buffer = some fs }, [])
  unfolding monitor_frame on_live_frame fs
  quiet_effect h =
      let open_window : (length fs == m.preprocessor.window_size) ≡ false =
        ground (arith, length-newest m.preprocessor.window_size buffer f) in
      rw (b, on_live_frame, open_window) refl

module _ {S D : Type 0} (p : Parts S D) (total : IsTotalDetector p.detector) where
  still-IsLive :
      (t : Times) (f : Frame) (e e' : Edge S D) (buffer : List Frame) (live : IsLive buffer e)
      → Emits p t (entered p t f e buffer) e'
      → IsLive (window_of p f e buffer) e'
  unfolding take_frame
  still-IsLive t f e e' buffer live emitted =
      subst (IsLive (window_of p f e buffer)) (sym emitted.shape) (record {
        has_buffer = refl;
        preprocessor = live.preprocessor;
        policy = live.policy;
        c_provider = emitted.c_fitted;
        pipeline = emitted.ready;
      })

  -- A frame that fills the window is handled without an exception: the window has one outcome, on
  -- which the tracker, the self-heal runtime and the message follow, and the state is live again.
  pub full_frame :
      (t : Times) (f : Frame) (e : Edge S D) (buffer : List Frame) (live : IsLive buffer e)
      → e.monitor.preprocessor.window_size ≤ length buffer + 1
      → (e' : Edge S D) × (on_healthy_frame p t f e ≡ some e')
        × Emits p t (entered p t f e buffer) e'
        × IsLive (window_of p f e buffer) e'
  unfolding on_healthy_frame take_frame perform fs
  full_frame t f e buffer live full =
      let n = e.monitor.preprocessor.window_size in
      let size = length-newest n buffer f in
      let (e', q, emitted) =
        emit_window-Emits p total t (window_of p f e buffer) (entered p t f e buffer)
          live.preprocessor (omega (arith, size, full)) live.policy live.c_provider live.pipeline in
      (
        e',
        rw (on_healthy_frame, full_effect f e.monitor buffer live.has_buffer full, perform, q) refl,
        emitted,
        still-IsLive t f e e' buffer live emitted,
      )

  quiet_frame :
      (t : Times) (f : Frame) (e : Edge S D) (buffer : List Frame) (live : IsLive buffer e)
      → length buffer + 1 < e.monitor.preprocessor.window_size
      → on_healthy_frame p t f e ≡ some (entered p t f e buffer)
  unfolding on_healthy_frame take_frame perform fs
  quiet_frame t f e buffer live h =
      rw (on_healthy_frame, quiet_effect f e.monitor buffer live.has_buffer h, perform) refl

  entered-IsLive :
      (t : Times) (f : Frame) (e : Edge S D) (buffer : List Frame)
      → IsLive buffer e
      → IsLive (window_of p f e buffer) (entered p t f e buffer)
  unfolding take_frame
  entered-IsLive t f e buffer live = record {
    has_buffer = refl;
    preprocessor = live.preprocessor;
    policy = live.policy;
    c_provider = live.c_provider;
    pipeline = live.pipeline;
  }

  -- What some frames come to that lack some for a full window.
  abbrev Runs : List (Times × Frame) → Edge S D → ℕ → Type 0
  Runs xs e lacking =
      (e' : Edge S D) × (handle_all p xs e ≡ some e')
      × (length e'.decisions ≡ length e.decisions + (length xs - lacking))
      × (last : List Frame) × IsLive last e'

  after_full :
      (t : Times) (f : Frame) (xs : List (Times × Frame)) (e e1 : Edge S D) (buffer : List Frame)
      → e.monitor.preprocessor.window_size ≤ length buffer + 1
      → on_healthy_frame p t f e ≡ some e1
      → Emits p t (entered p t f e buffer) e1
      → Runs xs e1 (missing e1.monitor.preprocessor.window_size (window_of p f e buffer))
      → Runs ((t, f) ∷ xs) e (missing e.monitor.preprocessor.window_size buffer)
  unfolding handle_all take_frame
  after_full t f xs e e1 buffer full q emitted (last, r, l, held, live) =
      let one = ap (λ (x : Edge S D). length x.decisions) emitted.shape in
      let same = ap (λ (x : Edge S D). x.monitor.preprocessor.window_size) emitted.shape in
      let size = length-newest e.monitor.preprocessor.window_size buffer f in
      (last, rw (handle_all, q) r, omega (arith, l, one, same, size, full), held, live)

  after_quiet :
      (t : Times) (f : Frame) (xs : List (Times × Frame)) (e : Edge S D) (buffer : List Frame)
      → length buffer + 1 < e.monitor.preprocessor.window_size
      → on_healthy_frame p t f e ≡ some (entered p t f e buffer)
      → Runs xs
          (entered p t f e buffer)
          (missing e.monitor.preprocessor.window_size (window_of p f e buffer))
      → Runs ((t, f) ∷ xs) e (missing e.monitor.preprocessor.window_size buffer)
  unfolding handle_all take_frame
  after_quiet t f xs e buffer quiet q (last, r, l, held, live) =
      let size = length-newest e.monitor.preprocessor.window_size buffer f in
      (last, rw (handle_all, q) r, omega (arith, l, size, quiet), held, live)

  -- The edge never stops judging. From a state in which the monitor has its rolling buffer and its
  -- parts are fitted, with a detector that always answers, any frames are handled without an
  -- exception. Each hands one message to the decision publisher, but for the first
  -- window_size - 1 - b of them, where b frames are in the buffer, which hand none; and the state
  -- after them is one of the same kind.
  pub live_run :
      (xs : List (Times × Frame)) (e : Edge S D) (buffer : List Frame)
      → IsLive buffer e
      → (e' : Edge S D) × (handle_all p xs e ≡ some e')
        × (length e'.decisions
            ≡ length e.decisions + (length xs - missing e.monitor.preprocessor.window_size buffer))
        × (last : List Frame) × IsLive last e'
  unfolding handle_all take_frame
  live_run [] e buffer live = (e, refl, omega arith, buffer, live)
  live_run ((t, f) ∷ xs) e buffer live =
      elim (Bool-cases (leb e.monitor.preprocessor.window_size (length buffer + 1))) [
        | inl full ↦
            let enough = leb→le _ _ full in
            let (e1, q, emitted, live1) = full_frame t f e buffer live enough in
            after_full t f xs e e1 buffer enough q emitted
              (live_run xs e1 (window_of p f e buffer) live1)
        | inr quiet ↦
            let few : length buffer + 1 < e.monitor.preprocessor.window_size = ground arith in
            after_quiet t f xs e buffer few (quiet_frame t f e buffer live few) (
              live_run xs (entered p t f e buffer) (window_of p f e buffer)
                (entered-IsLive t f e buffer live))
      ]

  -- What a frame's entry and every window keep, the runs of a live state keep.
  pub live_run_keeps :
      (P : Edge S D → Type 0)
      → ((t : Times) (f : Frame) (e : Edge S D) (buffer : List Frame)
          → P e
          → P (entered p t f e buffer))
      → ((t : Times) (e e' : Edge S D) → Emits p t e e' → P e → P e')
      → (xs : List (Times × Frame)) (e : Edge S D) (buffer : List Frame) → IsLive buffer e
      → P e
      → (e' : Edge S D) × (handle_all p xs e ≡ some e') × P e'
  unfolding handle_all
  live_run_keeps P enters window [] e buffer live h = (e, refl, h)
  live_run_keeps P enters window ((t, f) ∷ xs) e buffer live h =
      elim (Bool-cases (leb e.monitor.preprocessor.window_size (length buffer + 1))) [
        | inl full ↦
            let (e1, q, emitted, live1) = full_frame t f e buffer live (leb→le _ _ full) in
            let (last, r, kept) =
              live_run_keeps P enters window xs e1 (window_of p f e buffer) live1
                (window t (entered p t f e buffer) e1 emitted (enters t f e buffer h)) in
            (last, rw (handle_all, q) r, kept)
        | inr quiet ↦
            let few : length buffer + 1 < e.monitor.preprocessor.window_size = ground arith in
            let (last, r, kept) =
              live_run_keeps P enters window xs (entered p t f e buffer) (window_of p f e buffer)
                (entered-IsLive t f e buffer live) (enters t f e buffer h) in
            (last, rw (handle_all, quiet_frame t f e buffer live few) r, kept)
      ]
