-- ===== src/Anomaly/Monitor.antt =====
-- `LiveP2Monitor` of edge/pipeline/monitor.py. What it makes the injected parts do is a list of
-- effects: to fit on windows (the c provider, then the additional targets), and to process the
-- frames of one window, after which the callbacks run. The parts do not raise.
use shtapm.Base.{
  ℕ, ◌+◌, ◌-◌, ◌*◌, Bool, true, false, not, ltb, ◌==◌, Option, none, some, List, [], ◌∷◌, ◌++◌,
  length, drop, if◌then◌else◌,
}
use shtapm.Acquisition.Sampler.{Frame}
use shtapm.Anomaly.Preprocess.{Window, Preprocessor, process}

pub data Effect : Type 0 where
  fits_on : List Window → Effect
  emits : List Frame → Effect

pub record Monitor : Type 0 where
  pub preprocessor : Preprocessor
  pub fit_buffer_size : ℕ
  pub warmup_buffer : List Frame
  pub buffer : Option (List Frame)

-- The last n of a list, `xs[-n:]` for a positive n; a `deque(maxlen=n)` keeps these.
abbrev pub newest : ℕ → List Frame → List Frame
newest n xs = drop (length xs - n) xs

-- The state that warms up on a number of windows.
abbrev pub warming : Preprocessor → ℕ → Monitor
warming p count = record {
  preprocessor = p;
  fit_buffer_size = p.window_size + (count - 1) * p.step;
  warmup_buffer = [];
  buffer = none;
}

-- `__init__`, for the flag `prefitted`, whether the c provider is fitted, and
-- `fit_window_count`; `none` is a ValueError.
unfoldable pub new_monitor : Preprocessor → Bool → Bool → Option ℕ → Option Monitor
new_monitor p true fitted count =
    if not fitted
    then none
    else some
        (record { preprocessor = p; fit_buffer_size = 0; warmup_buffer = []; buffer = some [] })
new_monitor p false fitted none = none
new_monitor p false fitted (some count) = if count == 0 then none else some (warming p count)

-- The branch of a monitor that has its rolling buffer.
unfoldable pub on_live_frame : Frame → List Frame → Monitor → Monitor × List Effect
on_live_frame frame buffer m =
    let frames = newest m.preprocessor.window_size (buffer ++ frame ∷ []) in
    (
      record m { buffer = some frames },
      if length frames == m.preprocessor.window_size then emits frames ∷ [] else [],
    )

-- The end of the warm-up, with the windows to fit on; `none` is an exception.
abbrev pub finish_warmup :
    List Frame → Option (List Window) → Monitor → Option (Monitor × List Effect)
finish_warmup frames none m = none
finish_warmup frames (some windows) m =
    let seed = newest m.preprocessor.window_size frames in
    some (record m { warmup_buffer = []; buffer = some seed }, fits_on windows ∷ emits seed ∷ [])

unfoldable pub on_warmup_frame : Frame → Monitor → Option (Monitor × List Effect)
on_warmup_frame frame m =
    let frames = m.warmup_buffer ++ frame ∷ [] in
    let finished = finish_warmup frames (process m.preprocessor frames) m in
    if ltb (length frames) m.fit_buffer_size
    then some (record m { warmup_buffer = frames }, [])
    else finished

unfoldable pub on_frame : Frame → Monitor → Option (Monitor × List Effect)
on_frame frame m = elim m.buffer [
  | some buffer ↦ some (on_live_frame frame buffer m)
  | none ↦ on_warmup_frame frame m
]

-- The effects of a stream of frames, a list for each.
unfoldable pub run : List Frame → Monitor → Option (Monitor × List (List Effect))
run [] m = some (m, [])
run (frame ∷ rest) m = elim (on_frame frame m) [
  | none ↦ none
  | some (next, effects) ↦ elim (run rest next) [
    | none ↦ none
    | some (last, later) ↦ some (last, effects ∷ later)
  ]
]
