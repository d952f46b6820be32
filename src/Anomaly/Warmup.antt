-- ===== src/Anomaly/Warmup.antt =====
-- What `LiveP2Monitor` of edge/pipeline/monitor.py does over a stream of frames.
use native.Mathlib.Nat.{mul-div_cancel, div-lt_iff_lt-mul}
use shtapm.Base.{
  ℕ, ◌+◌, ◌-◌, ◌*◌, ◌/◌, ◌≤◌, ◌<◌, ◌≡◌, refl, ◌∙◌, sym, ap, Bool, true, false, ltb, leb, ◌==◌, some,
  List, [], ◌∷◌, ◌++◌, append_assoc, append-nil, ◌⊎◌, length, if◌then◌else◌, arith, length-append,
  length-drop, Bool-cases, inl, inr, le→leb, leb→le, subst,
}
use shtapm.Acquisition.RingBuffer.{drop-append, newest-drop}
use shtapm.Acquisition.Sampler.{Frame}
use shtapm.Anomaly.Preprocess.{Preprocessor}
use shtapm.Anomaly.Windows.{IsPreprocessor, window_count, windows_at, filtered_of, process_lem}
use shtapm.Anomaly.Monitor.{
  Effect, fits_on, emits, Monitor, newest, new_monitor, warming, on_live_frame, on_warmup_frame,
  on_frame, run,
}

-- Appending to the newest frames and dropping from the left keeps the newest of all.
newest-append :
    (w : ℕ) (xs : List Frame) (f : Frame)
    → newest w (newest w xs ++ f ∷ []) ≡ newest w (xs ++ f ∷ [])
newest-append w xs f =
    let d = length xs - w in
    let size = length-append xs (f ∷ []) in
    ap (newest w) (sym (drop-append d xs (f ∷ []) (omega arith)))
    ∙ newest-drop w d (xs ++ f ∷ []) (omega (arith, size))

length-newest : (w : ℕ) (xs : List Frame) → w ≤ length xs → length (newest w xs) ≡ w
length-newest w xs h = omega (arith, length-drop (length xs - w) xs, h)

eq_of : {a b : ℕ} → a ≡ b → (a == b) ≡ true
eq_of e = ground arith

eq_to : {a b : ℕ} → (a == b) ≡ true → a ≡ b
eq_to {a} {b} e = ground arith

false_le : (a b : ℕ) → ltb a b ≡ false → b ≤ a
false_le a b e = ground arith

-- How two neighbours lie to a bound.
compared :
    (a b t : ℕ)
    → b ≡ a + 1
    → ((ltb a t ≡ true) × (ltb b t ≡ true))
      ⊎ (((ltb a t ≡ true) × (ltb b t ≡ false) × ((b == t) ≡ true))
          ⊎ ((ltb a t ≡ false) × (ltb b t ≡ false) × ((b == t) ≡ false)))
compared a b t e = elim (Bool-cases (ltb b t)) [
  | inl l ↦ inl (ground arith, l)
  | inr l ↦ elim (Bool-cases (b == t)) [
    | inl q ↦ inr (inl (ground arith, l, q))
    | inr q ↦ inr (inr (ground arith, l, q))
  ]
]

-- The buffer of the warm-up makes exactly the wanted number of windows, and no shorter one does.
pub window_count-fit_buffer :
    (p : Preprocessor) (count n : ℕ)
    → 1 ≤ p.step
    → 1 ≤ count
    → (window_count p (p.window_size + (count - 1) * p.step) ≡ count)
      × (n < p.window_size + (count - 1) * p.step → window_count p n < count)
window_count-fit_buffer p count n s c =
    let exact : (p.window_size + (count - 1) * p.step - p.window_size) / p.step ≡ count - 1 =
      ap (λ t. t / p.step) (add_sub p.window_size ((count - 1) * p.step))
      ∙ mul-div_cancel (count - 1) s in
    (
      rw (le→leb p.window_size (p.window_size + (count - 1) * p.step) (omega arith), exact)
          (omega (arith, c)),
      λ short. elim (Bool-cases (leb p.window_size n)) [
        | inr e ↦ rw e c
        | inl e ↦
            let few : (n - p.window_size) / p.step < count - 1 =
              (div-lt_iff_lt-mul s).1 (omega (arith, leb→le p.window_size n e, short)) in
            rw e (omega (arith, few))
      ],
    )
  where
    add_sub : (a b : ℕ) → a + b - a ≡ b
    add_sub a b = omega arith

run_step :
    (f : Frame) (fs : List Frame) (m next last : Monitor) (es : List Effect)
    (later : List (List Effect))
    → on_frame f m ≡ some (next, es)
    → run fs next ≡ some (last, later)
    → run (f ∷ fs) m ≡ some (last, es ∷ later)
unfolding run
run_step f fs m next last es later a b = rw (run, a, b) refl

module _ (p : Preprocessor) (h : IsPreprocessor p) (count : ℕ) (c : 1 ≤ count) where
  -- The state after some frames.
  abbrev pub after : List Frame → Monitor
  after xs =
      if ltb (length xs) (warming p count).fit_buffer_size
      then record (warming p count) { warmup_buffer = xs }
      else record (warming p count) { buffer = some (newest p.window_size xs) }

  -- What the last of some frames makes happen.
  abbrev pub due : List Frame → List Effect
  due xs =
      if ltb (length xs) (warming p count).fit_buffer_size
      then []
      else if length xs == (warming p count).fit_buffer_size
      then fits_on (windows_at p (filtered_of p xs) count 0) ∷ emits (newest p.window_size xs) ∷ []
      else emits (newest p.window_size xs) ∷ []

  warm_frame :
      (xs : List Frame) (f : Frame)
      → ltb (length (xs ++ f ∷ [])) (warming p count).fit_buffer_size ≡ true
      → on_frame f (record (warming p count) { warmup_buffer = xs })
        ≡ some (record (warming p count) { warmup_buffer = xs ++ f ∷ [] }, [])
  unfolding on_frame on_warmup_frame
  warm_frame xs f e = rw e refl

  last_warm_frame :
      (xs : List Frame) (f : Frame)
      → length (xs ++ f ∷ []) ≡ (warming p count).fit_buffer_size
      → on_frame f (record (warming p count) { warmup_buffer = xs })
        ≡ some (
          record (warming p count) { buffer = some (newest p.window_size (xs ++ f ∷ [])) },
          fits_on (windows_at p (filtered_of p (xs ++ f ∷ [])) count 0)
              ∷ emits (newest p.window_size (xs ++ f ∷ []))
              ∷ [],
        )
  unfolding on_frame on_warmup_frame
  last_warm_frame xs f e =
      let full : ltb (length (xs ++ f ∷ [])) (warming p count).fit_buffer_size ≡ false =
        ground arith in
      let enough = ap (window_count p) e ∙ (window_count-fit_buffer p count 0 h.step c).0 in
      rw (full, process_lem p h (xs ++ f ∷ []), enough) refl

  live_frame :
      (xs : List Frame) (f : Frame)
      → p.window_size ≤ length (xs ++ f ∷ [])
      → on_frame f (record (warming p count) { buffer = some (newest p.window_size xs) })
        ≡ some (
          record (warming p count) { buffer = some (newest p.window_size (xs ++ f ∷ [])) },
          emits (newest p.window_size (xs ++ f ∷ [])) ∷ [],
        )
  unfolding on_frame on_live_frame
  live_frame xs f l =
      rw (newest-append p.window_size xs f, eq_of (length-newest p.window_size (xs ++ f ∷ []) l))
        refl

  on_frame_lem :
      (xs : List Frame) (f : Frame)
      → on_frame f (after xs) ≡ some (after (xs ++ f ∷ []), due (xs ++ f ∷ []))
  on_frame_lem xs f =
      let size = length-append xs (f ∷ []) in
      let room = h.window_size in
      let total = (warming p count).fit_buffer_size in
      elim (compared (length xs) (length (xs ++ f ∷ [])) total (omega (arith, size))) [
        | inl (before, now) ↦ rw (before, now) (warm_frame xs f now)
        | inr (inl (before, now, same)) ↦ rw (before, now, same) (last_warm_frame xs f (eq_to same))
        | inr (inr (before, now, other)) ↦
            rw (before, now, other)
              (live_frame xs f (omega (arith, false_le (length xs) total before, size)))
      ]

  -- What each of the next frames makes happen.
  abbrev pub dues : List Frame → List Frame → List (List Effect)
  dues xs [] = []
  dues xs (f ∷ rest) = due (xs ++ f ∷ []) ∷ dues (xs ++ f ∷ []) rest

  run-after : (fs xs : List Frame) → run fs (after xs) ≡ some (after (xs ++ fs), dues xs fs)
  unfolding run
  run-after [] xs = ap (λ ys. some (after ys, [])) (sym (append-nil xs))
  run-after (f ∷ fs) xs =
      run_step f fs _ _ _ _ _ (on_frame_lem xs f) (run-after fs (xs ++ f ∷ []))
      ∙ ap (λ ys. some (after ys, dues xs (f ∷ fs))) (append_assoc xs (f ∷ []) fs)

  after-nil : after [] ≡ warming p count
  after-nil =
      let room = h.window_size in
      let early : ltb 0 (warming p count).fit_buffer_size ≡ true = ground arith in rw early refl

-- The new monitor of a constructed preprocessor, for a positive count, runs on any stream without
-- an exception: it does nothing until it has window_size + (count - 1) * step frames, then fits once
-- on exactly count windows, the ones that start at 0, step, 2 * step and so on, and processes the
-- newest window_size frames; after that each frame makes it process the newest window_size frames.
pub run_lem :
    (p : Preprocessor) (h : IsPreprocessor p) (count : ℕ) (c : 1 ≤ count) (fitted : Bool)
    (frames : List Frame)
    → (m : Monitor) × (new_monitor p false fitted (some count) ≡ some m)
      × (run frames m ≡ some (after p h count c frames, dues p h count c [] frames))
unfolding new_monitor
run_lem p h count c fitted frames = (
  warming p count,
  new_warming,
  subst (λ m. run frames m ≡ some (after p h count c frames, dues p h count c [] frames))
      (after-nil p h count c) (run-after p h count c frames []),
)
  where
    new_warming : new_monitor p false fitted (some count) ≡ some (warming p count)
    new_warming = ground arith
