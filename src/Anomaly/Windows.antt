-- ===== src/Anomaly/Windows.antt =====
-- The windows that `process` of edge/anomaly/preprocess.py makes of a stream.
use native.Mathlib.Nat.{div-mul-le_self, lt-div-mul-add, suc-mul, div-le_self}
use shtapm.Base.{
  ℕ, zero, suc, ◌+◌, ◌-◌, ◌*◌, ◌/◌, ◌%◌, ◌≤◌, ◌<◌, ◌≡◌, Bool-cases, inl, inr, refl, ◌∙◌, ap, true,
  false, ◌||◌, ltb, leb, ◌==◌, Option, none, some, List, [], ◌∷◌, map, length, drop, if◌then◌else◌,
  arith, length-take, length-drop, le→leb, leb→le,
}
use shtapm.Base.Ratio.{Ratio}
use shtapm.Contracts.{Channel, any_of, temperature, vibration, pressure, humidity, gas, current}
use shtapm.Acquisition.Sampler.{Frame}
use shtapm.Anomaly.Preprocess.{
  slice, medians_from, median_filter, smooth, low_pass_from, is_alpha, low_pass_filter,
  min_max_normalize, Window, Preprocessor, new_preprocessor, is_missing, present, gather,
  filter_channel, features_at, windows_from, process,
}

-- What `__post_init__` lets pass.
pub record IsPreprocessor (p : Preprocessor) : Type 0 where
  pub window_size : 1 ≤ p.window_size
  pub step : 1 ≤ p.step
  pub kernel : (ltb p.median_kernel 1 || p.median_kernel % 2 == 0) ≡ false
  pub alpha : is_alpha p.low_pass_alpha ≡ true

pub new_preprocessor-IsPreprocessor :
    (p : Preprocessor) → new_preprocessor p ≡ some p → IsPreprocessor p
unfolding new_preprocessor
new_preprocessor-IsPreprocessor p h = record {
  window_size = ground arith;
  step = ground arith;
  kernel = ground arith;
  alpha = ground arith;
}

length-medians_from :
    (series : List Ratio) (h i : ℕ) (xs : List Ratio)
    → length (medians_from series h i xs) ≡ length xs
unfolding medians_from
length-medians_from series h i [] = refl
length-medians_from series h i (x ∷ xs) = ap suc (length-medians_from series h (suc i) xs)

length-low_pass_from :
    (alpha : Ratio) (prev : Option Ratio) (xs : List Ratio)
    → length (low_pass_from alpha prev xs) ≡ length xs
unfolding low_pass_from
length-low_pass_from alpha prev [] = refl
length-low_pass_from alpha prev (x ∷ xs) =
    ap suc (length-low_pass_from alpha (some (smooth alpha x prev)) xs)

length-map : {A B : Type 0} (f : A → B) (xs : List A) → length (map f xs) ≡ length xs
length-map f [] = refl
length-map f (x ∷ xs) = ap suc (length-map f xs)

-- How many windows n frames make.
abbrev pub window_count : Preprocessor → ℕ → ℕ
window_count p n = if leb p.window_size n then suc ((n - p.window_size) / p.step) else 0

pub gather-present :
    (f : Channel → Option (List Ratio))
    → ((ch : Channel) → is_missing (f ch) ≡ false)
    → gather f ≡ some (λ ch. present (f ch))
gather-present f h =
    let none_missing : any_of (λ ch. is_missing (f ch)) ≡ false =
      rw (h temperature, h vibration, h pressure, h humidity, h gas, h current) refl in
    rw none_missing refl

normalize_present : (xs : List Ratio) → 1 ≤ length xs → is_missing (min_max_normalize xs) ≡ false
unfolding min_max_normalize
normalize_present [] h = ground arith
normalize_present (x ∷ xs) h = ground arith

-- The window at a start, and the windows from a start on, one step apart.
module _ (p : Preprocessor) (filtered : Channel → List Ratio) where
  abbrev pub window_at : ℕ → Window
  window_at start = record {
    start_index = start;
    end_index = start + p.window_size;
    features = λ ch. present (features_at p filtered start ch);
  }

  abbrev pub windows_at : ℕ → ℕ → List Window
  windows_at zero start = []
  windows_at (suc c) start = window_at start ∷ windows_at c (start + p.step)

  -- c windows fit from a start on, and no more.
  abbrev Fits : ℕ → ℕ → ℕ → Type 0
  Fits n zero start = n < start + p.window_size
  Fits n (suc c) start = (start + p.window_size ≤ n) × Fits n c (start + p.step)

  Fits-within :
      (n c start : ℕ)
      → start + p.window_size ≤ n + p.step
      → start + p.window_size + c * p.step ≤ n + p.step
      → n < start + p.window_size + c * p.step
      → Fits n c start
  Fits-within n zero start a b l = omega (arith, l)
  Fits-within n (suc c) start a b l = (
    omega (arith, b, suc-mul c p.step),
    Fits-within n c (start + p.step) (omega (arith, b, suc-mul c p.step))
        (omega (arith, b, suc-mul c p.step)) (omega (arith, l, suc-mul c p.step)),
  )

  Fits-window_count : 1 ≤ p.step → (n : ℕ) → Fits n (window_count p n) 0
  Fits-window_count s n = elim (Bool-cases (leb p.window_size n)) [
    | inr e ↦ rw e (ground arith)
    | inl e ↦
        let q = (n - p.window_size) / p.step in
        let low = div-mul-le_self (n - p.window_size) p.step in
        let high = lt-div-mul-add {a = n - p.window_size} s in
        let room = leb→le p.window_size n e in
        rw e (
          Fits-within n (suc q) 0 (omega (arith, room)) (omega (arith, room, low, suc-mul q p.step))
            (omega (arith, room, high, suc-mul q p.step)))
  ]

  features_present :
      1 ≤ p.window_size
      → (n start : ℕ) → ((ch : Channel) → length (filtered ch) ≡ n)
      → start + p.window_size ≤ n
      → (ch : Channel) → is_missing (features_at p filtered start ch) ≡ false
  features_present w n start l room ch =
      normalize_present (slice (filtered ch) start (start + p.window_size)) (
        omega (
          arith,
          length-take (start + p.window_size - start) (drop start (filtered ch)),
          length-drop start (filtered ch),
          l ch,
        ))

  windows_from_lem :
      1 ≤ p.window_size
      → (n fuel c start : ℕ) → c ≤ fuel
      → ((ch : Channel) → length (filtered ch) ≡ n)
      → Fits n c start
      → windows_from (suc fuel) p filtered n start ≡ some (windows_at c start)
  unfolding windows_from
  windows_from_lem w n fuel zero start f l h = ground arith
  windows_from_lem w n zero (suc c) start f l h = ground arith
  windows_from_lem w n (suc fuel) (suc c) start f l (room, rest) =
      rw
        (
          le→leb _ _ room,
          windows_from_lem w n fuel c (start + p.step) (omega (arith, f)) l rest,
          gather-present (features_at p filtered start) (features_present w n start l room),
        )
        refl

-- The channels' series, filtered.
abbrev pub filtered_of : Preprocessor → List Frame → Channel → List Ratio
filtered_of p frames ch = present (filter_channel p frames ch)

module _ (p : Preprocessor) (h : IsPreprocessor p) (frames : List Frame) where
  median_filter_lem :
      (xs : List Ratio)
      → (ys : List Ratio) × (median_filter xs p.median_kernel ≡ some ys) × (length ys ≡ length xs)
  unfolding median_filter
  median_filter_lem xs = elim (Bool-cases (p.median_kernel == 1)) [
    | inl e ↦ (xs, rw (h.kernel, e) refl, refl)
    | inr e ↦ (
      medians_from xs (p.median_kernel / 2) 0 xs,
      rw (h.kernel, e) refl,
      length-medians_from xs _ 0 xs,
    )
  ]

  filter_channel_lem :
      (ch : Channel)
      → (ys : List Ratio) × (filter_channel p frames ch ≡ some ys) × (length ys ≡ length frames)
  unfolding filter_channel low_pass_filter
  filter_channel_lem ch =
      let raw = map (λ (f : Frame). f.values ch) frames in
      let (ys, e, l) = median_filter_lem raw in
      (
        low_pass_from p.low_pass_alpha none ys,
        rw (filter_channel, e, low_pass_filter, h.alpha) refl,
        length-low_pass_from p.low_pass_alpha none ys
            ∙ l
            ∙ length-map (λ (f : Frame). f.values ch) frames,
      )

  filtered-length : (ch : Channel) → length (filtered_of p frames ch) ≡ length frames
  filtered-length ch = let (ys, e, l) = filter_channel_lem ch in rw e l

  filtered_present : (ch : Channel) → is_missing (filter_channel p frames ch) ≡ false
  filtered_present ch = let (ys, e, l) = filter_channel_lem ch in rw e refl

  enough_fuel : window_count p (length frames) ≤ length frames
  enough_fuel =
      let w = h.window_size in
      let q = div-le_self (length frames - p.window_size) p.step in ground (arith, q, w)

  -- `process` of a preprocessor that was constructed never raises and its loop ends: from n frames
  -- it makes floor((n - window_size) / step) + 1 windows, or none if n < window_size. They start at
  -- 0, step, 2 * step and so on, and hold the filtered channels from there to window_size samples
  -- on, normalized.
  pub process_lem :
      process p frames
      ≡ some (windows_at p (filtered_of p frames) (window_count p (length frames)) 0)
  unfolding process
  process_lem =
      rw (process, gather-present (filter_channel p frames) filtered_present)
        (windows_from_lem p (filtered_of p frames) h.window_size (length frames) (length frames)
          (window_count p (length frames)) 0 enough_fuel filtered-length
          (Fits-window_count p (filtered_of p frames) h.step (length frames)))
