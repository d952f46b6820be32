-- ===== src/Anomaly/Preprocess.antt =====
-- edge/anomaly/preprocess.py: the filters, the windows and their normalization. A slice of a list
-- is written with its bounds; frames are the sampler's.
use shtapm.Base.{
  ℕ, zero, suc, ◌+◌, ◌-◌, ◌/◌, ◌%◌, min, Bool, true, false, not, ◌&&◌, ◌||◌, ltb, leb, ◌==◌, Option,
  none, some, List, [], ◌∷◌, map, length, take, drop, if◌then◌else◌,
}
use shtapm.Base.Ratio.{Ratio, frac, leb_r, ltb_r, ◌-r◌, ◌+r◌, ◌*r◌, ◌/r◌}
use shtapm.Base.Median.{median}
use shtapm.Contracts.{Channel, any_of}
use shtapm.Acquisition.Sampler.{Frame}

-- `xs[lo:hi]`, for bounds from 0 on.
abbrev pub slice : {T : Type 0} → List T → ℕ → ℕ → List T
slice xs lo hi = take (hi - lo) (drop lo xs)

-- The loop over the indices from i on, one for each item of the last argument.
unfoldable pub medians_from : List Ratio → ℕ → ℕ → List Ratio → List Ratio
medians_from series half_width i [] = []
medians_from series half_width i (x ∷ rest) =
    median (slice series (i - half_width) (min (length series) (i + half_width + 1)))
    ∷ medians_from series half_width (suc i) rest

-- `median_filter`; `none` is the ValueError.
unfoldable pub median_filter : List Ratio → ℕ → Option (List Ratio)
median_filter series kernel =
    if ltb kernel 1 || kernel % 2 == 0
    then none
    else if kernel == 1
    then some series
    else some (medians_from series (kernel / 2) 0 series)

-- The smoothed value of x after prev.
abbrev pub smooth : Ratio → Ratio → Option Ratio → Ratio
smooth alpha x none = x
smooth alpha x (some prev) = alpha *r x +r (frac 1 1 -r alpha) *r prev

unfoldable pub low_pass_from : Ratio → Option Ratio → List Ratio → List Ratio
low_pass_from alpha prev [] = []
low_pass_from alpha prev (x ∷ rest) =
    smooth alpha x prev ∷ low_pass_from alpha (some (smooth alpha x prev)) rest

abbrev pub is_alpha : Ratio → Bool
is_alpha alpha = ltb_r (frac 0 1) alpha && leb_r alpha (frac 1 1)

-- `low_pass_filter`; `none` is the ValueError.
unfoldable pub low_pass_filter : List Ratio → Ratio → Option (List Ratio)
low_pass_filter series alpha =
    if not (is_alpha alpha) then none else some (low_pass_from alpha none series)

-- `min` and `max` of x and the rest.
unfoldable pub least : Ratio → List Ratio → Ratio
least best [] = best
least best (x ∷ rest) = least (if ltb_r x best then x else best) rest

unfoldable pub greatest : Ratio → List Ratio → Ratio
greatest best [] = best
greatest best (x ∷ rest) = greatest (if ltb_r best x then x else best) rest

-- `min_max_normalize`; `none` is the ValueError of `min` of nothing.
unfoldable pub min_max_normalize : List Ratio → Option (List Ratio)
min_max_normalize [] = none
min_max_normalize (x ∷ rest) =
    let lo = least x rest in
    let hi = greatest x rest in
    if leb_r hi lo && leb_r lo hi
    then some (map (λ v. frac 0 1) (x ∷ rest))
    else some (map (λ v. (v -r lo) /r (hi -r lo)) (x ∷ rest))

pub record Window : Type 0 where
  pub start_index : ℕ
  pub end_index : ℕ
  pub features : Channel → List Ratio

pub record Preprocessor : Type 0 where
  pub median_kernel : ℕ
  pub low_pass_alpha : Ratio
  pub window_size : ℕ
  pub step : ℕ

-- `__post_init__`; `none` is a ValueError.
unfoldable pub new_preprocessor : Preprocessor → Option Preprocessor
new_preprocessor p =
    if ltb p.window_size 1
    then none
    else if ltb p.step 1
    then none
    else if ltb p.median_kernel 1 || p.median_kernel % 2 == 0
    then none
    else if not (is_alpha p.low_pass_alpha)
    then none
    else some p

abbrev pub is_missing : Option (List Ratio) → Bool
is_missing none = true
is_missing (some xs) = false

abbrev pub present : Option (List Ratio) → List Ratio
present none = []
present (some xs) = xs

-- A `dict` over the channels whose values may raise.
abbrev pub gather : (Channel → Option (List Ratio)) → Option (Channel → List Ratio)
gather f = if any_of (λ ch. is_missing (f ch)) then none else some (λ ch. present (f ch))

unfoldable pub filter_channel : Preprocessor → List Frame → Channel → Option (List Ratio)
filter_channel p frames ch =
    elim (median_filter (map (λ (f : Frame). f.values ch) frames) p.median_kernel) [
      | none ↦ none
      | some series ↦ low_pass_filter series p.low_pass_alpha
    ]

-- The features of the window at a start.
abbrev pub features_at : Preprocessor → (Channel → List Ratio) → ℕ → Channel → Option (List Ratio)
features_at p filtered start ch =
    min_max_normalize (slice (filtered ch) start (start + p.window_size))

abbrev pub add_window :
    Preprocessor → ℕ → Option (Channel → List Ratio) → Option (List Window) → Option (List Window)
add_window p start none rest = none
add_window p start (some features) none = none
add_window p start (some features) (some windows) = some (
    record { start_index = start; end_index = start + p.window_size; features = features }
    ∷ windows)

-- The `while` loop of `process`, on fuel; `none` is an exception or no fuel.
unfoldable pub windows_from :
    ℕ → Preprocessor → (Channel → List Ratio) → ℕ → ℕ → Option (List Window)
windows_from zero p filtered n start = none
windows_from (suc fuel) p filtered n start =
    let rest = windows_from fuel p filtered n (start + p.step) in
    if leb (start + p.window_size) n
    then add_window p start (gather (features_at p filtered start)) rest
    else some []

unfoldable pub process : Preprocessor → List Frame → Option (List Window)
process p frames = elim (gather (filter_channel p frames)) [
  | none ↦ none
  | some filtered ↦ windows_from (suc (length frames)) p filtered (length frames) 0
]
