-- ===== src/Backend/Latency.antt =====
-- backend/app/services/latency_tracker.py: the latencies of the newest frames. A frame's latency in
-- milliseconds comes from its timestamp and a clock, which are not modelled: `none` is a timestamp
-- that does not parse.
use shtapm.Base.{
  ℕ, suc, ◌-◌, ◌*◌, ◌≤◌, min, max, Bool, true, false, Option, none, some, List, length, ltb, ◌==◌,
  if◌then◌else◌, ◌≡◌, refl, All, arith,
}
use shtapm.Base.Ratio.{Ratio, IsFraction, frac, leb_r, ltb_r}
use shtapm.Base.Round.{round, round_mono}
use shtapm.Base.Sorting.{
  sorted_r, get_r, get-sorted_r, get-Sorted, sorted_r-Sorted, length-sorted_r,
}
use shtapm.Acquisition.RingBuffer.{RingBuffer, push}

pub record LatencyTracker : Type 0 where
  pub samples : RingBuffer Ratio
  pub negative : ℕ

pub record LatencySnapshot : Type 0 where
  pub count : ℕ
  pub p50_ms : Option Ratio
  pub p95_ms : Option Ratio
  pub max_ms : Option Ratio
  pub negative_samples : ℕ
  pub clock_skew_suspected : Bool

unfoldable pub record_latency : Option Ratio → LatencyTracker → LatencyTracker
record_latency none t = t
record_latency (some delta) t =
    if ltb_r delta (frac 0 1)
    then record t { negative = suc t.negative }
    else record t { samples = push delta t.samples }

-- `_percentile`, of n samples that are sorted, for a fraction in hundredths: its index.
abbrev pub rank : ℕ → ℕ → ℕ
rank hundredths n = max 0 (min (n - 1) (round (hundredths * n) 100 - 1))

unfoldable pub percentile : List Ratio → ℕ → Ratio
percentile sorted hundredths = get_r sorted (rank hundredths (length sorted))

abbrev withheld : ℕ → ℕ → Bool → LatencySnapshot
withheld count negative skewed = record {
  count = count;
  p50_ms = none;
  p95_ms = none;
  max_ms = none;
  negative_samples = negative;
  clock_skew_suspected = skewed;
}

unfoldable pub snapshot : LatencyTracker → LatencySnapshot
snapshot t =
    let samples = sorted_r t.samples.items in
    let n = length samples in
    if ltb 0 t.negative
    then withheld n t.negative true
    else if n == 0
    then withheld 0 0 false
    else record {
      count = n;
      p50_ms = some (percentile samples 50);
      p95_ms = some (percentile samples 95);
      max_ms = some (get_r samples (n - 1));
      negative_samples = 0;
      clock_skew_suspected = false;
    }

-- The three figures of a snapshot, if it has any.
abbrev pub Figures : LatencySnapshot → Ratio → Ratio → Ratio → Type 0
Figures s p50 p95 longest =
    (s.p50_ms ≡ some p50) × (s.p95_ms ≡ some p95) × (s.max_ms ≡ some longest)

-- A tracker that never saw a negative latency and holds samples reports figures that ascend, each
-- of them one of its samples: whatever holds of all samples holds of the figures.
pub snapshot_lem :
    (t : LatencyTracker) (P : Ratio → Type 0)
    → t.negative ≡ 0
    → 1 ≤ length t.samples.items
    → All IsFraction t.samples.items
    → All P t.samples.items
    → (p50 : Ratio) × (p95 : Ratio) × (longest : Ratio) × Figures (snapshot t) p50 p95 longest
      × (P p50 × P p95 × P longest)
      × ((leb_r p50 p95 ≡ true) × (leb_r p95 longest ≡ true))
unfolding snapshot percentile
snapshot_lem t P e l f a =
    let xs = t.samples.items in
    let size = length-sorted_r xs in
    let s = sorted_r xs in
    let n = length s in
    let r = round_mono (50 * n) (95 * n) 100 (omega arith) (omega arith) in
    let order = sorted_r-Sorted xs f in
    let shown : (ltb 0 t.negative ≡ false) × ((n == 0) ≡ false) = (ground arith, ground arith) in
    (
      get_r s (rank 50 n),
      get_r s (rank 95 n),
      get_r s (n - 1),
      (rw (shown.0, shown.1) refl, rw (shown.0, shown.1) refl, rw (shown.0, shown.1) refl),
      (
        get-sorted_r P xs (rank 50 n) a (omega (arith, size, l)),
        get-sorted_r P xs (rank 95 n) a (omega (arith, size, l)),
        get-sorted_r P xs (n - 1) a (omega (arith, size, l)),
      ),
      (
        get-Sorted s (rank 50 n) (rank 95 n) order (omega (arith, r)) (omega (arith, size, l)),
        get-Sorted s (rank 95 n) (n - 1) order (omega (arith, r)) (omega (arith, size, l)),
      ),
    )
