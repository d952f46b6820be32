-- ===== src/Drivers/Mcp3008.antt =====
-- The MCP3008 behind edge/drivers/adxl335.py and mq135.py. What a transfer answers is an argument:
-- the reply's second and third byte, or nothing when it or the bus raises. `none` is an OSError;
-- `math.sqrt` is an argument.
use shtapm.Base.{
  ℕ, ◌+◌, ◌-◌, ◌*◌, ◌%◌, ◌≡◌, refl, Bool, true, false, ◌||◌, leb, ◌==◌, Option, none, some, List,
  [], ◌∷◌, if◌then◌else◌, Bool-cases, Option-cases, inl, inr, ◌∙◌, ap, sym,
}
use shtapm.Base.Ratio.{Ratio, frac, ◌*r◌}
use shtapm.Acquisition.Sampler.{Reading, is_unhealthy}
use shtapm.Drivers.Sensor.{RawRead, raised, number, new_sensor, read, finish}

abbrev pub adc_max_count : ℕ
adc_max_count = 1023

-- The three bytes of the request.
abbrev pub request : ℕ → List ℕ
request channel = 1 ∷ (8 + channel) * 16 ∷ 0 ∷ []

abbrev pub Reply : Type 0
Reply = Option (ℕ × ℕ)

-- ((reply[1] & 3) << 8) | reply[2], of a third byte below 256, and the test of the range.
unfoldable pub count_of : Reply → Option ℕ
count_of none = none
count_of (some (b, c)) =
    let value = (b % 4) * 256 + c in if leb value adc_max_count then some value else none

pub record Counts : Type 0 where
  pub x : ℕ
  pub y : ℕ
  pub z : ℕ

-- `read_raw_xyz`.
unfoldable pub read_raw_xyz : Reply → Reply → Reply → Option Counts
unfolding count_of
read_raw_xyz a b c = elim (count_of a) [
  | none ↦ none
  | some x ↦ elim (count_of b) [
    | none ↦ none
    | some y ↦ elim (count_of c) [ none ↦ none | some z ↦ some (record { x = x; y = y; z = z }) ]
  ]
]

abbrev pub is_rail : ℕ → Bool
is_rail v = v == 0 || v == adc_max_count

abbrev pub any_rail : Counts → Bool
any_rail v = is_rail v.x || is_rail v.y || is_rail v.z

-- The square of a difference of counts.
abbrev pub squared_diff : ℕ → ℕ → ℕ
squared_diff a b = ((a - b) + (b - a)) * ((a - b) + (b - a))

-- The magnitude in counts, by _G_PER_COUNT: 3.3 / 1024 / 0.330.
unfoldable pub magnitude : (Ratio → Ratio) → Counts → Counts → Ratio
magnitude sqrt v base =
    sqrt (frac (squared_diff v.x base.x + squared_diff v.y base.y + squared_diff v.z base.z) 1)
    *r frac 10 1024

-- `read_vibration_g` after the transfers: the baseline is the state.
unfoldable pub vibration_of :
    (Ratio → Ratio) → Option Counts → Option Counts → Option Counts × Option Ratio
unfolding magnitude
vibration_of sqrt none base = (base, none)
vibration_of sqrt (some v) none = if any_rail v then (none, none) else (some v, some (frac 0 1))
vibration_of sqrt (some v) (some base) =
    if any_rail v then (some base, none) else (some base, some (magnitude sqrt v base))

-- The replies for the three channels.
pub record Transfer : Type 0 where
  pub x : Reply
  pub y : Reply
  pub z : Reply

unfoldable pub read_vibration_g :
    (Ratio → Ratio) → Transfer → Option Counts → Option Counts × Option Ratio
unfolding vibration_of read_raw_xyz
read_vibration_g sqrt t base = vibration_of sqrt (read_raw_xyz t.x t.y t.z) base

-- The baseline and the values after some reads, oldest first.
unfoldable pub vibrations :
    (Ratio → Ratio) → List Transfer → Option Counts → Option Counts × List (Option Ratio)
vibrations sqrt [] base = (base, [])
vibrations sqrt (t ∷ rest) base =
    let (base', value) = read_vibration_g sqrt t base in
    let (last, values) = vibrations sqrt rest base' in (last, value ∷ values)

-- `counts_to_ao_volts`, by a ratio of the divider.
unfoldable pub counts_to_ao_volts : ℕ → Ratio → Option Ratio
counts_to_ao_volts count ratio =
    if leb count 0
    then none
    else if leb adc_max_count count
    then none
    else some (frac count adc_max_count *r frac 33 10 *r ratio)

-- The raw read of a driver's sensor, whose reading has no calibration, range or age limit.
abbrev pub as_raw : Option Ratio → RawRead
as_raw none = raised
as_raw (some v) = number v

abbrev pub reading_of : ℕ → Option Ratio → Reading
reading_of now value = (read (as_raw value) now (new_sensor none none none)).1

-- A chip that does not answer, or answers with a rail.
abbrev pub is_silent : Transfer → Bool
is_silent t = elim (read_raw_xyz t.x t.y t.z) [ none ↦ true | some v ↦ any_rail v ]

-- The counts of the first transfer that is not silent.
unfoldable pub first_answer : List Transfer → Option Counts
first_answer [] = none
first_answer (t ∷ rest) =
    let later = first_answer rest in if is_silent t then later else read_raw_xyz t.x t.y t.z

-- The readings are unhealthy for the silent transfers, and for no others.
abbrev pub Tells : List Transfer → List (Option Ratio) → Type 0
Tells [] [] = Unit
Tells [] (v ∷ vs) = ⊥
Tells (t ∷ ts) [] = ⊥
Tells (t ∷ ts) (v ∷ vs) = ((now : ℕ) → is_unhealthy (reading_of now v) ≡ is_silent t) × Tells ts vs

module _ (sqrt : Ratio → Ratio) where
  read_silent :
      (t : Transfer) (base : Option Counts)
      → is_silent t ≡ true
      → read_vibration_g sqrt t base ≡ (base, none)
  unfolding read_vibration_g vibration_of
  read_silent t base h = elim (Option-cases (read_raw_xyz t.x t.y t.z)) [
    | inl n ↦ rw (read_vibration_g, n) refl
    | inr (v, q) ↦
        let rail : any_rail v ≡ true =
          sym (ap (λ (o : Option Counts). elim o [ none ↦ true | some v ↦ any_rail v ]) q) ∙ h in
        rw (read_vibration_g, q) (with_rail v base rail)
  ]
    where
      with_rail :
          (v : Counts) (base : Option Counts)
          → any_rail v ≡ true
          → vibration_of sqrt (some v) base ≡ (base, none)
      with_rail v none r = rw (vibration_of, r) refl
      with_rail v (some b) r = rw (vibration_of, r) refl

  -- The baseline that is kept.
  abbrev pub kept : Option Counts → Option Counts → Option Counts
  kept none first = first
  kept (some b) first = some b

  answered_from :
      (v : Counts) (base : Option Counts)
      → any_rail v ≡ false
      → (x : Ratio) × (vibration_of sqrt (some v) base ≡ (kept base (some v), some x))
  unfolding vibration_of
  answered_from v none r = (frac 0 1, rw (vibration_of, r) refl)
  answered_from v (some b) r = (magnitude sqrt v b, rw (vibration_of, r) refl)

  read_answered :
      (t : Transfer) (base : Option Counts)
      → is_silent t ≡ false
      → (x : Ratio) × (read_vibration_g sqrt t base
          ≡ (kept base (read_raw_xyz t.x t.y t.z), some x))
  unfolding read_vibration_g
  read_answered t base h = elim (Option-cases (read_raw_xyz t.x t.y t.z)) [
    | inl n ↦
        let no_rail : is_silent t ≡ true =
          ap (λ (o : Option Counts). elim o [ none ↦ true | some v ↦ any_rail v ]) n in
        cc
    | inr (v, q) ↦
        let no_rail : any_rail v ≡ false =
          sym (ap (λ (o : Option Counts). elim o [ none ↦ true | some v ↦ any_rail v ]) q) ∙ h in
        let (x, e) = answered_from v base no_rail in (x, rw (read_vibration_g, q) e)
  ]

  kept_answer :
      (t : Transfer) (base later : Option Counts)
      → is_silent t ≡ false
      → kept (kept base (read_raw_xyz t.x t.y t.z)) later ≡ kept base (read_raw_xyz t.x t.y t.z)
  kept_answer t (some b) later h = refl
  kept_answer t none later h = elim (Option-cases (read_raw_xyz t.x t.y t.z)) [
    | inl n ↦
        let no_rail : is_silent t ≡ true =
          ap (λ (o : Option Counts). elim o [ none ↦ true | some v ↦ any_rail v ]) n in
        cc
    | inr (v, q) ↦ rw q refl
  ]

  -- A silent chip is never taken for a pump at rest. Over any transfers, the readings of the driver
  -- are unhealthy exactly for the transfers that fail or give an axis at a rail. The baseline is
  -- never changed once it is there; where there is none, it becomes the counts of the first
  -- transfer that neither fails nor gives a rail.
  pub vibrations_lem :
      (ts : List Transfer) (base : Option Counts)
      → ((vibrations sqrt ts base).0 ≡ kept base (first_answer ts))
        × Tells ts (vibrations sqrt ts base).1
  unfolding vibrations first_answer read finish
  vibrations_lem [] none = (refl, tt)
  vibrations_lem [] (some b) = (refl, tt)
  vibrations_lem (t ∷ rest) base = elim (Bool-cases (is_silent t)) [
    | inl quiet ↦
        let (b, tells) = vibrations_lem rest base in
        rw (vibrations, read_silent t base quiet, first_answer, quiet) (b, ((λ now. refl), tells))
    | inr loud ↦
        let (x, e) = read_answered t base loud in
        let (b, tells) = vibrations_lem rest (kept base (read_raw_xyz t.x t.y t.z)) in
        rw (vibrations, e, first_answer, loud)
          (b ∙ kept_answer t base (first_answer rest) loud, ((λ now. refl), tells))
  ]
