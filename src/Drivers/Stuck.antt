-- ===== src/Drivers/Stuck.antt =====
-- A sensor of edge/drivers/base.py that reports one value on and on, and one with a range.
use mathlib.Core.Option.{some-injective}
use shtapm.Base.{
  ℕ, ◌+◌, ◌≡◌, inl, inr, refl, ap, sym, ◌∙◌, Bool, true, not, Option, none, some, List, [], ◌∷◌,
  All, ltb, Option-cases, if◌then◌else◌,
}
use shtapm.Base.Ratio.{Ratio}
use shtapm.Acquisition.Sampler.{Reading, healthy, unhealthy}
use shtapm.Drivers.Sensor.{
  RawRead, raised, missing, not_a_number, number, Sensor, same_value, clamp_to, is_stale,
  calibrated, finish, read,
}

-- The calls of a sensor, one after the other.
unfoldable pub read_all : List (RawRead × ℕ) → Sensor → Sensor
read_all [] s = s
read_all ((raw, now) ∷ rest) s = read_all rest (read raw now s).0

-- What a sensor with a calibration and a range would report of a raw read: a value, or nothing.
abbrev pub value_with :
    Option (Ratio → Option Ratio) → Option (Ratio × Ratio) → RawRead → Option Ratio
value_with calibrate range (number raw) = elim (calibrated calibrate raw) [
  | none ↦ none
  | some x ↦ some (clamp_to range x)
]
value_with calibrate range _ = none

abbrev pub value_from : Sensor → RawRead → Option Ratio
value_from s = value_with s.calibrate s.value_range

-- It reports nothing of the raw read, or a value equal to v.
pub data AddsNothing (reports : RawRead → Option Ratio) (v : Ratio) (raw : RawRead) : Type 0 where
  fails : reports raw ≡ none → AddsNothing reports v raw
  repeats : {x : Ratio} → reports raw ≡ some x → same_value x v ≡ true → AddsNothing reports v raw

-- The value is another than the one that was seen last.
abbrev pub is_new : Option (Ratio × ℕ) → Ratio → Bool
is_new none v = true
is_new (some (seen, since)) v = not (same_value v seen)

read-none :
    (s : Sensor) (raw : RawRead) (now : ℕ)
    → value_from s raw ≡ none
    → read raw now s ≡ (s, unhealthy)
unfolding read
read-none s raised now h = refl
read-none s missing now h = refl
read-none s not_a_number now h = refl
read-none s (number x) now h = elim (Option-cases (calibrated s.calibrate x)) [
  | inl n ↦ rw (read, n) refl
  | inr (y, q) ↦ cc
]

read-some :
    (s : Sensor) (raw : RawRead) (now : ℕ) (v : Ratio)
    → value_from s raw ≡ some v
    → read raw now s ≡ finish s.max_age v now s
unfolding read
read-some s raised now v h = cc
read-some s missing now v h = cc
read-some s not_a_number now v h = cc
read-some s (number x) now v h = elim (Option-cases (calibrated s.calibrate x)) [
  | inl n ↦ cc
  | inr (y, q) ↦
      let same : some (clamp_to s.value_range y) ≡ some v =
        sym (
          ap
            (λ (o : Option Ratio). elim o [
              | none ↦ none
              | some z ↦ some (clamp_to s.value_range z)
            ])
            q)
        ∙ h in
      rw (read, q) (ap (λ z. finish s.max_age z now s) (some-injective _ _ same))
]

-- A reading of the value x at a time, by its age.
abbrev pub by_age : Ratio → Bool → Reading
by_age x is_old = if is_old then unhealthy else healthy x

finish_seen :
    (s : Sensor) (v x : Ratio) (age since now : ℕ)
    → s.max_age ≡ some age
    → s.unchanged ≡ some (v, since)
    → same_value x v ≡ true
    → finish s.max_age x now s
      ≡ (record s { unchanged = some (v, since) }, by_age x (ltb (since + age) now))
unfolding finish is_stale
finish_seen s v x age since now limit seen same = rw (limit, finish, seen, is_stale, same) refl

finish_new :
    (s : Sensor) (x : Ratio) (age now : ℕ)
    → s.max_age ≡ some age
    → is_new s.unchanged x ≡ true
    → finish s.max_age x now s ≡ (record s { unchanged = some (x, now) }, healthy x)
unfolding finish is_stale
finish_new s x age now limit new = elim (Option-cases s.unchanged) [
  | inl n ↦ rw (limit, finish, n, is_stale) refl
  | inr ((seen, since), q) ↦
      let other : not (same_value x seen) ≡ true =
        sym (ap (λ (u : Option (Ratio × ℕ)). is_new u x) q) ∙ new in
      rw (limit, finish, q, is_stale, other) refl
]

module _ (s : Sensor) (v : Ratio) (age since : ℕ) (limit : s.max_age ≡ some age)
    (seen : s.unchanged ≡ some (v, since)) where
  unchanged_state : record s { unchanged = some (v, since) } ≡ s
  unchanged_state = ap (λ (u : Option (Ratio × ℕ)). record s { unchanged = u }) (sym seen)

  read_repeated :
      (raw : RawRead) (x : Ratio) (now : ℕ)
      → value_from s raw ≡ some x
      → same_value x v ≡ true
      → read raw now s ≡ (s, by_age x (ltb (since + age) now))
  read_repeated raw x now from same =
      read-some s raw now x from
      ∙ finish_seen s v x age since now limit seen same
      ∙ ap (λ (t : Sensor). (t, by_age x (ltb (since + age) now))) unchanged_state

  still_seen :
      (xs : List (RawRead × ℕ))
      → All (λ ((raw, now) : RawRead × ℕ). AddsNothing (value_from s) v raw) xs
      → read_all xs s ≡ s
  unfolding read_all
  still_seen [] a = refl
  still_seen ((raw, now) ∷ rest) (fails n, more) =
      ap (λ (r : Sensor × Reading). read_all rest r.0) (read-none s raw now n)
      ∙ still_seen rest more
  still_seen ((raw, now) ∷ rest) (repeats {x = x} from same, more) =
      ap (λ (r : Sensor × Reading). read_all rest r.0) (read_repeated raw x now from same)
      ∙ still_seen rest more

-- A driver that is stuck on one value is found out. Let a sensor with an age limit be about to report
-- a value v other than the one that it saw last. It reports it. After any reads that give no value,
-- or v again, a read that gives v again is unhealthy if more than the limit has passed since v was
-- first reported, and healthy otherwise: failed reads in between do not restart the limit.
pub stuck_is_unhealthy :
    (s : Sensor) (first raw : RawRead) (v x : Ratio) (age since now : ℕ) (xs : List (RawRead × ℕ))
    → s.max_age ≡ some age
    → value_from s first ≡ some v
    → is_new s.unchanged v ≡ true
    → All (λ ((raw, now) : RawRead × ℕ). AddsNothing (value_from s) v raw) xs
    → value_from s raw ≡ some x
    → same_value x v ≡ true
    → ((read first since s).1 ≡ healthy v)
      × ((read raw now (read_all xs (read first since s).0)).1 ≡ by_age x (ltb (since + age) now))
stuck_is_unhealthy s first raw v x age since now xs limit from new a from' same =
    let s' : Sensor = record s { unchanged = some (v, since) } in
    let one = read-some s first since v from ∙ finish_new s v age since limit new in
    let stays =
      ap (λ (r : Sensor × Reading). read_all xs r.0) one
      ∙ still_seen s' v age since limit refl xs a in
    (
      ap (λ (r : Sensor × Reading). r.1) one,
      ap (λ t. (read raw now t).1) stays
          ∙ ap (λ (r : Sensor × Reading). r.1)
              (read_repeated s' v age since limit refl raw x now from' same),
    )
