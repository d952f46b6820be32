-- ===== src/Trust/Detection.antt =====
-- How fast the trust of edge/trust/beta.py follows the evidence.
use native.Mathlib.Nat.{mul-add, mul-le-mul_left}
use shtapm.Base.{ℕ, ◌+◌, ◌-◌, ◌*◌, ◌≤◌, ◌<◌, ◌≡◌, refl, ap, arith, List, [], ◌∷◌}
use shtapm.Trust.Bands.{trusted, malicious, classify}
use shtapm.Trust.Beta.{Fraction, BetaState, prior, default_lambda, trust_of, band_of, decay}

abbrev pub IsUnit : Fraction → Type 0
IsUnit g = (0 < g.den) × (g.num ≤ g.den)

-- What holds from the priors on: the default forgetting, and 0 < alpha + beta ≤ 10/3.
pub record IsReputation (s : BetaState) : Type 0 where
  pub lambda : s.forgetting ≡ default_lambda
  pub positive : 0 < s.scale
  pub evidence : 0 < s.alpha + s.beta
  pub bounded : 3 * (s.alpha + s.beta) ≤ 10 * s.scale

pub prior-IsReputation : IsReputation prior
prior-IsReputation = record {
  lambda = refl;
  positive = omega arith;
  evidence = omega arith;
  bounded = omega arith;
}

pub scale_positive : (d q : ℕ) → 0 < d → 0 < q → 0 < d * q
scale_positive d q p u = grind arith

module _ (a b d n q : ℕ) where
  -- The evidence of both kinds is one window's worth.
  decayed_total :
      n ≤ q
      → 7 * q * a + 10 * d * n + (7 * q * b + 10 * d * (q - n)) ≡ 7 * (q * (a + b)) + 10 * (d * q)
  decayed_total h = let e : n + (q - n) ≡ q = omega arith in omega (arith, ap (λ (t : ℕ). d * t) e)

  decayed_bounded :
      3 * (a + b) ≤ 10 * d → 3 * (7 * (q * (a + b)) + 10 * (d * q)) ≤ 10 * (10 * d * q)
  decayed_bounded h = omega (arith, mul-le-mul_left q h)

pub decay-IsReputation :
    (s : BetaState) (g : Fraction) → IsUnit g → IsReputation s → IsReputation (decay s g)
unfolding decay
decay-IsReputation s g (d, u) r =
    let l = r.lambda in
    let p = scale_positive s.scale g.den r.positive d in
    let t = decayed_total s.alpha s.beta s.scale g.num g.den u in
    let b = decayed_bounded s.alpha s.beta s.scale g.num g.den r.bounded in
    record {
      lambda = l;
      positive = rw l (omega (arith, p));
      evidence = rw l (omega (arith, p, t));
      bounded = rw l (omega (arith, t, b));
    }

-- A window without any evidence for the sensor.
abbrev pub IsZero : Fraction → Type 0
IsZero g = (0 < g.den) × (g.num ≡ 0)

abbrev pub IsOne : Fraction → Type 0
IsOne g = (0 < g.den) × (g.num ≡ g.den)

abbrev pub decay_all : BetaState → List Fraction → BetaState
decay_all s [] = s
decay_all s (g ∷ rest) = decay_all (decay s g) rest

module _ (x y z a b d q : ℕ) where
  scaled_step :
      7 * x * a ≤ 7 * y * b + 10 * (y + z) * d
      → x * (7 * q * a + 10 * d * 0) ≤ y * (7 * q * b + 10 * d * q) + z * (10 * d * q)
  scaled_step h = omega (
    arith,
    mul-le-mul_left q h,
    mul-add x (7 * q * a) (10 * d * 0),
    mul-add y (7 * q * b) (10 * d * q),
    mul-add q (7 * y * b) (10 * (y + z) * d),
    mul-add (q * d) y z,
  )

-- One window, on a bound of the one count by the other and the scale.
module _ (s : BetaState) (g : Fraction) (r : IsReputation s) where
  zero_step :
      (x y z : ℕ)
      → IsZero g
      → 7 * x * s.alpha ≤ 7 * y * s.beta + 10 * (y + z) * s.scale
      → x * (decay s g).alpha ≤ y * (decay s g).beta + z * (decay s g).scale
  unfolding decay
  zero_step x y z (p, e) h =
      let whole : g.den - 0 ≡ g.den = omega arith in
      rw (r.lambda, e, whole) (scaled_step x y z s.alpha s.beta s.scale g.den h)

  zero_last : IsZero g → 42 * s.alpha ≤ 28 * s.beta + 30 * s.scale → band_of (decay s g) ≡ malicious
  unfolding decay classify trust_of
  zero_last (p, e) h =
      let d = scale_positive s.scale g.den r.positive p in
      let m = mul-le-mul_left g.den h in rw (r.lambda, e) (ground arith)

  one_step :
      (x y z : ℕ)
      → IsOne g
      → 7 * x * s.beta ≤ 7 * y * s.alpha + 10 * (y + z) * s.scale
      → x * (decay s g).beta ≤ y * (decay s g).alpha + z * (decay s g).scale
  unfolding decay
  one_step x y z (p, e) h =
      let none_left : g.den - g.den ≡ 0 = omega arith in
      rw (r.lambda, e, none_left) (omega (arith, mul-le-mul_left g.den h))

pub zero-IsUnit : (g : Fraction) → IsZero g → IsUnit g
zero-IsUnit g (p, e) = (p, omega arith)

pub one-IsUnit : (g : Fraction) → IsOne g → IsUnit g
one-IsUnit g (p, e) = (p, omega arith)

-- Three windows of zero evidence put a sensor in the malicious band, whatever updates with
-- evidence in [0, 1] came before them.
pub three_zeros :
    (s : BetaState) (g g' g'' : Fraction)
    → IsReputation s
    → IsZero g
    → IsZero g'
    → IsZero g''
    → band_of (decay (decay (decay s g) g') g'') ≡ malicious
three_zeros s g g' g'' r z z' z'' =
    let r1 = decay-IsReputation s g (zero-IsUnit g z) r in
    let r2 = decay-IsReputation (decay s g) g' (zero-IsUnit g' z') r1 in
    let s1 = zero_step s g r 294 196 580 z (omega (arith, r.bounded)) in
    let s2 = zero_step (decay s g) g' r1 42 28 30 z' (omega (arith, s1)) in
    zero_last (decay (decay s g) g') g'' r2 z'' (omega (arith, s2))

-- Enough alpha for the trusted band.
is_trusted : (s : BetaState) → 0 < s.alpha + s.beta → 7 * s.beta ≤ 3 * s.alpha → band_of s ≡ trusted
unfolding classify trust_of
is_trusted s p h = ground arith

-- Four windows of full evidence put a sensor in the trusted band, whatever updates with evidence
-- in [0, 1] came before them.
pub four_ones :
    (s : BetaState) (g g' g'' last : Fraction)
    → IsReputation s
    → IsOne g
    → IsOne g'
    → IsOne g''
    → IsOne last
    → band_of (decay (decay (decay (decay s g) g') g'') last) ≡ trusted
four_ones s g g' g'' last r o o' o'' o4 =
    let s1 = decay s g in
    let s2 = decay s1 g' in
    let s3 = decay s2 g'' in
    let r1 = decay-IsReputation s g (one-IsUnit g o) r in
    let r2 = decay-IsReputation s1 g' (one-IsUnit g' o') r1 in
    let r3 = decay-IsReputation s2 g'' (one-IsUnit g'' o'') r2 in
    let r4 = decay-IsReputation s3 last (one-IsUnit last o4) r3 in
    let b1 = one_step s g r 2401 1029 6570 o (omega (arith, r.bounded)) in
    let b2 = one_step s1 g' r1 343 147 510 o' (omega (arith, b1)) in
    let b3 = one_step s2 g'' r2 49 21 30 o'' (omega (arith, b2)) in
    let b4 = one_step s3 last r3 7 3 0 o4 (omega (arith, b3)) in
    is_trusted (decay s3 last) r4.evidence (omega (arith, b4))
