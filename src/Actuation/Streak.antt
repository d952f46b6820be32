-- ===== src/Actuation/Streak.antt =====
-- When `DryRunDetector` of edge/actuation/supervisor.py fires.
use shtapm.Base.{
  ℕ, zero, suc, ◌+◌, ◌≡◌, ◌≤◌, refl, true, some, List, [], ◌∷◌, arith, if◌then◌else◌, ◌↔◌, inl, inr,
  All, length, take, Bool-cases,
}
use shtapm.Base.Int.{ℤ}
use shtapm.Actuation.DryRun.{DryRunDetector, in_band, observe}

-- The detector after a history of readings, newest first, with the pump commanded on.
pub watched : DryRunDetector → List (ℤ × ℕ) → DryRunDetector
watched d [] = d
watched d ((current, now) ∷ older) = (observe (watched d older) current true now).0

-- The length of the newest unbroken row of readings in the band.
newest_row : DryRunDetector → List (ℤ × ℕ) → ℕ
newest_row d [] = 0
newest_row d ((current, now) ∷ older) =
    let row = newest_row d older in if in_band d current then suc row else 0

-- What does not change while the detector watches.
record IsSettled (d d' : DryRunDetector) (started : ℕ) : Type 0 where
  threshold : d'.threshold ≡ d.threshold
  hold : d'.hold ≡ d.hold
  grace : d'.grace ≡ d.grace
  started_at : d'.started_at ≡ some started

abbrev pub AfterGrace : DryRunDetector → ℕ → List (ℤ × ℕ) → Type 0
AfterGrace d started = All (λ r. started + d.grace ≤ r.1)

module _ (d : DryRunDetector) (started : ℕ) (begun : d.started_at ≡ some started) where
  watched-IsSettled : (h : List (ℤ × ℕ)) → IsSettled d (watched d h) started
  unfolding watched observe
  watched-IsSettled [] = record { threshold = refl; hold = refl; grace = refl; started_at = begun }
  watched-IsSettled ((current, now) ∷ older) = ground (arith, watched-IsSettled older)

  fires_on_row :
      (current : ℤ) (now : ℕ) (older : List (ℤ × ℕ))
      → (watched d older).streak ≡ newest_row d older
      → started + d.grace ≤ now
      → ((observe (watched d older) current true now).1 ≡ true)
        ↔ (d.hold ≤ newest_row d ((current, now) ∷ older))
  unfolding newest_row observe
  fires_on_row current now older row late = ground (arith, watched-IsSettled older)

  streak_is_row :
      (h : List (ℤ × ℕ))
      → d.streak ≡ 0
      → AfterGrace d started h
      → (watched d h).streak ≡ newest_row d h
  unfolding watched newest_row observe
  streak_is_row [] z late = z
  streak_is_row ((current, now) ∷ older) z late =
      ground (arith, watched-IsSettled older, streak_is_row older z late.1)

row-le :
    (d : DryRunDetector) (k : ℕ) (h : List (ℤ × ℕ))
    → (k ≤ newest_row d h) ↔ ((k ≤ length h) × All (λ r. in_band d r.0 ≡ true) (take k h))
unfolding newest_row
row-le d zero h = ground arith
row-le d (suc k) [] = ground arith
row-le d (suc k) (r ∷ older) = elim (Bool-cases (in_band d r.0)) [
  | inl e ↦ rw e (ground (arith, row-le d k older))
  | inr e ↦ rw e (ground arith)
]

-- The detector fires exactly on the reading that completes `hold` consecutive readings inside the
-- dry-run band: for a detector that was reset at `started`, and readings all taken after the
-- spin-up grace with the pump on, `observe` answers true for the newest reading if and only if
-- there are `hold` readings and the newest `hold` of them are in the band.
pub observe_fires :
    (d : DryRunDetector) (started : ℕ) (current : ℤ) (now : ℕ) (older : List (ℤ × ℕ))
    → d.started_at ≡ some started
    → d.streak ≡ 0
    → AfterGrace d started ((current, now) ∷ older)
    → ((observe (watched d older) current true now).1 ≡ true) ↔ (
        (d.hold ≤ length ((current, now) ∷ older))
        × All (λ r. in_band d r.0 ≡ true) (take d.hold ((current, now) ∷ older)))
observe_fires d started current now older begun z late =
    let fires =
      fires_on_row d started begun current now older (streak_is_row d started begun older z late.1)
        late.0 in
    let row = row-le d d.hold ((current, now) ∷ older) in
    (λ e. row.0 (fires.0 e), λ h. fires.1 (row.1 h))
