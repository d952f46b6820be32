-- ===== src/Isolation/Examples.antt =====
-- The isolation tracker of edge/pipeline/isolation_tracker.py on concrete readings.
use shtapm.Base.{ℕ, ◌≡◌, refl, true, ◌↔◌, List, [], ◌∷◌}
use shtapm.Base.Ratio.{frac}
use shtapm.Contracts.{current}
use shtapm.Trust.Bands.{classify}
use shtapm.Isolation.{TrustMap, update}
use shtapm.Isolation.History.{tracked_after, FellSince, tracked_iff_fell}

-- Every channel with the score n / 10.
abbrev score : ℕ → TrustMap
score n ch = record { g = frac 1 2; trust = frac n 10; band = classify (frac n 10) }

-- The score falls to 0.3, then hovers at 0.5 and 0.6; newest first.
abbrev hovering : List TrustMap
hovering = score 6 ∷ score 5 ∷ score 3 ∷ score 9 ∷ []

tracked_iff_fell_example : (tracked_after hovering current ≡ true) ↔ FellSince current hovering
tracked_iff_fell_example = tracked_iff_fell current hovering (refl, (refl, (refl, (refl, tt))))

still_tracked : tracked_after hovering current ≡ true
unfolding tracked_after update classify
still_tracked = refl
