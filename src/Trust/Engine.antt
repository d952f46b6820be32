-- ===== src/Trust/Engine.antt =====
-- edge/trust/engine.py: one reputation for each channel, updated from three signals. A provider is
-- its `evaluate` on the known channels.
use shtapm.Base.{Option, none, some, List, [], ◌∷◌, String, if◌then◌else◌}
use shtapm.Base.Ratio.{Ratio, frac}
use shtapm.Contracts.{Channel, channels, channel_of, is_channel}
use shtapm.Trust.Bands.{TrustReading}
use shtapm.Trust.Beta.{Fraction, BetaState, prior, combine_g, update_beta, trust_of, band_of}

abbrev pub Engine : Type 0
Engine = Channel → BetaState

-- `TrustEngine()` with the default forgetting factor.
abbrev pub new_engine : Engine
new_engine ch = prior

abbrev pub put : {A : Type 0} → Channel → A → (Channel → A) → Channel → A
put ch v f x = if is_channel ch x then v else f x

abbrev pub ratio_of : Fraction → Ratio
ratio_of g = frac g.num g.den

abbrev pub reading_of : Fraction → BetaState → TrustReading
reading_of g s = record { g = ratio_of g; trust = trust_of s; band = band_of s }

-- `update_channel` of a known channel; `none` is a ValueError, which leaves the states alone.
unfoldable pub update_known :
    Engine → Channel → Fraction → Fraction → Fraction → Option (Engine × TrustReading)
update_known e ch c k h = elim (combine_g c k h) [
  | none ↦ none
  | some g ↦ elim (update_beta (e ch) g) [
    | none ↦ none
    | some s ↦ some (put ch s e, reading_of g s)
  ]
]

unfoldable pub update_channel :
    Engine → String → Fraction → Fraction → Fraction → Option (Engine × TrustReading)
update_channel e name c k h = elim (channel_of name) [
  | none ↦ none
  | some ch ↦ update_known e ch c k h
]

abbrev pub Provider : Type 0
Provider = Channel → Fraction

abbrev pub Readings : Type 0
Readings = Channel → Option TrustReading

module _ (c k h : Provider) where
  -- The loop of `update_from_providers`. A signal out of range ends it, with the states that the
  -- channels before it have left.
  unfoldable pub update_each : List Channel → Engine → Readings → Engine × Option Readings
  update_each [] e out = (e, some out)
  update_each (ch ∷ rest) e out = elim (update_known e ch (c ch) (k ch) (h ch)) [
    | none ↦ (e, none)
    | some (e', r) ↦ update_each rest e' (put ch (some r) out)
  ]

  unfoldable pub update_from_providers : Engine → Engine × Option Readings
  unfolding update_each
  update_from_providers e = update_each channels e (λ ch. none)

-- `snapshot`.
unfoldable pub snapshot_of : Engine → Channel → TrustReading
snapshot_of e ch = reading_of (record { num = 0; den = 1 }) (e ch)
