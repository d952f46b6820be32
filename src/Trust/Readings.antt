-- ===== src/Trust/Readings.antt =====
-- One round of edge/trust/engine.py, and what rounds lead to.
use mathlib.Core.Path.{fun_ext}
use native.Mathlib.Nat.{mul-le-mul_right}
use shtapm.Base.{◌*◌, ◌≡◌, refl, ap, ◌∙◌, arith, none, some, List, [], ◌∷◌}
use shtapm.Contracts.{Channel, channels, temperature, vibration, pressure, humidity, gas, current}
use shtapm.Trust.Beta.{Fraction, BetaState, mix, combine_g, update_beta, decay}
use shtapm.Trust.Detection.{IsUnit, scale_positive}
use shtapm.Trust.Engine.{
  Engine, Provider, Readings, put, reading_of, update_known, update_each, update_from_providers,
}

mix-IsUnit : (c k h : Fraction) → IsUnit c → IsUnit k → IsUnit h → IsUnit (mix c k h)
unfolding mix
mix-IsUnit c k h (pc, uc) (pk, uk) (ph, uh) = (
  omega (arith, scale_positive c.den (k.den * h.den) pc (scale_positive k.den h.den pk ph)),
  omega (
    arith,
    mul-le-mul_right (k.den * h.den) uc,
    mul-le-mul_right (c.den * h.den) uk,
    mul-le-mul_right (c.den * k.den) uh,
  ),
)

combine_g-unit :
    (c k h : Fraction) → IsUnit c → IsUnit k → IsUnit h → combine_g c k h ≡ some (mix c k h)
unfolding combine_g
combine_g-unit c k h (_, uc) (_, uk) (_, uh) = ground arith

update_beta-unit : (s : BetaState) (g : Fraction) → IsUnit g → update_beta s g ≡ some (decay s g)
unfolding update_beta
update_beta-unit s g (_, u) = ground arith

-- The three providers of a round.
pub record Signals : Type 0 where
  pub c : Provider
  pub k : Provider
  pub h : Provider

abbrev pub AllUnit : Signals → Type 0
AllUnit p = (ch : Channel) → IsUnit (p.c ch) × IsUnit (p.k ch) × IsUnit (p.h ch)

abbrev pub evidence : Signals → Channel → Fraction
evidence p ch = mix (p.c ch) (p.k ch) (p.h ch)

module _ (p : Signals) (u : AllUnit p) where
  update_known-unit :
      (e : Engine) (ch : Channel)
      → update_known e ch (p.c ch) (p.k ch) (p.h ch)
        ≡ some (
          put ch (decay (e ch) (evidence p ch)) e,
          reading_of (evidence p ch) (decay (e ch) (evidence p ch)),
        )
  unfolding update_known
  update_known-unit e ch =
      let (uc, uk, uh) = u ch in
      rw
        (
          combine_g-unit (p.c ch) (p.k ch) (p.h ch) uc uk uh,
          update_beta-unit (e ch) (evidence p ch) (mix-IsUnit (p.c ch) (p.k ch) (p.h ch) uc uk uh),
          update_known,
        )
        refl

  advance : List Channel → Engine → Readings → Engine × Readings
  advance [] e out = (e, out)
  advance (ch ∷ rest) e out =
      let s = decay (e ch) (evidence p ch) in
      advance rest (put ch s e) (put ch (some (reading_of (evidence p ch) s)) out)

  update_each-unit :
      (chs : List Channel) (e : Engine) (out : Readings)
      → update_each p.c p.k p.h chs e out ≡ ((advance chs e out).0, some (advance chs e out).1)
  unfolding update_each advance
  update_each-unit [] e out = refl
  update_each-unit (ch ∷ rest) e out =
      let s = decay (e ch) (evidence p ch) in
      rw (update_known-unit e ch, update_each)
        (update_each-unit rest (put ch s e) (put ch (some (reading_of (evidence p ch) s)) out))

  -- A round whose signals are all in [0, 1] returns, for every channel, the reading of the state
  -- that the channel's own mixed evidence leads to, and leaves exactly those states.
  pub update_from_providers_lem :
      (e : Engine)
      → update_from_providers p.c p.k p.h e ≡ (
        λ ch. decay (e ch) (evidence p ch),
        some (λ ch. some (reading_of (evidence p ch) (decay (e ch) (evidence p ch)))),
      )
  unfolding update_from_providers advance
  update_from_providers_lem e =
      update_each-unit channels e (λ ch. none)
      ∙ ap (λ (r : Engine × Readings). (r.0, some r.1))
          (λ i. (fun_ext states i, fun_ext readings i))
    where
      states :
          (ch : Channel) → (advance channels e (λ ch. none)).0 ch ≡ decay (e ch) (evidence p ch)
      states temperature = refl
      states vibration = refl
      states pressure = refl
      states humidity = refl
      states gas = refl
      states current = refl

      readings :
          (ch : Channel)
          → (advance channels e (λ ch. none)).1 ch
            ≡ some (reading_of (evidence p ch) (decay (e ch) (evidence p ch)))
      readings temperature = refl
      readings vibration = refl
      readings pressure = refl
      readings humidity = refl
      readings gas = refl
      readings current = refl
