-- ===== src/Rl/Vector.antt =====
-- The states of edge/rl/state.py and the vectors made of them.
use shtapm.Base.{
  ◌≡◌, refl, ◌⊎◌, inl, inr, Bool, true, false, arith, Option, none, some, List, [], ◌∷◌, String, ap,
  map, Option-cases, if◌then◌else◌, ◌∙◌, sym,
}
use shtapm.Trust.Bands.{TrustReading}
use shtapm.Contracts.{
  Channel, channels, channel_name, channel_of, any_of, any_of-false, temperature, vibration,
  pressure, humidity, gas, current,
}
use shtapm.Rl.State.{
  Float, finite, StateInput, StateError, RlState, lookup, in_unit, bad_value, number, or_zero,
  is_missing, new_state, new_state_of_trust, any_unknown, bad_optional, is_not_finite,
  build_rl_state, to_vector, flag_value, missing_channel, unknown_channel,
}

lookup-in_unit :
    (k : String) (t : List (String × Float)) (v : Float)
    → bad_value t ≡ none
    → lookup k t ≡ some v
    → in_unit v ≡ true
unfolding lookup bad_value
lookup-in_unit k [] v b l = cc
lookup-in_unit k ((k', v') ∷ rest) v b l = let ih = lookup-in_unit k rest v in ground arith

in_unit_finite :
    (o : Option Float)
    → is_missing o ≡ false
    → (v : Float) → o ≡ some v
    → in_unit v ≡ true
    → o ≡ some (finite (or_zero (number o)))
unfolding in_unit
in_unit_finite o m v e u = ground arith

past_checks :
    {S : Type 0} (b u : Bool) (e e' : StateError) (x : StateError ⊎ S) (s : S)
    → (if b then inl e else if u then inl e' else x) ≡ inr s
    → (b ≡ false) × (x ≡ inr s)
past_checks b u e e' x s h = ground arith

checked_trust :
    (i : StateInput) (o : Option String) (s : RlState) (ch : Channel)
    → new_state_of_trust i o ≡ inr s
    → (o ≡ none) × (s.trust ch ≡ or_zero (number (lookup (channel_name ch) i.trust)))
unfolding new_state_of_trust
checked_trust i o s ch e = ground arith

-- The scores of a state that the constructor accepts are the finite numbers that the dict holds
-- under the channels' names, each in [0, 1].
pub new_state_scores :
    (i : StateInput) (s : RlState)
    → new_state i ≡ inr s
    → (ch : Channel)
    → (lookup (channel_name ch) i.trust ≡ some (finite (s.trust ch)))
      × (in_unit (finite (s.trust ch)) ≡ true)
unfolding new_state
new_state_scores i s e ch =
    let (present, rest) =
      past_checks (any_of (λ c. is_missing (lookup (channel_name c) i.trust))) (any_unknown i.trust)
        missing_channel unknown_channel (new_state_of_trust i (bad_value i.trust)) s e in
    let (good, value) = checked_trust i (bad_value i.trust) s ch rest in
    let here = any_of-false (λ c. is_missing (lookup (channel_name c) i.trust)) ch present in
    elim (Option-cases (lookup (channel_name ch) i.trust)) [
      | inl n ↦ cc
      | inr (v, q) ↦
          let u = lookup-in_unit (channel_name ch) i.trust v good q in
          let f =
            in_unit_finite (lookup (channel_name ch) i.trust) here v q u
            ∙ ap (λ r. some (finite r)) (sym value) in
          (f, lookup-in_unit (channel_name ch) i.trust (finite (s.trust ch)) good f)
    ]

-- For readings and a health in [0, 1] and a finite failure estimate, where they are there,
-- `build_rl_state` accepts, and the vector of its state is the health, the flag, the six scores
-- in the frozen order of the channels and the estimate, with 0 for what is missing.
pub build_rl_state-vector :
    (health eta : Option Float) (flag : Bool) (trust : Channel → TrustReading)
    → ((ch : Channel) → in_unit (finite (trust ch).trust) ≡ true)
    → bad_optional health ≡ false
    → is_not_finite eta ≡ false
    → (s : RlState) × (build_rl_state health flag trust eta ≡ inr s)
      × (to_vector s
          ≡ or_zero (number health)
            ∷ flag_value flag
            ∷ (trust temperature).trust
            ∷ (trust vibration).trust
            ∷ (trust pressure).trust
            ∷ (trust humidity).trust
            ∷ (trust gas).trust
            ∷ (trust current).trust
            ∷ or_zero (number eta)
            ∷ [])
unfolding build_rl_state new_state new_state_of_trust lookup any_unknown channel_of bad_value
    to_vector
build_rl_state-vector health eta flag trust u h f =
    let items : List (String × Float) =
      map (λ ch. (channel_name ch, finite (trust ch).trust)) channels in
    (
      record {
        health = number health;
        anomaly_flag = flag;
        trust = λ ch. or_zero (number (lookup (channel_name ch) items));
        failure_eta = number eta;
      },
      rw (u temperature, u vibration, u pressure, u humidity, u gas, u current, h, f) refl,
      refl,
    )
