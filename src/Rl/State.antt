-- ===== src/Rl/State.antt =====
-- edge/rl/state.py: `RLState` and its construction. A dict with string keys is the list of its
-- items, in their order; a float is a ratio or not finite. The
-- three optional labels that say where a state comes from are left out.
use shtapm.Base.{
  Bool, true, false, not, ◌&&◌, ◌||◌, Option, none, some, List, [], ◌∷◌, ◌++◌, map, String, str_eq,
  ◌⊎◌, inl, inr, if◌then◌else◌,
}
use shtapm.Base.Ratio.{Ratio, frac, leb_r}
use shtapm.Trust.Bands.{TrustReading}
use shtapm.Contracts.{Channel, channels, channel_name, channel_of, any_of}

pub data Float : Type 0 where
  finite : Ratio → Float
  not_finite : Float

pub record RlState : Type 0 where
  pub health : Option Ratio
  pub anomaly_flag : Bool
  pub trust : Channel → Ratio
  pub failure_eta : Option Ratio

-- What the constructor is given.
pub record StateInput : Type 0 where
  pub health : Option Float
  pub anomaly_flag : Bool
  pub trust : List (String × Float)
  pub failure_eta : Option Float

-- The reasons for which the constructor raises, in the order of its checks.
pub data StateError : Type 0 where
  missing_channel unknown_channel : StateError
  bad_trust : String → StateError
  bad_health bad_failure_eta : StateError

unfoldable pub lookup : String → List (String × Float) → Option Float
lookup k [] = none
lookup k ((k', v) ∷ rest) = let r = lookup k rest in if str_eq k' k then some v else r

abbrev pub is_missing : {A : Type 0} → Option A → Bool
is_missing none = true
is_missing (some x) = false

unfoldable pub any_unknown : List (String × Float) → Bool
unfolding channel_of
any_unknown [] = false
any_unknown ((k, v) ∷ rest) = is_missing (channel_of k) || any_unknown rest

-- `_require_finite_in_unit_interval`, as a test.
unfoldable pub in_unit : Float → Bool
in_unit not_finite = false
in_unit (finite r) = leb_r (frac 0 1) r && leb_r r (frac 1 1)

unfoldable pub bad_value : List (String × Float) → Option String
bad_value [] = none
bad_value ((k, v) ∷ rest) = let r = bad_value rest in if in_unit v then r else some k

abbrev pub number : Option Float → Option Ratio
number (some (finite r)) = some r
number (some not_finite) = none
number none = none

abbrev pub bad_optional : Option Float → Bool
bad_optional none = false
bad_optional (some v) = not (in_unit v)

abbrev pub is_not_finite : Option Float → Bool
is_not_finite (some not_finite) = true
is_not_finite _ = false

abbrev pub or_zero : Option Ratio → Ratio
or_zero (some r) = r
or_zero none = frac 0 1

-- The checks that follow those of the trust items.
unfoldable pub new_state_of_trust : StateInput → Option String → StateError ⊎ RlState
new_state_of_trust i (some k) = inl (bad_trust k)
new_state_of_trust i none =
    if bad_optional i.health
    then inl bad_health
    else if is_not_finite i.failure_eta
    then inl bad_failure_eta
    else inr (record {
      health = number i.health;
      anomaly_flag = i.anomaly_flag;
      trust = λ ch. or_zero (number (lookup (channel_name ch) i.trust));
      failure_eta = number i.failure_eta;
    })

-- `RLState(...)`, with `__post_init__`. The scores of the accepted state are the items of the
-- dict, which has one for each channel.
unfoldable pub new_state : StateInput → StateError ⊎ RlState
new_state i =
    if any_of (λ ch. is_missing (lookup (channel_name ch) i.trust))
    then inl missing_channel
    else if any_unknown i.trust
    then inl unknown_channel
    else new_state_of_trust i (bad_value i.trust)

abbrev pub flag_value : Bool → Ratio
flag_value true = frac 1 1
flag_value false = frac 0 1

unfoldable pub prognosis_available : RlState → Bool
prognosis_available s = not (is_missing s.health) && not (is_missing s.failure_eta)

unfoldable pub to_vector : RlState → List Ratio
to_vector s =
    (or_zero s.health ∷ flag_value s.anomaly_flag ∷ map s.trust channels)
    ++ (or_zero s.failure_eta ∷ [])

-- `build_rl_state`, of readings for all channels.
unfoldable pub build_rl_state :
    Option Float → Bool → (Channel → TrustReading) → Option Float → StateError ⊎ RlState
build_rl_state health flag trust eta = new_state record {
  health = health;
  anomaly_flag = flag;
  trust = map (λ ch. (channel_name ch, finite (trust ch).trust)) channels;
  failure_eta = eta;
}
