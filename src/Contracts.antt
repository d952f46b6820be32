-- ===== src/Contracts.antt =====
-- backend/app/schemas/contracts.py: the frozen channels and the enumerations of the wire contract.
-- A `frozenset[str]` of channels is its membership test, a `dict` over all channels a function.
use shtapm.Base.{
  ◌≡◌, inl, inr, Bool-cases, Bool, true, false, ◌||◌, Option, none, some, List, [], ◌∷◌, String,
  str_eq, arith, if◌then◌else◌,
}

pub data Channel : Type 0 where
  temperature vibration pressure humidity gas current : Channel

pub Channel-discrete : Discrete Channel
Channel-discrete = hlevel

abbrev pub is_channel : Channel → Channel → Bool
is_channel temperature temperature = true
is_channel vibration vibration = true
is_channel pressure pressure = true
is_channel humidity humidity = true
is_channel gas gas = true
is_channel current current = true
is_channel _ _ = false

-- `CHANNELS`.
abbrev pub channels : List Channel
channels = temperature ∷ vibration ∷ pressure ∷ humidity ∷ gas ∷ current ∷ []

abbrev pub channel_name : Channel → String
channel_name temperature = "temperature"
channel_name vibration = "vibration"
channel_name pressure = "pressure"
channel_name humidity = "humidity"
channel_name gas = "gas"
channel_name current = "current"

-- The member of `CHANNELS` that is spelled so; `none` is the test `not in CHANNELS`.
unfoldable pub channel_of : String → Option Channel
channel_of s =
    if str_eq s "temperature"
    then some temperature
    else if str_eq s "vibration"
    then some vibration
    else if str_eq s "pressure"
    then some pressure
    else if str_eq s "humidity"
    then some humidity
    else if str_eq s "gas"
    then some gas
    else if str_eq s "current"
    then some current
    else none

pub data Attribution : Type 0 where
  nothing fault attack : Attribution

pub data HealthState : Type 0 where
  healthy warning critical : HealthState

pub data RlAction : Type 0 where
  continues reduce_weight isolate alert safe_stop : RlAction

abbrev pub ChannelSet : Type 0
ChannelSet = Channel → Bool

-- Truth of a set: some channel is in it.
abbrev pub any_of : ChannelSet → Bool
any_of s = s temperature || s vibration || s pressure || s humidity || s gas || s current

unfoldable pub members : ChannelSet → List Channel → List Channel
members s [] = []
members s (ch ∷ rest) = let r = members s rest in if s ch then ch ∷ r else r

-- `sorted` of a set, by the channels' names.
abbrev pub sorted_members : ChannelSet → List Channel
sorted_members s = members s (current ∷ gas ∷ humidity ∷ pressure ∷ temperature ∷ vibration ∷ [])

pub any_of-false : (s : ChannelSet) (c : Channel) → any_of s ≡ false → s c ≡ false
any_of-false s temperature h = ground arith
any_of-false s vibration h = ground arith
any_of-false s pressure h = ground arith
any_of-false s humidity h = ground arith
any_of-false s gas h = ground arith
any_of-false s current h = ground arith

pub any_of-true : (s : ChannelSet) (c : Channel) → s c ≡ true → any_of s ≡ true
any_of-true s temperature h = ground arith
any_of-true s vibration h = ground arith
any_of-true s pressure h = ground arith
any_of-true s humidity h = ground arith
any_of-true s gas h = ground arith
any_of-true s current h = ground arith

pub any_of-member : (s : ChannelSet) → any_of s ≡ true → (c : Channel) × (s c ≡ true)
any_of-member s h = elim (Bool-cases (s temperature)) [
  | inl e ↦ (temperature, e)
  | inr t ↦ elim (Bool-cases (s vibration)) [
    | inl e ↦ (vibration, e)
    | inr v ↦ elim (Bool-cases (s pressure)) [
      | inl e ↦ (pressure, e)
      | inr p ↦ elim (Bool-cases (s humidity)) [
        | inl e ↦ (humidity, e)
        | inr u ↦ elim (Bool-cases (s gas)) [ inl e ↦ (gas, e) | inr g ↦ (current, ground arith) ]
      ]
    ]
  ]
]
