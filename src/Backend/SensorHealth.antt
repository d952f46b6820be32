-- ===== src/Backend/SensorHealth.antt =====
-- backend/app/services/sensor_health.py: since when each sensor is dead, and the blocks and alerts
-- of the transitions. How the database answers is an argument.
use shtapm.Base.{
  ℕ, zero, suc, take, Bool, true, false, not, ◌&&◌, ◌||◌, Option, none, some, List, [], ◌∷◌, ◌++◌,
  map, String, if◌then◌else◌, ◌≡◌, refl, Bool-cases, inl, inr,
}
use shtapm.Contracts.{Channel, ChannelSet, any_of, sorted_members, is_channel}

-- The part of a decision that these services read.
pub record HealthMessage : Type 0 where
  pub ts : String
  pub stale_channels : ChannelSet

-- `SensorHealthRegistry`: since when a channel is stale.
abbrev pub since_after : Bool → String → Option String → Option String
since_after true ts (some t) = some t
since_after true ts none = some ts
since_after false ts t = none

unfoldable pub update_health : HealthMessage → (Channel → Option String) → Channel → Option String
update_health m current ch = since_after (m.stale_channels ch) m.ts (current ch)

-- The registry after a history of messages, newest first.
unfoldable pub registry_after : List HealthMessage → Channel → Option String
registry_after [] ch = none
registry_after (m ∷ older) ch = update_health m (registry_after older) ch

-- The newest messages of a history that report a channel stale, without a break.
unfoldable pub stale_run : Channel → List HealthMessage → List HealthMessage
stale_run ch [] = []
stale_run ch (m ∷ older) = let r = stale_run ch older in if m.stale_channels ch then m ∷ r else []

-- The timestamp of the oldest of some messages.
abbrev pub oldest_ts : List HealthMessage → Option String
oldest_ts [] = none
oldest_ts (m ∷ []) = some m.ts
oldest_ts (m ∷ (n ∷ older)) = oldest_ts (n ∷ older)

since_run :
    (ts : String) (n : HealthMessage) (older : List HealthMessage)
    → since_after true ts (oldest_ts (n ∷ older)) ≡ oldest_ts (n ∷ older)
since_run ts n [] = refl
since_run ts n (k ∷ older) = since_run ts k older

since_longer :
    (m : HealthMessage) (run : List HealthMessage)
    → since_after true m.ts (oldest_ts run) ≡ oldest_ts (m ∷ run)
since_longer m [] = refl
since_longer m (n ∷ older) = since_run m.ts n older

-- The registry tells since when: a channel has the timestamp of the first message of those that have
-- reported it stale without a break, and none if the newest message does not report it.
pub registry_after_lem :
    (history : List HealthMessage) (ch : Channel)
    → registry_after history ch ≡ oldest_ts (stale_run ch history)
unfolding registry_after update_health stale_run
registry_after_lem [] ch = refl
registry_after_lem (m ∷ older) ch = elim (Bool-cases (m.stale_channels ch)) [
  | inr e ↦ rw e refl
  | inl e ↦ rw (e, registry_after_lem older ch) (since_longer m (stale_run ch older))
]

pub data SensorEvent : Type 0 where
  sensor_dead sensor_recovered : SensorEvent

pub record SensorBlock : Type 0 where
  pub event_type : SensorEvent
  pub channel : Channel
  pub ts : String

-- What the database makes of a transition: it takes all writes, does not know the device, or
-- raises after some blocks.
pub data Writes : Type 0 where
  all_written no_device : Writes
  raises_after : ℕ → Writes

abbrev pub blocks_of : SensorEvent → String → List Channel → List SensorBlock
blocks_of e ts chs = map (λ ch. record { event_type = e; channel = ch; ts = ts }) chs

-- The blocks of a transition, in the order of their writing.
unfoldable pub transition : HealthMessage → ChannelSet → List SensorBlock
transition m before =
    blocks_of sensor_dead m.ts (sorted_members (λ ch. m.stale_channels ch && not (before ch)))
    ++ blocks_of sensor_recovered m.ts
        (sorted_members (λ ch. before ch && not (m.stale_channels ch)))

abbrev pub is_transition : HealthMessage → ChannelSet → Bool
is_transition m before =
    any_of (λ ch. m.stale_channels ch && not (before ch))
    || any_of (λ ch. before ch && not (m.stale_channels ch))

-- What is kept and written of a transition.
abbrev pub write_health : Writes → HealthMessage → ChannelSet → ChannelSet × List SensorBlock
write_health all_written m before = (m.stale_channels, transition m before)
write_health no_device m before = (before, [])
write_health (raises_after n) m before = (before, take n (transition m before))

-- `record` of `SensorHealthLedger`: the stale set that is kept, and the blocks. Each dead sensor's
-- block is followed by one warning, which is left out.
unfoldable pub record_health : Writes → HealthMessage → ChannelSet → ChannelSet × List SensorBlock
record_health w m before =
    if not (is_transition m before) then (before, []) else write_health w m before

-- The kept set and the chain after a history, newest first.
unfoldable pub chain_after : List (Writes × HealthMessage) → ChannelSet × List SensorBlock
chain_after [] = (λ ch. false, [])
chain_after ((w, m) ∷ older) =
    let (before, chain) = chain_after older in
    let (stale, blocks) = record_health w m before in (stale, chain ++ blocks)

-- The types of a channel's blocks.
unfoldable pub sensor_kinds : Channel → List SensorBlock → List SensorEvent
sensor_kinds ch [] = []
sensor_kinds ch (b ∷ rest) =
    let r = sensor_kinds ch rest in if is_channel ch b.channel then b.event_type ∷ r else r

-- Whether the sensor is dead after blocks of these types; `none` if they do not alternate.
unfoldable pub alternate : Bool → List SensorEvent → Option Bool
alternate dead [] = some dead
alternate false (sensor_dead ∷ rest) = alternate true rest
alternate true (sensor_dead ∷ rest) = none
alternate true (sensor_recovered ∷ rest) = alternate false rest
alternate false (sensor_recovered ∷ rest) = none

-- No write of a history failed between two blocks.
abbrev pub IsWhole : List (Writes × HealthMessage) → Type 0
IsWhole [] = Unit
IsWhole ((raises_after (suc n), m) ∷ older) = ⊥
IsWhole ((raises_after zero, m) ∷ older) = IsWhole older
IsWhole ((all_written, m) ∷ older) = IsWhole older
IsWhole ((no_device, m) ∷ older) = IsWhole older
