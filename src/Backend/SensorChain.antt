-- ===== src/Backend/SensorChain.antt =====
-- The chain of a device's sensor transitions, which backend/app/services/sensor_health.py writes.
use shtapm.Base.{
  zero, suc, Bool, true, false, not, ◌&&◌, Option, none, some, List, [], ◌∷◌, ◌++◌, map, String,
  if◌then◌else◌, ◌≡◌, refl, arith, Bool-cases, inl, inr, ap, ◌∙◌, sym,
}
use shtapm.Contracts.{Channel, ChannelSet, sorted_members, is_channel, members, any_of-false}
use shtapm.Backend.SensorHealth.{
  HealthMessage, since_after, update_health, registry_after, SensorEvent, sensor_dead,
  sensor_recovered, SensorBlock, Writes, all_written, no_device, raises_after, blocks_of,
  transition, is_transition, write_health, record_health, chain_after, sensor_kinds, alternate,
  IsWhole,
}

sensor_kinds-append :
    (ch : Channel) (xs ys : List SensorBlock)
    → sensor_kinds ch (xs ++ ys) ≡ sensor_kinds ch xs ++ sensor_kinds ch ys
unfolding sensor_kinds
sensor_kinds-append ch [] ys = refl
sensor_kinds-append ch (b ∷ rest) ys = elim (Bool-cases (is_channel ch b.channel)) [
  | inl q ↦ rw q (ap (λ l. b.event_type ∷ l) (sensor_kinds-append ch rest ys))
  | inr q ↦ rw q (sensor_kinds-append ch rest ys)
]

abbrev one_if : Bool → SensorEvent → List SensorEvent
one_if b e = if b then e ∷ [] else []

sensor_kinds-blocks_of :
    (ch : Channel) (e : SensorEvent) (ts : String) (s : ChannelSet)
    → sensor_kinds ch (blocks_of e ts (sorted_members s)) ≡ one_if (s ch) e
unfolding sensor_kinds members
sensor_kinds-blocks_of ch e ts s = ground arith

alternate-append :
    (b c : Bool) (xs ys : List SensorEvent)
    → alternate b xs ≡ some c
    → alternate b (xs ++ ys) ≡ alternate c ys
unfolding alternate
alternate-append b c [] ys h = ground arith
alternate-append false c (sensor_dead ∷ xs) ys h = alternate-append true c xs ys h
alternate-append true c (sensor_dead ∷ xs) ys h = ground arith
alternate-append true c (sensor_recovered ∷ xs) ys h = alternate-append false c xs ys h
alternate-append false c (sensor_recovered ∷ xs) ys h = ground arith

transition-alternate :
    (m : HealthMessage) (before : ChannelSet) (ch : Channel)
    → alternate (before ch) (sensor_kinds ch (transition m before)) ≡ some (m.stale_channels ch)
unfolding transition alternate
transition-alternate m before ch =
    rw
      (
        sensor_kinds-append ch
            (blocks_of sensor_dead m.ts
              (sorted_members (λ ch. m.stale_channels ch && not (before ch))))
            (blocks_of sensor_recovered m.ts
              (sorted_members (λ ch. before ch && not (m.stale_channels ch)))),
        sensor_kinds-blocks_of ch sensor_dead m.ts (λ ch. m.stale_channels ch && not (before ch)),
        sensor_kinds-blocks_of ch sensor_recovered m.ts
            (λ ch. before ch && not (m.stale_channels ch)),
      )
      (ground arith)

write_health-alternate :
    (w : Writes) (m : HealthMessage) (before : ChannelSet) (ch : Channel)
    → IsWhole ((w, m) ∷ [])
    → alternate (before ch) (sensor_kinds ch (write_health w m before).1)
      ≡ some ((write_health w m before).0 ch)
unfolding alternate sensor_kinds
write_health-alternate all_written m before ch h = transition-alternate m before ch
write_health-alternate no_device m before ch h = refl
write_health-alternate (raises_after zero) m before ch h = refl
write_health-alternate (raises_after (suc n)) m before ch h = absurd h

newest-IsWhole :
    (w : Writes) (m : HealthMessage) (older : List (Writes × HealthMessage))
    → IsWhole ((w, m) ∷ older)
    → IsWhole ((w, m) ∷ [])
newest-IsWhole all_written m older h = tt
newest-IsWhole no_device m older h = tt
newest-IsWhole (raises_after zero) m older h = tt
newest-IsWhole (raises_after (suc n)) m older h = h

older-IsWhole :
    (w : Writes) (m : HealthMessage) (older : List (Writes × HealthMessage))
    → IsWhole ((w, m) ∷ older)
    → IsWhole older
older-IsWhole all_written m older h = h
older-IsWhole no_device m older h = h
older-IsWhole (raises_after zero) m older h = h
older-IsWhole (raises_after (suc n)) m older h = absurd h

all-IsWhole : (history : List HealthMessage) → IsWhole (map (λ m. (all_written, m)) history)
all-IsWhole [] = tt
all-IsWhole (m ∷ older) = all-IsWhole older

-- The registry has the channel.
abbrev pub is_dead : Option String → Bool
is_dead none = false
is_dead (some ts) = true

is_dead-since : (b : Bool) (ts : String) (t : Option String) → is_dead (since_after b ts t) ≡ b
is_dead-since true ts (some t) = refl
is_dead-since true ts none = refl
is_dead-since false ts t = refl

-- What is kept after a message that the database takes is what the message reports.
kept :
    (m : HealthMessage) (before : ChannelSet) (ch : Channel)
    → (record_health all_written m before).0 ch ≡ m.stale_channels ch
unfolding record_health
kept m before ch = elim (Bool-cases (is_transition m before)) [
  | inl e ↦ rw e refl
  | inr e ↦
      let died = any_of-false (λ c. m.stale_channels c && not (before c)) ch in
      let recovered = any_of-false (λ c. before c && not (m.stale_channels c)) ch in
      rw e (ground (arith, died, recovered))
]

kept_is_dead :
    (history : List HealthMessage) (ch : Channel)
    → (chain_after (map (λ m. (all_written, m)) history)).0 ch ≡ is_dead (registry_after history ch)
unfolding chain_after registry_after update_health
kept_is_dead [] ch = refl
kept_is_dead (m ∷ older) ch =
    kept m (chain_after (map (λ m. (all_written, m)) older)).0 ch
    ∙ sym (is_dead-since (m.stale_channels ch) m.ts (registry_after older ch))

-- One message keeps the alternation.
record_health-alternate :
    (w : Writes) (m : HealthMessage) (before : ChannelSet) (ch : Channel)
    → IsWhole ((w, m) ∷ [])
    → alternate (before ch) (sensor_kinds ch (record_health w m before).1)
      ≡ some ((record_health w m before).0 ch)
unfolding record_health alternate sensor_kinds
record_health-alternate w m before ch h = elim (Bool-cases (is_transition m before)) [
  | inr e ↦ rw e refl
  | inl e ↦ rw e (write_health-alternate w m before ch h)
]

-- Wherever no write failed between two blocks, the blocks of each sensor alternate between dead and
-- recovered, dead first, and end with dead exactly if the sensor is in the kept set.
pub chain_after-alternate :
    (history : List (Writes × HealthMessage)) (ch : Channel)
    → IsWhole history
    → alternate false (sensor_kinds ch (chain_after history).1) ≡ some ((chain_after history).0 ch)
unfolding chain_after alternate sensor_kinds
chain_after-alternate [] ch h = refl
chain_after-alternate ((w, m) ∷ older) ch h =
    let before = (chain_after older).0 in
    let old = (chain_after older).1 in
    let new = (record_health w m before).1 in
    ap (alternate false) (sensor_kinds-append ch old new)
    ∙ (alternate-append false (before ch) (sensor_kinds ch old) (sensor_kinds ch new)
          (chain_after-alternate older ch (older-IsWhole w m older h))
        ∙ record_health-alternate w m before ch (newest-IsWhole w m older h))

-- If the database takes every write, the chain and the registry tell the same: a sensor's newest
-- block says dead exactly if the registry has it.
pub chain_as_registry :
    (history : List HealthMessage) (ch : Channel)
    → alternate false (sensor_kinds ch (chain_after (map (λ m. (all_written, m)) history)).1)
      ≡ some (is_dead (registry_after history ch))
chain_as_registry history ch =
    chain_after-alternate (map (λ m. (all_written, m)) history) ch (all-IsWhole history)
    ∙ ap some (kept_is_dead history ch)
