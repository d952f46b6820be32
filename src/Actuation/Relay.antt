-- ===== src/Actuation/Relay.antt =====
-- edge/actuation/relay.py: the relay controller over an actuator, and the in-memory actuator.
use shtapm.Base.{◌≡◌, refl, Bool, true, false, List, [], ◌∷◌}

pub data RelayState : Type 0 where
  off on : RelayState

abbrev pub is_state_on : RelayState → Bool
is_state_on off = false
is_state_on on = true

-- What a driver of the abstract class `Actuator` does: `set_state` returns the state afterwards
-- and whether it returned normally (`false` is an exception).
pub record Actuator (S : Type 0) : Type 0 where
  pub set_state : RelayState → S → S × Bool
  pub get_state : S → RelayState

-- A driver that never raises and whose relay is in the state that was set last.
pub record IsReliable {S : Type 0} (a : Actuator S) : Type 0 where
  pub get-set : (r : RelayState) (s : S) → a.get_state (a.set_state r s).0 ≡ r
  pub returns : (r : RelayState) (s : S) → (a.set_state r s).1 ≡ true

-- A driver that may raise, but that never closes the relay when it is told to open it.
pub record NeverCloses {S : Type 0} (a : Actuator S) : Type 0 where
  pub stays_off : (s : S) → a.get_state s ≡ off → a.get_state (a.set_state off s).0 ≡ off

-- `RelayController`: the methods forward to the actuator.
module _ {S : Type 0} (a : Actuator S) where
  -- `__init__` enforces the safe default.
  unfoldable pub new_controller : S → S × Bool
  new_controller s = a.set_state off s

  unfoldable pub switch_on : S → S × Bool
  switch_on s = a.set_state on s

  unfoldable pub safe_off : S → S × Bool
  safe_off s = a.set_state off s

  unfoldable pub is_on : S → Bool
  is_on s = is_state_on (a.get_state s)

-- `FakeActuator`. The source's oldest entry is the last one here.
pub record FakeActuator : Type 0 where
  pub state : RelayState
  pub history : List RelayState

unfoldable pub new_fake : FakeActuator
new_fake = record { state = off; history = off ∷ [] }

unfoldable pub set_fake : RelayState → FakeActuator → FakeActuator × Bool
set_fake r f = (record { state = r; history = r ∷ f.history }, true)

unfoldable pub get_fake : FakeActuator → RelayState
get_fake f = f.state

abbrev pub fake : Actuator FakeActuator
fake = record { set_state = set_fake; get_state = get_fake }

pub fake-IsReliable : IsReliable fake
unfolding set_fake get_fake
fake-IsReliable = record { get-set = λ r s. refl; returns = λ r s. refl }
