-- ===== src/Backend/StatusLedger.antt =====
-- backend/app/services/actuation.py: the newest status of a device, and the blocks and alerts that
-- the statuses cause. A text payload is the status itself; how the database answers is an argument.
use shtapm.Base.{
  Bool, true, false, ◌&&◌, Option, none, some, List, [], ◌∷◌, ◌++◌, str_eq, if◌then◌else◌,
}
use shtapm.Actuation.Relay.{RelayState, on, off}
use shtapm.Actuation.Supervisor.{
  Status, Cause, startup, command, safe_stop, dry_run, watchdog, shutdown, is_autonomous,
}

pub data RelayEvent : Type 0 where
  safe_stop_event relay_on_event relay_off_event : RelayEvent

unfoldable pub event_type_for : Status → RelayEvent
event_type_for s = if is_autonomous s.cause then safe_stop_event else by_relay s.relay
  where
    by_relay : RelayState → RelayEvent
    by_relay on = relay_on_event
    by_relay off = relay_off_event

-- `ActuationRegistry`, for one device.
abbrev pub update_latest : Status → Option Status → Option Status
update_latest s latest = some s

-- What the database makes of a status. It takes all writes; it takes the block and fails at the
-- alert, which `raise_alert` swallows; it does not know the device; it raises before the block is
-- stored; or it raises after the block's commit (at the refresh, or when the alert is rolled back),
-- or at the end, after the alert's commit.
pub data Database : Type 0 where
  takes loses_alert unknown_device raises raises_after_block raises_after_alert : Database

pub record RelayBlock : Type 0 where
  pub event_type : RelayEvent
  pub payload : Status

-- A recorder's last key, with the blocks and the statuses of the critical alerts it has written.
pub record StatusRecorder : Type 0 where
  pub last : Option Status
  pub blocks : List RelayBlock
  pub alerts : List Status

abbrev pub new_status_recorder : StatusRecorder
new_status_recorder = record { last = none; blocks = []; alerts = [] }

abbrev pub same_relay : RelayState → RelayState → Bool
same_relay on on = true
same_relay off off = true
same_relay _ _ = false

abbrev pub same_cause : Cause → Cause → Bool
same_cause startup startup = true
same_cause command command = true
same_cause safe_stop safe_stop = true
same_cause dry_run dry_run = true
same_cause watchdog watchdog = true
same_cause shutdown shutdown = true
same_cause _ _ = false

-- Two statuses with one key (ts, relay, cause).
unfoldable pub same_key : Status → Status → Bool
same_key a b = str_eq a.ts b.ts && (same_relay a.relay b.relay && same_cause a.cause b.cause)

abbrev pub is_last : Option Status → Status → Bool
is_last none s = false
is_last (some l) s = same_key l s

abbrev pub is_stop : RelayEvent → Bool
is_stop safe_stop_event = true
is_stop _ = false

abbrev pub block_of : Status → RelayBlock
block_of s = record { event_type = event_type_for s; payload = s }

-- `record`; the alerts are those that are stored. For a status without an alert, the answers
-- about the alert are answers to what is left.
unfoldable pub record_status : Database → Status → StatusRecorder → StatusRecorder
record_status db s r =
    let stored : StatusRecorder = record r { blocks = r.blocks ++ block_of s ∷ [] } in
    let alerted : StatusRecorder = record stored {
      alerts = if is_stop (event_type_for s) then r.alerts ++ s ∷ [] else r.alerts;
    } in
    if is_last r.last s then r else elim db [
      | takes ↦ record alerted { last = some s }
      | loses_alert ↦ record stored { last = some s }
      | raises_after_block ↦ stored
      | raises_after_alert ↦ alerted
      | _ ↦ r
    ]

-- The recorder after the deliveries of one status, each with the database's answer.
unfoldable pub deliver_all : List Database → Status → StatusRecorder → StatusRecorder
deliver_all [] s r = r
deliver_all (db ∷ rest) s r = deliver_all rest s (record_status db s r)
