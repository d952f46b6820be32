-- ===== src/Backend/ServiceExamples.antt =====
-- The relay, sensor health and latency services of backend/app/services on concrete messages.
use shtapm.Base.{◌≡◌, refl, true, false, List, [], ◌∷◌, some}
use shtapm.Base.Ratio.{frac}
use shtapm.Contracts.{ChannelSet, gas}
use shtapm.Actuation.Relay.{off}
use shtapm.Actuation.Supervisor.{Status, Cause, given}
use shtapm.Backend.StatusLedger.{
  Database, takes, raises, raises_after_block, raises_after_alert, event_type_for, block_of,
  new_status_recorder, deliver_all,
}
use shtapm.Backend.Redelivery.{deliver_all_lem}
use shtapm.Backend.SensorHealth.{HealthMessage}
use shtapm.Backend.Auth.{User}
use shtapm.Backend.Access.{Device, require_device_access, scope_devices, access_within_scope}
use shtapm.Backend.Latency.{LatencyTracker}

abbrev dry_stop : Status
dry_stop = record {
  device_id = "d";
  ts = "t1";
  relay = off;
  cause = Cause.dry_run;
  reason = given "dry";
  latched = true;
  hardware = true;
}

-- The second and the third delivery store the block before they raise; the fourth one finishes.
abbrev answers : List Database
answers = raises ∷ raises_after_block ∷ raises_after_alert ∷ takes ∷ takes ∷ []

deliver_all_lem_example :
    let d = deliver_all answers dry_stop new_status_recorder in
    (d.blocks ≡ block_of dry_stop ∷ (block_of dry_stop ∷ (block_of dry_stop ∷ [])))
    × (d.alerts ≡ dry_stop ∷ (dry_stop ∷ []))
    × (d.last ≡ some dry_stop)
unfolding event_type_for
deliver_all_lem_example = deliver_all_lem answers dry_stop new_status_recorder refl

abbrev gas_stale : ChannelSet
gas_stale gas = true
gas_stale _ = false

abbrev none_stale : ChannelSet
none_stale ch = false

-- Newest first: gas is stale, stale, answers, and was stale.
abbrev messages : List HealthMessage
messages =
    record { ts = "t4"; stale_channels = gas_stale }
    ∷ (record { ts = "t3"; stale_channels = gas_stale }
        ∷ (record { ts = "t2"; stale_channels = none_stale }
            ∷ (record { ts = "t1"; stale_channels = gas_stale } ∷ [])))

abbrev tracker : LatencyTracker
tracker = record {
  samples = record { capacity = 300; items = frac 30 1 ∷ (frac 10 1 ∷ (frac 20 1 ∷ [])) };
  negative = 0;
}

abbrev operator : User
operator = record {
  id = 1;
  email = "a@b";
  password_hash = "h";
  role = "operator";
  is_active = true;
}

-- A device of the operator, and one of somebody else.
abbrev two_devices : List Device
two_devices =
    record { device_id = "mine"; owner = some 1 }
    ∷ (record { device_id = "other"; owner = some 2 } ∷ [])

access_within_scope_example :
    require_device_access two_devices operator "other"
    ≡ require_device_access (scope_devices operator two_devices) operator "other"
access_within_scope_example =
    access_within_scope two_devices operator "other" ((refl, tt), (tt, tt))
