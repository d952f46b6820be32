-- ===== src/Lib.antt =====
-- SHTAPM: self-healing trust-aware predictive maintenance for industrial sensors.
--
-- The edge node judges six sensor channels window by window (trust and isolation), replaces an
-- isolated channel by the reconstruction of a digital twin for a limited time (self-heal), and
-- owns the pump relay (actuation); the backend chains what happened into a ledger per device.
-- The sampler's frames become windows, whose flags, trust and attribution the anomaly pipeline
-- gives; the trust engine's scores are what the tracker classifies.
-- The tracker's isolated set selects the channels that the self-heal cycle processes, whose
-- escalation is the supervisor's `safe_stop`; the same set limits what the RL gate approves. The
-- sampler's frames reach the backend through the publisher, and the changes that the decisions
-- report end as ledger blocks and in the device's condition.
--
--   Base          shared helpers: tests, lists, signed integers, exact fractions
--   Contracts     backend/app/schemas/contracts.py: channels and enumerations
--   Actuation     edge/actuation/{watchdog,relay,supervisor}.py and
--                 backend/app/schemas/actuation.py: `Watchdog`, `RelayController`,
--                 `DryRunDetector`, `SafetySupervisor`. Method names are kept where they can be;
--                 `command` is `on_command`, `safe_stop` is `stop_safely`, `_watch` is
--                 `watch_round`, and `step`/`run` apply a history of calls.
--   Trust         edge/trust/{beta,engine,h_reliability}.py: `BetaState`, `TrustEngine`,
--                 `HReliabilityProvider`; `Trust.Detection` and `Trust.Response` are about the
--                 rounds that a channel needs to cross a band
--   Isolation     edge/pipeline/isolation_fallback.py and isolation_tracker.py
--   Heal          edge/pipeline/{self_heal,uncertainty,cycle,self_heal_runtime}.py
--   Ledger        backend/app/services/ledger.py over backend/app/models/ledger.py
--   Rl            edge/rl/{state,policy,fallback_gate,reward,environment}.py: `RLState`,
--                 `BaselinePolicy`, `evaluate_rl_action`, whose checks are split where a value is
--                 taken apart, and `SHTAPMSimulationEnvironment`, whose `step` is split at the
--                 gate's decision
--   Acquisition   edge/acquisition/{ring_buffer,mqtt_publisher,sampler,health,replay}.py: `append` is
--                 `push`, the methods of the publisher keep their names
--   Anomaly       edge/anomaly/{preprocess,operating_state_rule,attribution,pipeline,detector,
--                 policy}.py, edge/trust/{k_operating_state,c_consistency}.py and
--                 edge/pipeline/monitor.py: from frames to windows, flags and attributions
--   Injection     edge/injection/{injections,live}.py, backend/app/schemas/command.py and
--                 edge/acquisition/command_listener.py: transforms of a stream, offline and live
--   Drivers       edge/drivers/{base,ina219,adxl335,mq135}.py: `Sensor`, the registers of the
--                 INA219 and the conversions of the MCP3008
--   Edge          edge/acquisition/runtime.py: the loop that samples, injects, monitors, publishes;
--                 edge/main.py: `_on_healthy_frame`, `_on_outcome` with `_on_raw_values` and
--                 `_run_self_heal` are `on_healthy_frame`, `report` and `run_self_heal`, which
--                 join supervisor, monitor, pipeline, tracker and self-heal;
--                 edge/pipeline/decision_diagnostic.py: `build_message`, the decisions that the
--                 backend records
--   Backend       backend/app/services/{condition,decision_ledger,alerts,actuation,
--                 sensor_health,latency_tracker}.py, for one device, auth_service.py over the
--                 tables of users and refresh tokens, and backend/app/api/deps.py
--
-- How the model reads the source. Floats are exact: clock readings are natural numbers of
-- milliseconds (the clock does not run backwards), currents are integers of microamperes, scores
-- and readings are signed fractions; NaN has no counterpart outside Rl.State, and `math.inf` as a
-- threshold is `none`. A method takes the clock readings of its call and returns the new state. An
-- exception is a constructor of a result type, or `none`. A set of channels is its membership
-- test, a dictionary a function. A history is a list of calls that do not overlap: where the source
-- has a lock it guarantees that, and elsewhere, as for edge/acquisition/mqtt_publisher.py, it is
-- assumed.
-- Recursion is structural, but for two functions on fuel: the window loop of the preprocessor has
-- fuel one above the number of frames and is proved to end before it is used up, since a window
-- takes a frame at least; `str` of a number has fuel one above the number, and its
-- digits are proved to read back as the number.
-- A database session answers as an argument says, where its faults matter: a write may raise before
-- or after its commit. A restart of the backend is not modelled.
--
-- Outside the model: log lines, the MQTT client's own work, database sessions, threads, neural
-- networks, the isolation forest behind the detector protocol, the k provider of trend signs, the
-- drivers that read kernel files or call a library (BMP280, DHT22, DS18B20) and their registry, the
-- construction of the parts in edge/main.py from settings and files, the routes of the API and the
-- frontend. SHA-256, JSON and ISO texts and ORDER BY are parameters of the ledger; token hashes,
-- password checks and access tokens are parameters of the authentication; the actuator, the twin,
-- the divergence scorer, bus transfers and `sqrt` are arguments.
pub mod Base
pub mod Contracts
pub mod Actuation
pub mod Trust
pub mod Isolation
pub mod Heal
pub mod Ledger
pub mod Rl
pub mod Acquisition
pub mod Anomaly
pub mod Injection
pub mod Drivers
pub mod Edge
pub mod Backend
