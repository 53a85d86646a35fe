-- ===== src/Lib.antt =====
-- A verification library for the airspace conformance platform: the services that turn surveillance
-- reports into tracks, and tracks into alerts.
--
-- The tracker (src/acp/services/track) consumes reports from a topic, keeps one track for each
-- aircraft, and publishes estimates, which it also writes to history and to a live picture. The
-- conformance service (src/acp/services/conformance) consumes those estimates, keeps a picture of the
-- airspace, and on a timer reconciles everything that its detectors find with a lifecycle of alerts.
-- The feed (src/acp/services/feed) drives a simulation of a scenario (src/acp/sim) and publishes its
-- reports, and its true states for the evaluation (eval/conflict_truth.py), which no service consumes.
--
-- Which file models what, each with its proofs in a folder of the same name:
-- - Contracts: src/acp/common/contracts.py, the messages of the topics.
-- - Geodesy: src/acp/common/geodesy.py, units and bearings; Geodesy/Sphere has its great circles and
--   its tangent plane, over the interface `Trig` of `math`.
-- - Kalman: src/acp/services/track/kalman.py, `TrackFilter`. Its matrices are the interface `Algebra`.
-- - Tracks and Estimator: src/acp/services/track/estimator.py. `TrackRecord` is the record of a track,
--   `initiate`, `update_record` and `to_update` are `_initiate`, `_update` and `_to_update`, and
--   `on_report`, `sweep`, `release` and `prune_terminated` are the methods of those names.
-- - TrackRunner: src/acp/services/track/runner.py. `handle`, `flush`, `release_partitions`,
--   `claim_partitions` and `sweep_now` are the methods; `give_up` and `announce_sweep` are the parts
--   of them past their first guards. `arrive` is the first line of the loop of `run`, which does not
--   wait for the lock, and `consume` the loop's body if nothing comes between. A `Write` says what
--   the stores do at a flush: they take the batch, or the history or the live picture raises.
-- - Alerts: src/acp/services/conformance/alerts.py. `observe`, `miss` and `drop` are the bodies of the
--   loops of `reconcile` and `forget`. Alerts/Automaton says what is promised of one condition.
-- - Rules: src/acp/services/conformance/rules.py.
-- - Conflicts: `Conflict` of src/acp/services/conformance/separation.py.
-- - Separation, and Separation/Pairs: the test of one pair of tracks in that file, `_test_pair`.
--   `Analysis` is the interface to `math`, to the projection and to the probability of a conflict.
-- - Conformance: src/acp/services/conformance/monitor.py. What it calls of src/acp/ml is the interface
--   `Predictor`.
-- - ConformanceRunner: src/acp/services/conformance/runner.py. `absorb` and `scan_now` are the methods.
-- - Separation/Grid: `_candidate_pairs` and `scan` of that file. `Floors` is the interface to the floor
--   division.
-- - Stores: src/acp/storage/stores.py. `Redis` and `Json` are the interfaces to the commands and to the
--   encoding of messages, with the laws `IsRedis`; Stores/LiveAlerts, Stores/LiveTracks and
--   Stores/History are its three classes, `Database` is the interface to the two statements of
--   `record`, which is `record_updates` here, with laws for a database and a Redis that can be reached
--   and rows that fit the columns of src/acp/storage/schema.py. Stores/ReadModel puts the conformance service and the
--   alerts' store together, Stores/Effects the tracker and the other two.
-- - Messaging: the subscriber of src/acp/common/messaging.py. `Consumer` is the interface to the Kafka
--   client, with the laws `IsConsumer` of Messaging/Delivery; `deliver` is the body of the loop of
--   `stream`. A session reads a number of records at most and may stop anywhere.
-- - Messaging/Publisher: `MessagePublisher` of the same file, and `current_trace_id` and
--   `inject_headers` of src/acp/common/tracing.py. `Producer`, `Encoder` and `Tracing` are the
--   interfaces to the Kafka client, to the encodings and to OpenTelemetry; `publish_started` is
--   `publish` past its guard.
-- - Scenario: src/acp/sim/scenario.py. `is_bounded` are the bounds and patterns of all the fields,
--   `reject_duplicate_aircraft` and `reject_aircraft_that_never_appear` the two validators.
-- - Flight, Sensor and Simulation: src/acp/sim/engine.py, one aircraft, what the sensor makes of it, and
--   `Simulation`. `World` is the interface to `random.Random`, SHA-256, `timedelta` and the formatting of numbers;
--   `start` is the constructor, `obey` the branches of `_apply_commands`, and `sense` the part of
--   `observe` that draws for one aircraft. There is no result where `math` or the time raises, or
--   where a message is refused by its bounds.
-- - Feed: src/acp/services/feed/runner.py. `tick` is the body of the loop of `run`.
-- - Learning: what serves predictions in src/acp/ml: Baselines, Features and Predictor are the files of
--   those names; there is no answer where the geometry raises. `ResidualModel` and `Statistics` are the interfaces to a trained model and to numpy.
-- - ConflictTruth: eval/conflict_truth.py. `runs_from` is the inner loop of `events`.
-- - Stream: the broadcaster of src/acp/services/api/stream.py.
-- - Waiting: src/acp/common/wait_for_kafka.py and src/acp/storage/wait_for_schema.py.
-- - Samples: concrete inputs of the tests.
-- - Base: names and lemmas that the others share.
--
-- A method that changes its object is a function from the object's state, and from what it reads of
-- the world, to the new state and the result. Times are whole microseconds, the resolution of
-- `datetime`, and a duration in seconds is a number of them; a comparison of a difference with a
-- duration is written as a comparison of sums, so that nothing is taken below zero. Floats are the
-- interface `Float` of Base/Floats, over any type, with the laws of IEEE comparisons (`IsOrdered`)
-- where a theorem needs them; Base/Whole shows that they can hold. Python's `dict` is a list of
-- entries in the order of insertion (Base/Dictionary). `uuid4` is a sequence of names. A set of names
-- is a list that is only asked for its members. Loops over lists are structural recursion. The loops
-- that have no list, `stream` and `wait_loop`, take the number of their rounds: for the waits one more
-- than the poll intervals in the timeout is enough (Waiting/Ends), so 121 rounds for the broker's 240
-- seconds and 151 for the schema's 300. For the feed, one round more than the report intervals that
-- reach the scenario's duration is enough, be it to return or to raise (Feed/Ends). A consumer has
-- no last record, so what is shown of it holds for every number.
--
-- Asynchronous methods that hold the tracker's lock are single steps, and any order of such steps is
-- a list of calls. What a step sends to the broker and to the stores is the list of its effects; that
-- publishing to the broker and forgetting in the live picture succeed is assumed, and Stores/Effects
-- carries the effects out. Keys of Redis expire by
-- themselves, and what is shown of a service with its store holds between expiries.
--
-- Not modelled: the matrices of the filter and the numerics of the probability of conflicts, which are
-- interfaces; the training of predictors, their models and their standardiser (src/acp/ml); the
-- generator of random scenarios, the reading of a scenario's YAML and its fingerprint (src/acp/sim);
-- the pacing of the feed against the wall clock; the other scripts of eval, which run services and
-- write reports; the creation of topics and the listener of a rebalance, which only pass their
-- arguments on; the handlers of the API (src/acp/services/api/app.py) and the handshake of a viewer;
-- and logging, metrics, spans and configuration.
pub mod Base
pub mod Contracts
pub mod Geodesy
pub mod Kalman
pub mod Tracks
pub mod Estimator
pub mod Alerts
pub mod Rules
pub mod TrackRunner
pub mod Conformance
pub mod Conflicts
pub mod ConformanceRunner
pub mod Separation
pub mod Stores
pub mod Messaging
pub mod Waiting
pub mod Stream
pub mod Samples
pub mod Scenario
pub mod Flight
pub mod Sensor
pub mod Simulation
pub mod Feed
pub mod ConflictTruth
pub mod Learning
