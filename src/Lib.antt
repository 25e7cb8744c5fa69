-- ===== src/Lib.antt =====
-- Verification of the Eki bus tracking backend (backend/src). The files model the program's own
-- decision logic, component by component, and prove what makes each correct.
--
-- Geo.antt is backend/src/lib/geo.ts. The language's numbers are a parameter, the record Float of
-- their operations with no law assumed, so that every theorem holds for the rounding, the
-- infinities and the NaN of the real operations; distances are the code's own formulas over it.
--
-- Trip.antt and its children are the trip lifecycle decision,
-- backend/src/services/tripStateReducer.ts: Trip/Types the data, Trip/Evidence the geometry of one
-- pair of fixes, Trip/Passing the choice between two passes through one place (sharedStopPass),
-- Trip/Frame the values that one in-service update derives and the closures over them,
-- Trip/Recovery the loops that credit stops after a GNSS gap or a miss, Trip/Arrival the loop that
-- consumes reached stops and the confirmation of the terminal, Trip/Reducer reduceTripState itself
-- and Trip/Visit visitedStopIndex. Trip/Progress, Trip/Order, Trip/Completion, Trip/Credits and
-- Trip/Departure hold the proofs. The index that a caller hands over is an integer; each loop over
-- stops recurs on the rounds that are left, so that no fuel is chosen. Optional values are Option,
-- and an index beyond the stops reads a default that the code's guards exclude.
--
-- Executor.antt is BoundedKeyedExecutor of backend/src/lib/boundedKeyedExecutor.ts: Executor/Defs
-- its state and every method, Executor/Sound the invariant of its counters and queues,
-- Executor/Pump, Executor/Invariant and Executor/Steps that each method keeps it,
-- Executor/Admission when a task is admitted and what every sequence of operations keeps,
-- Executor/Queues the order within a key. Keys are any type with decidable equality; a task is its
-- promise's number and its age in whole milliseconds, since what the work does is the caller's.
-- What the event loop runs later, a task's timer (expire), its first microtask (begin) and its end
-- (complete), are operations of their own, so that every interleaving is a list of steps. The loop
-- of pump recurs on the keys that are ready, since no round adds one. The snapshot and the
-- iteration over pending promises only read.
--
-- Leadership.antt is the election of the background worker,
-- backend/src/services/workerCoordinator.ts with backend/src/lib/workerFence.ts: Leadership/Defs
-- the lease document, one process's part of it and the steps of all processes together,
-- Leadership/Exclusion and Leadership/Reachable what each step keeps of one process,
-- Leadership/Exclusive all processes together. A transaction of the document store is one atomic
-- step at a wall time; the wall clock of a process is up to 4 seconds ahead of the earliest one,
-- which is twice the skew that the code allows for, and does not drift; within one step the wall
-- clock and the monotonic clock are read at one moment. The background services that a leader
-- starts and stops are not modelled there, and a transaction that fails is the step fail.
--
-- RateLimit.antt is backend/src/services/deviceRateLimiter.ts: RateLimit/Defs the decision for one
-- device's window, the reservation of tokens, and consumeUnlocked in its two modes, cut in two at
-- the call of the shared allocator, which is not under src; RateLimit/Window what holds of one
-- device, RateLimit/Tokens what holds of all. Requests of one device are serialized by consume, so
-- that the two halves of a request of one device are not interleaved with another of the same
-- device. Device ids are of any type with decidable equality and a test that is false for the
-- empty one. Times and counts are natural numbers; other values of a stored bucket count as
-- missing, and the messages of errors are left out. Reading the configuration from the environment
-- is not modelled.
--
-- Lru.antt is LruCache of backend/src/lib/lruCache.ts, its entries as a list in the order of their
-- last use. The loop that evicts recurs on the entries; what an eviction hook does with the
-- evicted entries is the caller's, so they are returned.
--
-- Matching.antt is backend/src/services/routeMatching.ts: Matching/Segments the geometry of a
-- path, Matching/Bisection the binary search in its distances, Matching/Search matchRoutePosition,
-- Matching/Adherence evaluateRouteAdherence; Matching/Best and Matching/Missing hold proofs. The
-- loop over segments recurs on the segments that are left, and the binary search on as many rounds
-- as there are values. The cache of distances by path only saves time, and the counters of work
-- are metrics; neither is modelled. A theorem about the order of scores or distances names the
-- laws of the comparison that it uses.
--
-- Direction.antt is the direction of a ride: Direction/Endpoint
-- backend/src/lib/automaticRideDirection.ts and backend/src/lib/rideDirection.ts,
-- Direction/Departure backend/src/services/departureDirection.ts on top of route matching;
-- Direction/Symmetry and Direction/Mirror hold proofs. Stored fixes whose fields have the wrong
-- type are left out before, and a stored context that differs is an empty list.
--
-- Motion.antt is backend/src/lib/telemetryMotion.ts: Motion/Defs whether a position can follow
-- another one, and when a position is accepted again after an outage; Motion/Reacquisition holds
-- proofs.
--
-- Circuit.antt is the class RerouteProviderCircuit of backend/src/services/rerouteRetry.ts:
-- Circuit/Defs the circuit, its permits and the steps of all requests together, Circuit/Probes the
-- proofs. The random part of a waiting time is an argument of a step between the half and the
-- whole of its ceiling. The backoff of a single ride in that file is not modelled.
--
-- Polyline.antt is backend/src/lib/polylineUtils.ts: Polyline/Defs writes and reads encoded
-- polylines, Polyline/Value and Polyline/RoundTrip hold proofs. Coordinates are whole numbers of
-- 1e-5 degrees; the conversion to and from degrees is floating point and is left out. A difference
-- of two coordinates keeps the wrap-around of 32 bits; the loop that writes a number of 31 bits
-- takes at most six rounds, and the loop that reads points has as much fuel as there are
-- characters, of which each point takes two.
--
-- Telemetry.antt is the intake of a sample from a device: Telemetry/Payload parseTelemetryValue of
-- backend/src/services/telemetryPayload.ts, and from
-- backend/src/services/deviceTelemetryService.ts Telemetry/Order telemetrySampleIsNewer,
-- Telemetry/Fixes the stored positions and Telemetry/Intake nextTelemetryValue;
-- Telemetry/Delivery, Telemetry/Replay and Telemetry/Jump hold proofs. A live record has the
-- fields that this function reads or writes, and one value for all others, which it keeps. A
-- transaction of the store is one step. The reading of JSON text, the credentials of a device and
-- what is scheduled after the write are not modelled.
--
-- Chat.antt is evaluateChatRate of backend/src/services/chatRateLimit.ts: Chat/Defs the decision
-- for a stored document in its current and its legacy form, Chat/Recent and Chat/Limits its
-- proofs. Times are whole milliseconds. The normal form of a text and its censoring, in the same
-- file, work on Unicode classes and regular expressions and are not modelled.
--
-- Abandoned.antt is backend/src/services/abandonedRideReconciliationLogic.ts: Abandoned/Defs
-- reconciliationDecision, Abandoned/Decision its proof. A time is what timestampMillis reads, in
-- whole milliseconds, or none; the forms that a stored time can have are not modelled. What the
-- reconciler does with an abandoned ride is in Rides/Start.
--
-- Rides.antt is the rides of one bus in the document store, over every order of the transactions
-- that open, advance and end them: Rides/Records the documents, Rides/History missingStopHistory
-- of backend/src/services/rideProgressHistory.ts, Rides/Start the transactions of
-- backend/src/services/rideSessionStart.ts, backend/src/routes/shifts.ts and
-- backend/src/services/abandonedRideReconciler.ts, Rides/Attach the lock of a live ride and the
-- writes after a start of rideSessionStart.ts with backend/src/services/rideHistoryDeletion.ts,
-- Rides/Engine, Rides/Completion and Rides/Return those of
-- backend/src/services/tripStateEngine.ts, and Rides/Steps all of them together; Rides/Consistent,
-- Rides/Owned, Rides/Attached, Rides/Started, Rides/Kept and Rides/Progress hold proofs. A
-- transaction is one atomic step, and what it reads of the live node is an argument that may be
-- out of date, so that a crash between two transactions or a late event is a run like any other.
-- The reducer's result is an argument, too: it is Trip. Rides/Live is the transactions on the live
-- node in tripStateEngine.ts, Rides/Claims every order of them and of samples, starts and sweeps,
-- Rides/Claimed their proofs; the names of end stops and the display fields of a node are left
-- out. Known and last locations, the fleet projection and the writers' queues are not modelled,
-- nor are the binding of an idempotency key and the checks of a route's version at a start, which
-- can only refuse it. The deletion of a history is one step, since a finished session stays
-- finished. A start that carries no idempotency key, as POST /api/shifts/start may, writes the
-- status of a session and takes the lock of a live ride without the looks at the session that a
-- key adds; Rides/Attach has these writes, Tests/Rides runs them, and Rides/Steps leaves them out.
-- Also left out are the reservation of the lock for an installation of firmware, of
-- backend/src/routes/devices.ts, which names no session, stands only where no other lock does and
-- so can only refuse a start, and the write of a resolved direction, of
-- backend/src/services/telemetryRouteService.ts, which changes no status and no owner.
--
-- Flight.antt is backend/src/lib/boundedSingleFlight.ts: Flight/Defs the operations on the
-- flights, with the end of a fill's work and the end of a caller's wait as operations of their
-- own, Flight/Bounds the runs of any operations; Flight/Invariant, Flight/Operations and
-- Flight/Ages hold proofs. A flight object is named by a number, since callers keep it after it
-- left the map. A budget and a time are whole milliseconds or counts. ReadCache.antt is
-- backend/src/services/apiReadCache.ts on top of it and of Lru.antt: ReadCache/Defs the
-- operations, ReadCache/Steps every order of reads, loads, edits of the data and invalidations;
-- ReadCache/Entries, ReadCache/Fresh, ReadCache/Kept and ReadCache/Since hold proofs. The call of
-- load is outside code: it answers with what the data has at some moment of the call, or fails.
-- Whether a value is small enough to be kept is an argument, and a value that has no JSON text has
-- no counterpart.
--
-- Not modelled are the HTTP routes and their middleware, the clients of the stores, the map
-- service and the notification service, which only pass values on; the health checks, metrics and
-- logs, which decide nothing; the frontend, which is views and a few small stores; the boarding of
-- passengers, live telemetry routing, retention and privacy deletion, the scheduler of pending
-- positions and the projection of the live bus, which are the backend's parts that are left; and
-- the device firmware in hardware/, which is C++.
pub mod Prelude
pub mod Geo
pub mod Trip
pub mod Executor
pub mod Leadership
pub mod RateLimit
pub mod Lru
pub mod Matching
pub mod Direction
pub mod Motion
pub mod Circuit
pub mod Polyline
pub mod Telemetry
pub mod Chat
pub mod Abandoned
pub mod Rides
pub mod Flight
pub mod ReadCache
mod Tests
