-- ===== src/Lib.antt =====
-- Verification library of the hardware interface services.
--
-- The repository is a collection of HAL services. This library models the parts with logic of their
-- own; each module names the source files that it is about.
--
-- Perfmgr: power-libperfmgr/aidl, the power HAL's hint sessions.
--   Perfmgr/Votes.antt: UClampVoter.h and UClampVoter.cpp. `Votes` holds the class's two maps;
--     each method is a function on it that returns the new votes, and what the method returns.
--     Laws: the operations that change the votes; Range: getUclampRange and getGpuCapacityRequest;
--     Timeout: anyTimedOut and allTimedOut.
--   Perfmgr/SessionRecords.antt: SessionRecords.h and SessionRecords.cpp. The record has the class's
--     fields; the body of the loop of addReportedDurations is make_room, prepare and store_record.
--     Ring: slots of the ring; Maxima: the queue of the descending maxima; Tracking and Window: the
--     fields against the history of reports; Queries: the answers.
--   Perfmgr/SessionTaskMap.antt: SessionTaskMap.h and SessionTaskMap.cpp, over a store of the objects
--     that `shared_ptr`s point to. Links: counting links between tasks and sessions; Invariant,
--     Operations, Replace, History: what the calls keep; Queries, Aggregates: what they answer.
--     The map calls the votes of its sessions through the functions of Perfmgr/Votes.antt.
--   Perfmgr/InteractionHandler.antt: InteractionHandler.h and InteractionHandler.cpp. A method returns
--     the new state and its calls of the hint manager; a turn of the thread under the lock is one
--     step. Duration: how long a boost lasts; Hints: every run of the handler and its thread.
--   Perfmgr/ChannelGroup.antt: ChannelGroup.h, ChannelGroup.cpp, SessionChannel.h and
--     SessionChannel.cpp. A group holds its sixteen slots; `dispatch` is the loop of runChannelGroup
--     over the messages that it has read. Slots: creating and removing channels; Bits: their bits;
--     Messages: the calls of sessions.
--   Perfmgr/ChannelManager.antt: ChannelManager.h and ChannelManager.cpp, over those groups. Links:
--     what ties the map to the slots; Rooms: the group a new channel goes to; Opening, Closing:
--     the two operations; History: what any calls lead to.
--   Perfmgr/SessionMetrics.antt: SessionMetrics.h and SessionMetrics.cpp, what is counted of the frames
--     that SessionRecords reports. Histograms: the buckets and times of game frames; Totals: the
--     number of frames.
--   Perfmgr/GpuCapacity.antt: GpuCalculationHelpers.h and GpuCalculationHelpers.cpp.
--   Perfmgr/PowerHintSession.antt: PowerHintSession.h, PowerHintSession.cpp and AppHintDesc.h, a session
--     over SessionRecords. A method returns the session, its calls of the session manager and its
--     status. Calls, Hints: the methods but reports; Pid, Report: reportActualWorkDuration; Requests:
--     histories. Loop, Windows: the controller; Janks: the jank level; Refusals, Phases,
--     Reporting, History, Limits, Returns: what is shown of the methods.
--   Perfmgr/PowerSessionManager.antt: PowerSessionManager.h and PowerSessionManager.cpp, votes and their
--     timeouts over SessionTaskMap. The worker of BackgroundWorker.h is a list of events, of which it
--     takes any. Active: which votes are active; Kept, Threads, Managed, Added: the methods that keep
--     the votes; Watch, Events, Timeouts: the events; Ranges: the ranges of
--     tasks. Sessions, Lifetime, Pauses: the rest of the class, with the fields of a session's entry
--     that the map does not read; Collected: the metrics kept for the upload and the map of
--     registered sessions; Removal: removing a session.
--   Perfmgr/BackgroundWorker.antt: BackgroundWorker.h and BackgroundWorker.cpp, the pool that runs
--     packages at their deadlines. Packages: none is lost; Turns: a turn of the loop, with the earliest
--     first. The manager above is shown for a worker that takes any event, so for this one too.
-- Fingerprint: biometrics/fingerprint/aidl, a session over the legacy fingerprint HAL.
--   Fingerprint/LockoutTracker.antt: LockoutTracker.h and LockoutTracker.cpp; Attempts: the mode as
--     attempts fail and time passes.
--   Fingerprint/AuthToken.antt: include/Legacy2Aidl.h, tokens to the legacy form and back.
--   Fingerprint/Session.antt: Session.h and Session.cpp. A method returns the new state and the calls
--     that it makes outside, in order. Runs: the sessions that calls, messages and timer threads
--     lead to; Lockout: the lockout timer in them; Messages: what several messages of the device add up to. The session owns a
--     tracker, and each of its timer threads runs lockoutTimerExpired as one step.
-- Health: health/aidl/default, charging control and fast charging over device files, which are the
--   parameter `Files` of Health/Files.antt; its documented behaviour is the hypothesis `AreFaithful`.
--   Health/ChargingControl.antt: ChargingControl.cpp; Search: the constructor's search for a node,
--     whose fuel is the number of rounds, and one round more than there are waits is enough;
--     Roundtrips: what is set and what is answered. Health/FastCharge.antt: FastCharge.cpp.
-- Light: light, the light service over LEDs and backlights in sysfs.
--   Light/Models.antt: models/ and Utils.cpp; Light/Sysfs.antt: the files of Utils.h. What is written
--     is a log, the newest first; what the kernel answers is a parameter that may depend on it.
--   Light/LedDevice.antt, Light/BacklightDevice.antt, Light/RgbLedDevice.antt: devices/. A method
--     returns the log and its result. Brightness: the arithmetic; Modes: which mode is chosen;
--     Disabling, Switches: what an LED's files hold; Wait: the nodes of the timer; Blend: the levels
--     of three LEDs.
--   Light/Devices.antt: Devices.cpp; Light/Lights.antt: Lights.cpp, the service that owns the devices.
--     Requests: what any requests come to. The loop over the timer's nodes takes the source's count
--     of twenty as its fuel.
-- Base: tests, lists, integers and maps over the native numbers, shared by all.
--
-- Conventions. An `int` that is only compared for equality (an id, a process id) is the number of
-- its bits; an `int` that is computed with is a signed integer without bound, except that the
-- narrowing conversions to `int32_t` and `uint32_t` are written out, and so is the wrap-around of
-- unsigned counters and of shifts; where C++ leaves an overflow undefined it is taken not to
-- happen. `std::unordered_map` is an association list in iteration order. Loops are structural
-- recursion on the list that the code walks or on the source's own count; `dispatch`, which skips
-- ahead, and `find_node` of the charging control, which waits, take fuel: as much as there are
-- messages is enough for the first, and for the second what Health/ChargingControl/Search.antt says.
-- The loop of the background worker is modelled turn by turn. `double` and `float` are interfaces of operations,
-- `Float`, `Doubles` and `Singles`, with no laws assumed.
--
-- Not modelled: logging and tracing, but for the divisions among what is traced, which can fail; locks
-- (each method of the classes above runs under its caller's
-- lock), start-up, binder transport, the vendor libraries, and the components that the modules
-- above do not name.
pub mod Base
pub mod Fingerprint
pub mod Health
pub mod Light
pub mod Perfmgr
