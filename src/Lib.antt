-- ===== src/Lib.antt =====
-- MBP-T05-ChildLock: the electronic child lock of a car's rear doors, and its assistance on leaving the
-- car. The program is ten components in C, F-01 to F-10, each a source file under src/ with its header
-- under include/, over shared types in include/childlock_types.h. A component is called once per cycle
-- or event, with pointers to its context, its input and its output. No code of the repository joins
-- them; the detailed design (docs/Software_Detailed_Design.md) says which output goes where.
--
-- Door control. F-01 validates the raw signals: speed, crash, driver's switch, inner handle. F-02
-- decides on the lock. F-03 makes the Door ECU's command of the decision and reports on the
-- acknowledgement. F-04 blocks the inner handle. F-05 saves the lock state at ignition off and restores
-- it at ignition on or after a reset, with a synchronisation of the Door ECU. F-06 passes messages,
-- events and faults on to the HMI, the log and the fault store.
--
-- Exit assistance. F-07 rates the danger from behind, with a time to confirm it and a time to clear it.
-- F-08 locks the doors on a danger or on a failing sensor. F-09 alerts to an occupied rear seat on
-- departure. F-10 gives one summary of the lock when the ignition goes off.
--
-- The modules. A component's module holds its data and all its operations; the modules under it hold
-- what is proved of them, Examples runs them and their theorems at concrete inputs, and UnitTests runs
-- them on the cases of the component's tests under test/, with what these expect.
--   Base              names of the library, tests on numbers, differences of uint32_t
--   Float             float: the IEEE 754 binary32 numbers by their magnitude's bits. Order has their
--                     comparison, Value the numbers that the bits stand for
--   Types             include/childlock_types.h. Thresholds compares its numbers with the source's
--   InputMonitor      src/F01_InputMonitorAndValidator.c. init, run, reset; `process` is steps 3 to 9
--                     of the run, one helper per static function. Speed, Cycle
--   Decision          src/F02_ChildLockStateDecision.c. decide_child_lock_state. Rules has the decision
--                     table as a relation, Safety has when the lock opens, and sequences of decisions
--   DoorEcu           src/F03_DoorEcuCommandHandler.c. handle_command. Handling
--   OpenBlock         src/F04_RearDoorOpenBlockHandler.c. handle_event. Handling
--   Persistence       src/F05_StatePersistenceManager.c. init, handle_ignition_off, handle_ignition_on,
--                     handle_reset. Defined, Restore, PowerCycle; Lifetime has the life of a manager
--                     as a step relation, and LastSaved what a wake reports in it
--   HmiLogger         src/F06_HmiAndEventLogger.c. init, process. Calls
--   RearRisk          src/F07_RearRiskEvaluation.c. init, run, reset. Sensor has the checks of one
--                     measurement; History has the risk as a function of the past measurements,
--                     Timers relates the two timers to it; Events has the sequences of cycles, resets
--                     and failed calls, Evaluation what they come to; Sustained draws the
--                     consequences. Phase has a state machine on the code's timestamps, Machine
--                     relates the code to it with no assumption on the times; Outage and Shift draw
--                     the consequences
--   Protection        src/F08_RearRiskProtectionController.c. run. Actions
--   OccupancyAlert    src/F09_RearSeatOccupancyAlert.c. run. Alerts
--   IgnitionOffAlert  src/F10_IgnitionOffStatusAlert.c. init, handle_event. Handling for one event,
--                     Once and Policy for sequences of them
--   System            components together, for any joint that passes the values on: DoorControl (F-01
--                     into F-02), Verdict (one decision against the design's policy), Trip and Policy
--                     (the two in a loop, and the policy over a trip), Loop (a joint of the two as a
--                     function, and the trips that it makes), DoorCommand and AutoLock (F-01 into
--                     F-02 into F-03, for opening and for locking), Reasons (F-02 into F-03, by
--                     numbers), HandleBlock (F-01 into F-04), RollingBlock (Trip into F-04),
--                     Restoration (F-05 into F-03), Journey (Trip into F-05 into F-03),
--                     RearProtection (F-07 into F-08), RearScenario (F-07 into F-08 into F-03 and
--                     F-06), Vehicle and Plan (F-01, F-02, F-07 and F-08 in one loop, and its plan),
--                     SafeRide (that loop while the vehicle rolls, into F-04, and into F-05 and F-03),
--                     Life and Course (that loop with the saves and wakes of F-05 in between, and its
--                     course), LockedLife (such a life of a locked car), Progress (that such lives exist),
--                     Reports (F-08 and F-03 into F-06), SeatAlert (F-09 into F-06). LockSetter is an
--                     interface, the components that set the lock; LockControl fills it with F-02,
--                     F-05 and F-08, and interleaves them
--
-- How the code corresponds. A pointer is an `Option`, NULL is `none`; a function returns what its
-- pointers hold when it ends, after its result. F-02 reads through its pointer with no test, so its
-- input is no `Option`. A type or function keeps its name without the component's prefix. An
-- enumeration that is read from outside has one more constructor, `.._other n`, for the values that are
-- none of its enumerators; a set of flags is its bit mask. A float constant is the bit pattern of its
-- value; comparisons are those of IEEE 754, false on NaN. Timestamps are below 2 ^ 32, and times elapsed
-- are differences modulo 2 ^ 32. The callbacks of F-05, F-06 and F-10 are not in the sources: they are
-- functions over a type of environments, arguments of what uses them; an out parameter is given to a
-- callback with what it holds. A callback is taken to return, and to leave the caller's context, input
-- and output alone; what else it does is in the environment. Where the code would call or read through
-- NULL, the outcome is `none`. What becomes of the lock at a start with nothing stored, where F-05
-- reports off but requests no synchronisation, the sources do not say: the rule for it is an argument,
-- `unrestored`, of System.Life and of what stands on it.
--
-- Bounds. No function runs on fuel: the code has no loop, and all recursion is on the list of cycles
-- or events, so every function is total. Readings of F-07 carry a time that does not wrap around;
-- `WellTimed` wants that times do not fall and that two valid readings are less than 2 ^ 32 - 1000 ms
-- apart (49.7 days), so that a timer of up to 1000 ms, which the code reads modulo 2 ^ 32, is acted on
-- before it wraps around. The state machine in Phase has the code's timestamps, and needs no such
-- bound.
--
-- Not modelled: SafeState_t and FAULT_FLAG_NVM_FAULT, which no code uses; the C++ code of the unit
-- tests; build files and documents. What else of src/ and include/ has no definition
-- is prototypes, include lines and comments. Pointers that alias each other are not considered, as the
-- arguments of every function have different types.
pub mod Base
pub mod Float
pub mod Types
pub mod InputMonitor
pub mod Decision
pub mod DoorEcu
pub mod OpenBlock
pub mod Persistence
pub mod HmiLogger
pub mod IgnitionOffAlert
pub mod OccupancyAlert
pub mod Protection
pub mod RearRisk
pub mod System
