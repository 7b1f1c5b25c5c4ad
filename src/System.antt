-- ===== src/System.antt =====
-- The components together, joined as docs/Software_Detailed_Design.md (3.1, 3.2) says: each
-- output feeds the input of the same name. The repository holds no code for the joints, so a joint is
-- a hypothesis on the receiving component's input.
pub mod DoorControl
pub mod DoorCommand
pub mod AutoLock
pub mod Trip
pub mod Verdict
pub mod Policy
pub mod Loop
pub mod Vehicle
pub mod Plan
pub mod SafeRide
pub mod Life
pub mod Course
pub mod LockedLife
pub mod Progress
pub mod RearProtection
pub mod LockSetter
pub mod LockControl
pub mod HandleBlock
pub mod RollingBlock
pub mod Reasons
pub mod Restoration
pub mod Journey
pub mod SeatAlert
pub mod Reports
pub mod RearScenario
mod DoorExamples
mod TripExamples
mod LockExamples
mod RideExamples
mod LifeExamples
mod VehicleExamples
mod RearExamples
mod ReportExamples
