-- ===== src/Events.antt =====
-- Events of a simulation (events/).
pub mod Action
pub mod Schedule
pub mod ScheduleList
pub mod Condition
pub mod ZeroCrossing
pub mod Directions
pub mod Ticks
pub mod ListTicks
pub mod Bisection
