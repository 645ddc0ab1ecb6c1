-- ===== src/Sema/Constants.antt =====
-- src/sema/constants.rs and src/sema/constants/: compile-time values.
pub mod Values
pub mod Depth
pub mod Evaluation
pub mod Messages
pub mod Reference
pub mod Steps
pub mod Correct
pub mod Resume
pub mod Suspend
pub mod Rounds
pub mod Cache
pub mod Schedule
pub mod Evaluator
pub mod Determined
pub mod Consistent
pub mod Tables
pub mod Scheduled
pub mod Frames
pub mod Sound
pub mod Weight
pub mod Unvisited
pub mod Total
pub mod Stacks
pub mod Bounded
pub mod Arithmetic
pub mod Range
pub mod Tasks
pub mod Predefined
