-- ===== src/Segmentation.antt =====
-- packages/shared/src/segmentation.ts, one module for each group of its functions.
pub mod Boundary
pub mod Intervals
pub mod Weight
pub mod Message
pub mod History
pub mod Segment
pub mod Reconcile
pub mod Fragment
pub mod Pack
pub mod Run
pub mod Submission
pub mod Read
