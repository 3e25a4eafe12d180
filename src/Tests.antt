-- ===== src/Tests.antt =====
-- Runs of the model, and the theorems at concrete inputs.
pub mod Segmentation
pub mod Domain
pub mod Jobs
pub mod Worker
