-- ===== src/Worker.antt =====
-- The extraction worker of server/src/worker.ts.
pub mod Process
pub mod Loop
