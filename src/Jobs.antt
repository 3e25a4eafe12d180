-- ===== src/Jobs.antt =====
-- server/src/database.ts: the rows of `extraction_jobs`, `segment_targets` and `segments` that belong
-- to one segment. Every operation locks its segment (`#lockSegment`) and runs in a transaction, so it
-- is a function on such a group; where the source throws, the transaction is rolled back.
pub mod Boundary
pub mod Codec
pub mod Rows
pub mod Match
pub mod Eligible
pub mod Want
pub mod Enqueue
pub mod Claim
pub mod Attempt
pub mod Knowledge
pub mod Commit
pub mod Operate
pub mod Recover
pub mod Updates
pub mod Snapshots
pub mod Machine
pub mod Invariant
pub mod Current
pub mod Stale
pub mod Mailbox
pub mod Recovery
pub mod Answer
