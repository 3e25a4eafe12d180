-- ===== src/Domain.antt =====
-- packages/shared/src/domain.ts: identities, and the checks on a resolution.
pub mod Frame
pub mod Identity
pub mod Names
pub mod Resolution
