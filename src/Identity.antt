-- ===== src/Identity.antt =====
-- `app/identity/services`: who may lose access, and the deletion of users.
pub mod AccessInvariants
pub mod Deletion
pub mod Counts
pub mod Guarantees
pub mod Survivors
pub mod LastAccess
pub mod Updates
pub mod UserUpdates
