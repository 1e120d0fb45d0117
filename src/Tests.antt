-- ===== src/Tests.antt =====
-- Concrete runs of the modelled code, and the properties applied to them.
pub mod Outbox
pub mod Scopes
pub mod Store
pub mod Refresh
pub mod Devices
pub mod Revocation
pub mod CodeExchange
pub mod WorkflowTokens
pub mod Identity
pub mod Dispatcher
pub mod Interactions
