-- ===== src/Oauth2/Devices.antt =====
-- `app/oauth2/devices`: device codes, which a user approves or denies and a client polls for.
pub mod Polling
pub mod Decisions
pub mod Grant
pub mod Lifecycle
pub mod Histories
pub mod Finality
pub mod Exchange
pub mod Handler
pub mod SingleUse
pub mod Approver
