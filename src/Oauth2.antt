-- ===== src/Oauth2.antt =====
-- `app/oauth2`: the authorization server.
pub mod Errors
pub mod Tables
pub mod Flows
pub mod Settings
pub mod Scopes
pub mod Clients
pub mod Identity
pub mod Issuance
pub mod Refresh
pub mod Devices
pub mod CodeExchange
pub mod Revocation
pub mod SessionStatus
pub mod Interactions
