-- ===== src/WorkflowTokens.antt =====
-- `app/workflow_tokens`: single-use tokens for verification, email change, invitations and password
-- resets, with `retire_email` of `app/identity/users/emails.py`.
pub mod Rows
pub mod Service
pub mod Slots
pub mod Effects
pub mod Searches
pub mod Issued
pub mod Requests
pub mod Writes
pub mod SingleUse
pub mod Refinement
