-- ===== src/Notifications.antt =====
-- `app/notifications`: durable delivery of notification events. `Notifications.Outbox` has the
-- table, `Notifications.Retry` the back-off, `Notifications.Lease` the worker's statements,
-- `Notifications.Workers` any interleaving of them, and `Notifications.Dispatcher` one pass.
pub mod Outbox
pub mod Retry
pub mod Lease
pub mod Workers
pub mod Dispatcher
