-- ===== src/Sender.antt =====
-- internal/smtpsender/sender.go: the outgoing queues.
pub mod Queues
pub mod Retry
pub mod Delivery
pub mod Keeps
pub mod Backoff
pub mod Queued
pub mod Outcomes
