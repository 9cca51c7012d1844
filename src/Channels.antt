-- ===== src/Channels.antt =====
-- The channel routing feature (internal/features/channels): validation of requests, the sender of
-- purchase orders to a supplier's ERP, and the router that records each attempt.
pub mod Models
pub mod Validators
pub mod Sender
pub mod Router
