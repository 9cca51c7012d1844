-- ===== src/Orders.antt =====
-- The order builder feature (internal/features/orders): purchase orders assembled from approved
-- plans, stored with their lines and their history, and cancelled.
pub mod Models
pub mod Builder
pub mod Tables
pub mod Service
