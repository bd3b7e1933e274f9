-- ===== src/Database.antt =====
-- database.py: the tables, and the operations on them. The proofs stand in the child modules.
pub mod Tables
pub mod Rows
pub mod Settings
pub mod RateLimit
pub mod Webhook
pub mod Runtime
pub mod Schema
