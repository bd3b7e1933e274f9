-- ===== src/Queue.antt =====
-- services/queue_service.py: waiting times, ticket numbers, calls and their time limit.
pub mod WaitTime
pub mod Number
pub mod Calls
pub mod Batch
