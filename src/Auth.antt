-- ===== src/Auth.antt =====
-- auth.py: the session of an admin, its time limit, and the checks on a request.
pub mod Session
pub mod Request
pub mod Login
pub mod Guard
