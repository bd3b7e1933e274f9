-- ===== src/Line.antt =====
-- services/line_service.py: the messages that go to the LINE platform.
pub mod Push
pub mod Image
pub mod Json
pub mod Reply
