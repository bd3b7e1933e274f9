-- ===== src/Reserve.antt =====
-- blueprints/line_routes.py: the messages of the users, and the reservations that they make.
pub mod Insert
pub mod Reply
pub mod Message
