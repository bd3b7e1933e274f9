-- ===== src/Admin.antt =====
-- blueprints/admin_routes.py: the handlers of the admin pages that change state.
pub mod Reservations
pub mod Accounts
pub mod Switches
pub mod Types
pub mod Broadcast
