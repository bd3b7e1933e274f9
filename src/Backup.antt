-- ===== src/Backup.antt =====
-- blueprints/backup_routes.py: the backups of the tables.
pub mod Account
pub mod Full
