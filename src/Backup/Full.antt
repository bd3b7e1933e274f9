-- ===== src/Backup/Full.antt =====
-- blueprints/backup_routes.py: the backup of all tables and its restoration (`_import_table`,
-- `_reset_sequence`). As for one account, a backup is modelled by the rows that its JSON stands for. The rows
-- of the logs and of the login attempts have ids that nothing reads, and the model leaves them out.
pub mod Handlers
pub mod Rollback
use linebot.Prelude.{
  ℕ, suc, Bool, true, false, not, ◌&&◌, ◌||◌, Option, none, some, List, [], ◌∷◌, ◌++◌, Text,
  text_eq, any, map, order_by, ◌==◌, if◌then◌else◌,
}
use linebot.Database.Tables.{
  Reservation, ReservationType, AdminAccount, AppSetting, RateRecord, LoginLog, Database,
}
use linebot.Backup.Account.{max_id, takes_type_key, takes_key, insert_type, refers}

-- BACKUP_TABLES
pub data Table : Type 0 where
  reservation_types admin_accounts reservations app_settings admin_login_logs
        login_attempt_records :
      Table

-- The rows of each table of a full backup.
pub record FullBackup : Type 0 where
  pub types : List ReservationType
  pub accounts : List AdminAccount
  pub rows : List Reservation
  pub settings : List AppSetting
  pub logs : List LoginLog
  pub attempts : List RateRecord

-- `_export_table` of each table; the order of the settings, which is by key, is left out.
unfoldable pub export_tables : Database → FullBackup
export_tables db = record {
  types = order_by (λ t. t.id) db.reservation_types;
  accounts = order_by (λ a. a.id) db.admin_accounts;
  rows = order_by (λ r. r.id) db.reservations;
  settings = db.app_settings;
  logs = db.admin_login_logs;
  attempts = db.login_attempt_records;
}

-- TRUNCATE TABLE ... RESTART IDENTITY CASCADE, with the tables that refer to it
abbrev no_rows : Database → Database
no_rows db = record db { reservations = []; next_reservation_id = 1 }

abbrev no_types : Database → Database
no_types db = record (no_rows db) { reservation_types = []; next_type_id = 1 }

abbrev no_accounts : Database → Database
no_accounts db = record (no_types db) {
  admin_accounts = [];
  next_account_id = 1;
  reservation_number_sequences = [];
  admin_login_logs = [];
}

unfoldable pub truncate : Table → Database → Database
truncate reservation_types db = no_types db
truncate admin_accounts db = no_accounts db
truncate reservations db = no_rows db
truncate app_settings db = record db { app_settings = [] }
truncate admin_login_logs db = record db { admin_login_logs = [] }
truncate login_attempt_records db = record db { login_attempt_records = [] }

-- REFERENCES admin_accounts(id)
abbrev pub refers_account : List AdminAccount → Option ℕ → Bool
refers_account accounts none = true
refers_account accounts (some i) = any (λ a. a.id == i) accounts

-- INSERT ... ON CONFLICT DO NOTHING of one row; `none` is a reference to a row that is not there.
abbrev add_account : AdminAccount → Database → Option Database
add_account a db =
    if any (λ b. (b.id == a.id) || text_eq b.login_id a.login_id) db.admin_accounts
    then some db
    else some (record db { admin_accounts = db.admin_accounts ++ a ∷ [] })

abbrev add_type : ReservationType → Database → Option Database
add_type t db =
    if any (takes_type_key t) db.reservation_types
      || refers_account db.admin_accounts t.owner_admin_id
    then some (record db { reservation_types = insert_type t db.reservation_types })
    else none

abbrev add_row : Reservation → Database → Option Database
add_row r db =
    if any (takes_key r) db.reservations
    then some db
    else if refers_account db.admin_accounts r.owner_admin_id
        && refers db.reservation_types r.type_id
    then some (record db { reservations = db.reservations ++ r ∷ [] })
    else none

abbrev add_setting : AppSetting → Database → Option Database
add_setting s db =
    if any (λ t. text_eq t.key s.key) db.app_settings
    then some db
    else some (record db { app_settings = db.app_settings ++ s ∷ [] })

abbrev add_log : LoginLog → Database → Option Database
add_log l db =
    if refers_account db.admin_accounts l.admin_account_id
    then some (record db { admin_login_logs = db.admin_login_logs ++ l ∷ [] })
    else none

abbrev add_attempt : RateRecord → Database → Option Database
add_attempt a db = some (record db { login_attempt_records = db.login_attempt_records ++ a ∷ [] })

abbrev pub and_then : (Database → Option Database) → Option Database → Option Database
and_then next none = none
and_then next (some db) = next db

abbrev add_all :
    {A : Type 0} → (A → Database → Option Database) → List A → Database → Option Database
add_all add [] db = some db
add_all add (x ∷ rest) db = and_then (add_all add rest) (add x db)

-- The rows of a table after its TRUNCATE.
unfoldable pub import_table : FullBackup → Table → Database → Option Database
unfolding truncate
import_table backup reservation_types db =
    add_all add_type backup.types (truncate reservation_types db)
import_table backup admin_accounts db =
    add_all add_account backup.accounts (truncate admin_accounts db)
import_table backup reservations db = add_all add_row backup.rows (truncate reservations db)
import_table backup app_settings db = add_all add_setting backup.settings (truncate app_settings db)
import_table backup admin_login_logs db = add_all add_log backup.logs (truncate admin_login_logs db)
import_table backup login_attempt_records db =
    add_all add_attempt backup.attempts (truncate login_attempt_records db)

-- The order of the references.
abbrev pub import_order : List Table
import_order =
    admin_accounts ∷ reservation_types ∷ reservations ∷ app_settings ∷ admin_login_logs
    ∷ login_attempt_records ∷ []

unfoldable pub import_tables : FullBackup → List Table → Database → Option Database
import_tables backup [] db = some db
import_tables backup (table ∷ rest) db =
    and_then (import_tables backup rest) (import_table backup table db)

-- What PostgreSQL answers to `pg_get_serial_sequence(table, 'id')`: a sequence, NULL, or an error.
pub data SequenceReply : Type 0 where
  sequence no_sequence raised : SequenceReply

-- A transaction after a statement of its failed takes no other, and its COMMIT is a ROLLBACK.
pub data Transaction : Type 0 where
  running : Database → Transaction
  failed : Transaction

-- setval(..., COALESCE((SELECT MAX(id) FROM ...), 0) + 1, false)
unfoldable pub set_sequence : Table → Database → Database
set_sequence reservation_types db = record db {
  next_type_id = suc (max_id (map (λ t. t.id) db.reservation_types));
}
set_sequence admin_accounts db = record db {
  next_account_id = suc (max_id (map (λ a. a.id) db.admin_accounts));
}
set_sequence reservations db = record db {
  next_reservation_id = suc (max_id (map (λ r. r.id) db.reservations));
}
set_sequence app_settings db = db
set_sequence admin_login_logs db = db
set_sequence login_attempt_records db = db

abbrev pub after_reply : Table → SequenceReply → Database → Transaction
after_reply table sequence db = running (set_sequence table db)
after_reply table no_sequence db = running db
after_reply table raised db = failed

-- The caller catches the exception of each table and goes on.
unfoldable pub reset_sequence : (Table → SequenceReply) → Table → Transaction → Transaction
unfolding set_sequence
reset_sequence reply table failed = failed
reset_sequence reply table (running db) = after_reply table (reply table) db

unfoldable pub reset_sequences : (Table → SequenceReply) → List Table → Transaction → Transaction
reset_sequences reply [] tx = tx
reset_sequences reply (table ∷ rest) tx = reset_sequences reply rest (reset_sequence reply table tx)

abbrev pub commit : Database → Transaction → Database
commit before (running db) = db
commit before failed = before
