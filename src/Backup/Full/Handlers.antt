-- ===== src/Backup/Full/Handlers.antt =====
-- blueprints/backup_routes.py: the handlers that restore a backup or delete every reservation. What
-- `json.loads` makes of an uploaded file is a parameter.
use linebot.Prelude.{
  ℕ, Bool, true, false, not, Option, none, some, [], ◌++◌, Text, codes, decimal, strip, text_eq,
  is_empty, length, ◌==◌, if◌then◌else◌,
}
use linebot.Database.Tables.{AdminAccount, Database}
use linebot.Database.Rows.{account_of}
use linebot.Auth.Session.{Session, cleared}
use linebot.Auth.Request.{ends_with}
use linebot.Admin.Accounts.Input.{lower}
use linebot.Admin.Reservations.{Response, redirect_login, redirect_to, aborted}
use linebot.Backup.Account.{AccountBackup, Import, refused, broken, imported, import_account_tables}
use linebot.Backup.Full.{
  FullBackup, Table, SequenceReply, running, import_order, import_tables, reset_sequences, commit,
}

abbrev backup_page : Text
backup_page = codes "admin_backup_page"

abbrev answer : Text → Response
answer message = redirect_to backup_page message

-- What the JSON holds: its scope, the owner that an account's backup names, and the tables, where each table
-- that the handler asks for is there. `unreadable` is a file that is too large or no JSON, `shapeless` a JSON
-- without a dict of tables.
pub data Parsed (A : Type 0) : Type 0 where
  unreadable shapeless : Parsed A
  backup : Option Text → Option ℕ → Option Text → Option A → Parsed A

-- The file of the form: its name, empty where none was chosen, and its content.
pub record Upload (A : Type 0) : Type 0 where
  pub filename : Text
  pub content : Parsed A

-- The role that the session is authenticated in.
pub data Visitor : Type 0 where
  auditor admin nobody : Visitor

abbrev pub turned_away : Visitor → Response
turned_away Visitor.auditor = redirect_login
turned_away Visitor.admin = aborted 403
turned_away Visitor.nobody = redirect_login

abbrev pub is_auditor : Visitor → Bool
is_auditor Visitor.auditor = true
is_auditor _ = false

abbrev pub Outcome : Type 0
Outcome = Response × Session × Database

-- The checks of the file that both handlers begin with; `read` goes on with what it holds.
abbrev pub checked_file : {A : Type 0} → Session → Database → Upload A → Outcome → Outcome
checked_file session db upload read =
    if is_empty (strip upload.filename)
    then (answer (codes "バックアップファイルを選択してください。"), session, db)
    else if not (ends_with (lower upload.filename) (codes ".json"))
    then (answer (codes "JSONファイル (.json) を選択してください。"), session, db)
    else read

abbrev unreadable_file : Response
unreadable_file = answer (codes "ファイルの読み込みに失敗しました。有効なJSONファイルを選択してください。")

abbrev bad_format : Response
bad_format = answer (codes "バックアップの形式が無効です。")

abbrev import_failed : Response
import_failed = answer (codes "インポートに失敗しました。バックアップファイルを確認してください。")

abbrev pub refused_scope : Response
refused_scope = answer (codes "全体バックアップのファイルを選択してください。")

-- scope in (None, "full")
abbrev pub is_full_scope : Option Text → Bool
is_full_scope none = true
is_full_scope (some scope) = text_eq scope (codes "full")

abbrev pub restored : (Table → SequenceReply) → Session → Database → Option Database → Outcome
restored reply session db none = (import_failed, session, db)
restored reply session db (some after) = (
  redirect_to (codes "login") (codes "backup_restored"),
  cleared,
  commit db (reset_sequences reply import_order (running after)),
)

abbrev pub import_complete :
    (Table → SequenceReply) → Session → Database → Option FullBackup → Outcome
import_complete reply session db none = (answer (codes "全体バックアップに必要なテーブルが不足しています。"), session, db)
import_complete reply session db (some full) =
    restored reply session db (import_tables full import_order db)

abbrev pub import_content :
    (Table → SequenceReply) → Session → Database → Parsed FullBackup → Outcome
import_content reply session db unreadable = (unreadable_file, session, db)
import_content reply session db shapeless = (bad_format, session, db)
import_content reply session db (backup scope owner login_id tables) =
    if is_full_scope scope
    then import_complete reply session db tables
    else (refused_scope, session, db)

unfoldable pub admin_backup_import :
    (Table → SequenceReply) → Visitor → Upload FullBackup → Session → Database → Outcome
unfolding strip import_tables reset_sequences
admin_backup_import reply visitor upload session db =
    if is_auditor visitor
    then checked_file session db upload (import_content reply session db upload.content)
    else (turned_away visitor, session, db)

abbrev shown_login_id : Option Text → Text
shown_login_id none = codes "不明"
shown_login_id (some login_id) = login_id

abbrev names_other : ℕ → Option ℕ → Bool
names_other account_id none = false
names_other account_id (some owner) = not (owner == account_id)

abbrev tables_or_empty : Option AccountBackup → AccountBackup
tables_or_empty none = record {
  types = [];
  reservations = [];
  types_name_owner = false;
  reservations_name_owner = false;
}
tables_or_empty (some tables) = tables

abbrev account_imported : AdminAccount → Database → Import → Response × Database
account_imported a db (refused message) = (answer message, db)
account_imported a db broken = (import_failed, db)
account_imported a db (imported after) =
    (answer (codes "アカウント「" ++ a.login_id ++ codes "」のバックアップを復元しました。"), after)

abbrev account_scoped :
    ℕ
    → AdminAccount
    → Database
    → Option ℕ
    → Option Text
    → Option AccountBackup
    → Response × Database
account_scoped account_id a db owner login_id tables =
    if names_other account_id owner
    then (
      answer (
          codes "このバックアップはアカウント「"
          ++ shown_login_id login_id
          ++ codes "」のものです。アカウント「"
          ++ a.login_id
          ++ codes "」への復元には使用できません。"),
      db,
    )
    else account_imported a db (import_account_tables account_id (tables_or_empty tables) db)

abbrev account_content : ℕ → AdminAccount → Database → Parsed AccountBackup → Response × Database
account_content account_id a db unreadable = (unreadable_file, db)
account_content account_id a db shapeless = (bad_format, db)
account_content account_id a db (backup none owner login_id tables) =
    (answer (codes "このバックアップは旧形式の全体バックアップです。アカウント別復元には使用できません。"), db)
account_content account_id a db (backup (some scope) owner login_id tables) =
    if text_eq scope (codes "full")
    then (answer (codes "このバックアップはDB全体のバックアップです。アカウント別復元には使用できません。全体復元を使用してください。"), db)
    else if text_eq scope (codes "account")
    then account_scoped account_id a db owner login_id tables
    else (answer (codes "このバックアップは旧形式の全体バックアップです。アカウント別復元には使用できません。"), db)

abbrev account_found :
    ℕ → Upload AccountBackup → Database → Option AdminAccount → Response × Database
account_found account_id upload db none = (answer (codes "指定されたアカウントが見つかりません。"), db)
account_found account_id upload db (some a) =
    if is_empty (strip upload.filename)
    then (answer (codes "バックアップファイルを選択してください。"), db)
    else if not (ends_with (lower upload.filename) (codes ".json"))
    then (answer (codes "JSONファイル (.json) を選択してください。"), db)
    else account_content account_id a db upload.content

unfoldable pub admin_backup_import_account :
    Visitor → ℕ → Upload AccountBackup → Database → Response × Database
unfolding strip import_account_tables account_of
admin_backup_import_account visitor account_id upload db =
    if is_auditor visitor
    then account_found account_id upload db (account_of db account_id)
    else (turned_away visitor, db)

-- `enabled` is GLOBAL_RESERVATION_DELETE_ENABLED.
unfoldable pub admin_delete_all_reservations :
    Bool → Visitor → Text → Database → Response × Database
unfolding decimal
admin_delete_all_reservations enabled visitor confirmation db =
    if not (is_auditor visitor)
    then (turned_away visitor, db)
    else if not enabled
    then (
      answer (codes "全アカウント予約削除は無効です。ENABLE_GLOBAL_RESERVATION_DELETE=true を設定して再起動してください。"),
      db,
    )
    else if not (text_eq confirmation (codes "全アカウントの予約を削除"))
    then (answer (codes "確認文字列が一致しないため、予約は削除されませんでした。"), db)
    else (
      answer (codes "全アカウントの予約を" ++ decimal (length db.reservations) ++ codes "件削除しました。"),
      record db { reservations = [] },
    )
