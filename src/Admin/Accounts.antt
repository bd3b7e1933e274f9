-- ===== src/Admin/Accounts.antt =====
-- blueprints/admin_routes.py: the handlers by which an audit admin activates, deactivates and deletes
-- accounts. `auditor` is the account that the session is authenticated as in that role, where it is. Each
-- handler reads and writes without another transaction in between.
pub mod Actor
pub mod Input
pub mod Create
pub mod Named
pub mod Unique
pub mod Requests
pub mod Inactive
use linebot.Prelude.{
  ℕ, Bool, true, false, not, ◌&&◌, ◌||◌, Option, none, some, Text, codes, any, count_where,
  select_where, update_where, leb, ◌==◌, ◌++◌, if◌then◌else◌,
}
use linebot.Database.Tables.{Role, AdminAccount, Database, role_eq, is_id}
use linebot.Database.Rows.{account_of}
use linebot.Admin.Reservations.{Response, redirect_login, redirect_to}

-- auth.py `get_active_admin_count`
unfoldable pub get_active_admin_count : Role → Database → ℕ
get_active_admin_count role db =
    count_where (λ a. role_eq a.role role && a.active) db.admin_accounts

abbrev pub logs_page : Text
logs_page = codes "admin_login_logs_page"

abbrev pub missing_account : Response
missing_account = redirect_to logs_page (codes "対象アカウントが存在しません。")

abbrev pub has_id : ℕ → Database → Bool
has_id id db = any (λ a. a.id == id) db.admin_accounts

-- The account is the last active audit admin, by the count.
abbrev pub is_last_audit : AdminAccount → Database → Bool
is_last_audit a db =
    role_eq a.role Role.audit_admin && leb (get_active_admin_count Role.audit_admin db) 1

abbrev pub set_active : ℕ → Bool → Database → Database
set_active id active db = record db {
  admin_accounts =
      update_where (λ a. a.id == id) (λ a. record a { active = active }) db.admin_accounts;
}

abbrev toggled_message : AdminAccount → Text
toggled_message a =
    codes "アカウント「" ++ a.login_id ++ (if a.active then codes "」を無効化しました。" else codes "」を有効化しました。")

abbrev pub toggle_found : ℕ → Option AdminAccount → Database → Response × Database
toggle_found id none db = (missing_account, db)
toggle_found id (some a) db =
    if a.active && is_last_audit a db
    then (redirect_to logs_page (codes "最後の監査管理者は無効化できません。"), db)
    else if has_id id db
    then (redirect_to logs_page (toggled_message a), set_active id (not a.active) db)
    else (missing_account, db)

unfoldable pub admin_accounts_toggle_active : Option ℕ → ℕ → Database → Response × Database
admin_accounts_toggle_active none id db = (redirect_login, db)
admin_accounts_toggle_active (some auditor) id db =
    if auditor == id
    then (redirect_to logs_page (codes "自分のアカウントは無効化できません。"), db)
    else toggle_found id (account_of db id) db

-- ON DELETE RESTRICT of the types and the reservations.
abbrev pub is_referred : ℕ → Database → Bool
is_referred id db =
    any (λ t. is_id t.owner_admin_id id) db.reservation_types
    || any (λ r. is_id r.owner_admin_id id) db.reservations

-- ON DELETE CASCADE of the sequences, and ON DELETE SET NULL of the logs.
abbrev pub delete_account : ℕ → Database → Database
delete_account id db = record db {
  admin_accounts = select_where (λ a. not (a.id == id)) db.admin_accounts;
  reservation_number_sequences =
      select_where (λ s. not (s.owner_admin_id == id)) db.reservation_number_sequences;
  admin_login_logs =
      update_where (λ l. is_id l.admin_account_id id) (λ l. record l { admin_account_id = none })
        db.admin_login_logs;
}

abbrev pub delete_found : ℕ → Option AdminAccount → Database → Response × Database
delete_found id none db = (missing_account, db)
delete_found id (some a) db =
    if is_last_audit a db
    then (redirect_to logs_page (codes "最後の監査管理者は削除できません。"), db)
    else if is_referred id db
    then (redirect_to logs_page (codes "このアカウントは参照中データがあるため削除できません。"), db)
    else if has_id id db
    then (
      redirect_to logs_page (codes "アカウント「" ++ a.login_id ++ codes "」を削除しました。"),
      delete_account id db,
    )
    else (missing_account, db)

unfoldable pub admin_accounts_delete : Option ℕ → ℕ → Database → Response × Database
admin_accounts_delete none id db = (redirect_login, db)
admin_accounts_delete (some auditor) id db =
    if auditor == id
    then (redirect_to logs_page (codes "自分のアカウントは削除できません。"), db)
    else delete_found id (account_of db id) db
